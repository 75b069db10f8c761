-- ===== src/Resilience/Configured.antt =====
-- The configuration that the settings give.
use be_mycourse.Shared.{
  ℕ, ◌≡◌, refl, ◌<◌, Bool, false, ◌||◌, some, ltb, if◌then◌else◌, arith, Bool-cases, inl, inr,
}
use be_mycourse.Shared.Int.{ℤ, pos, negsuc}
use be_mycourse.Resilience.{
  RawConfig, half_bits, is_nan, is_not_positive, exceeds_one, or_default, if_positive,
  new_circuit_breaker, configure_from_settings, normalize_config,
}

or_default-if_positive : (v : ℤ) (d : ℕ) → 0 < d → or_default (if_positive v d) d ≡ or_default v d
unfolding or_default if_positive
or_default-if_positive (pos n) d h = elim (Bool-cases (ltb 0 n)) [
  | inl e ↦ rw e refl
  | inr e ↦ rw e (ground arith)
]
or_default-if_positive (negsuc n) d h = ground arith

abbrev checked_factor : ℕ → ℕ
checked_factor b = if is_not_positive b || exceeds_one b then half_bits else b

checked_twice :
    (bad : ℕ → Bool) (n : Bool) (d b : ℕ)
    → n ≡ false
    → bad d ≡ false
    → (if bad (if n || bad b then d else b) then d else (if n || bad b then d else b))
      ≡ (if bad b then d else b)
checked_twice bad n d b h k = elim (Bool-cases (bad b)) [
  | inl e ↦ rw (h, e) (rw k refl)
  | inr e ↦ rw (h, e) (rw e refl)
]

checked_factor_twice :
    (b : ℕ)
    → is_nan b ≡ false
    → checked_factor (if is_nan b || (is_not_positive b || exceeds_one b) then half_bits else b)
      ≡ checked_factor b
checked_factor_twice b h =
    checked_twice (λ x. is_not_positive x || exceeds_one x) (is_nan b) half_bits b h refl

-- Settings whose factor is a number give the breaker that they give when they are only normalised,
-- in spite of being checked twice.
pub configure_from_settings-new_circuit_breaker :
    (s : RawConfig)
    → is_nan s.degraded_attempts_factor ≡ false
    → configure_from_settings (some s) ≡ new_circuit_breaker s
unfolding configure_from_settings normalize_config
configure_from_settings-new_circuit_breaker s h =
    rw
      (
        or_default-if_positive s.db_probe_interval_sec 5 (ground arith),
        or_default-if_positive s.db_failures_to_open 3 (ground arith),
        or_default-if_positive s.max_in_flight 200 (ground arith),
        or_default-if_positive s.half_open_probe_quota 3 (ground arith),
        or_default-if_positive s.open_cooldown_sec 30 (ground arith),
        or_default-if_positive s.error_window_sec 60 (ground arith),
        or_default-if_positive s.error_count_to_open 50 (ground arith),
        checked_factor_twice s.degraded_attempts_factor h,
      )
      refl
