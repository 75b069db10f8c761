-- ===== src/Examples/Limits.antt =====
-- The circuit breaker and the rate limits on small inputs.
use be_mycourse.Shared.{
  false, some, ℕ, ◌≡◌, refl, ◌+◌, ◌≤◌, ◌<◌, ◌==◌, true, none, List, [], ◌∷◌, Text, codes,
  if◌then◌else◌, arith,
}
use be_mycourse.Shared.Int.{pos}
use be_mycourse.Shared.Map.{lookup}
use be_mycourse.Resilience.{
  RawConfig, Breaker, Event, asks, enters, fails, probe_fails, state_open, state_closed,
  state_half_open, half_bits, normalize_config, new_circuit_breaker, transition_half_open, allow,
  record_http_success, step, run, admitted, begins, steps,
}
use be_mycourse.Resilience.{is_nan, configure_from_settings}
use be_mycourse.Resilience.Configured.{configure_from_settings-new_circuit_breaker}
use be_mycourse.Resilience.Safety.{IsSafe, Reachable-IsSafe}
use be_mycourse.Resilience.Cooldown.{
  IsOpenUntil, admitted_cooldown, admitted_half_open, allow_recovers,
}
use be_mycourse.RateLimit.{allowed_for}
use be_mycourse.RateLimit.Quota.{occurrences, lesser, is_unused, allowed_for-quota}

-- One failed probe opens the breaker.
abbrev raw : RawConfig
raw = record {
  db_probe_interval_sec = pos 1;
  db_failures_to_open = pos 1;
  max_in_flight = pos 2;
  half_open_probe_quota = pos 2;
  open_cooldown_sec = pos 10;
  error_window_sec = pos 60;
  error_count_to_open = pos 0;
  degraded_attempts_factor = half_bits;
}

abbrev opened : Breaker
opened = step 5 probe_fails (new_circuit_breaker raw)

Reachable-IsSafe_example : IsSafe (normalize_config raw) opened
Reachable-IsSafe_example = Reachable-IsSafe raw opened (steps 5 probe_fails begins)

raw_number : is_nan raw.degraded_attempts_factor ≡ false
raw_number = refl

configure_from_settings-new_circuit_breaker_example :
    configure_from_settings (some raw) ≡ new_circuit_breaker raw
configure_from_settings-new_circuit_breaker_example =
    configure_from_settings-new_circuit_breaker raw raw_number

abbrev limit : ℕ
limit = 10000000005

opened-IsOpenUntil : IsOpenUntil limit opened
unfolding step new_circuit_breaker
opened-IsOpenUntil = record { opened = refl; lasting = ground arith }

abbrev during : List (ℕ × Event)
during = (6, asks none) ∷ (7, fails) ∷ (8, asks none) ∷ []

admitted_cooldown_example : (admitted during opened ≡ 0) × IsOpenUntil limit (run during opened)
admitted_cooldown_example =
    admitted_cooldown limit during opened opened-IsOpenUntil
      ((ground arith, tt), ((ground arith, tt), ((ground arith, tt), tt)))

abbrev probing : Breaker
probing = transition_half_open opened

probing_half_open : probing.state ≡ state_half_open
unfolding transition_half_open
probing_half_open = refl

abbrev quiet : List (ℕ × Event)
quiet = (limit, asks none) ∷ (limit, enters) ∷ (limit, asks none) ∷ (limit, asks none) ∷ []

admitted_half_open_example :
    admitted quiet probing + (run quiet probing).half_open_remaining ≡ probing.half_open_remaining
admitted_half_open_example =
    admitted_half_open quiet probing probing_half_open (tt, (tt, (tt, (tt, tt))))

-- Two of the three are admitted.
admitted_two : admitted quiet probing ≡ 2
unfolding admitted new_circuit_breaker
admitted_two = refl

opened_open : opened.state ≡ state_open
unfolding step new_circuit_breaker
opened_open = refl

opened_over : opened.open_until ≤ limit
unfolding step new_circuit_breaker
opened_over = ground arith

opened_quota : 0 < opened.cfg.half_open_probe_quota
unfolding step new_circuit_breaker
opened_quota = ground arith

allow_recovers_example :
    ((allow limit none opened).0 ≡ true)
    × ((allow limit none opened).1.state ≡ state_half_open)
    × ((record_http_success (allow limit none opened).1).state ≡ state_closed)
allow_recovers_example = allow_recovers limit opened opened_open opened_over opened_quota

abbrev attempts_made : List Text
attempts_made = codes "a" ∷ codes "b" ∷ codes "a" ∷ codes "a" ∷ []

unused : is_unused 60 120 2 true (lookup (codes "a") []) ≡ true
unfolding lookup
unused = refl

allowed_for-quota_example :
    allowed_for (codes "a") 60 120 2 true attempts_made []
    ≡ lesser (occurrences (codes "a") attempts_made) (if 2 == 0 then 1 else 2)
allowed_for-quota_example = allowed_for-quota 60 120 2 true (codes "a") attempts_made [] unused
