-- ===== src/Resilience/Safety.antt =====
-- What holds of every breaker that the process can reach.
use be_mycourse.Shared.{
  ℕ, ◌≡◌, refl, ◌≤◌, ◌<◌, Bool, true, false, Option, none, some, List, [], ◌∷◌, ◌++◌, length, keep,
  if◌then◌else◌, leb, ltb, ◌==◌, arith, ap, ◌&&◌, ◌+◌, Bool-cases, inl, inr,
}
use be_mycourse.Shared.Int.{ℤ, pos, negsuc}
use be_mycourse.Resilience.{
  State, state_closed, state_open, state_half_open, RawConfig, Config, Snapshot, Breaker, Event,
  asks, enters, checks_load, leaves, fails, succeeds, probe_answers, probe_fails, allow_in, persist,
  open_locked, close_locked, enter, leave, check_load_open, record_http_success, record_db_success,
  consume_half_open, transition_half_open, is_recent, or_default, normalize_config,
  new_circuit_breaker, is_closed, is_half_open, is_open, sync_from_redis, allow, record_http_err,
  record_db_failure, step, Reachable, begins, steps,
}

-- The configuration that the breaker was built with, no more probes than the quota, and while
-- closed fewer recent errors and failed probes than open it.
pub record IsSafe (cfg : Config) (cb : Breaker) : Type 0 where
  pub same_cfg : cb.cfg ≡ cfg
  pub probes : cb.half_open_remaining ≤ cfg.half_open_probe_quota
  pub errors : is_closed cb.state ≡ true → length cb.error_window < cfg.error_count_to_open
  pub failures : is_closed cb.state ≡ true → cb.consecutive_db_fail < cfg.db_failures_to_open

or_default-positive : (v : ℤ) (d : ℕ) → 0 < d → 0 < or_default v d
unfolding or_default
or_default-positive (pos n) d h = ground arith
or_default-positive (negsuc n) d h = h

new_circuit_breaker-IsSafe :
    (raw : RawConfig) → IsSafe (normalize_config raw) (new_circuit_breaker raw)
unfolding new_circuit_breaker
new_circuit_breaker-IsSafe raw = record {
  same_cfg = refl;
  probes = unfold normalize_config in ground arith;
  errors =
      λ h. unfold normalize_config in or_default-positive raw.error_count_to_open 50 (ground arith);
  failures =
      λ h. unfold normalize_config in or_default-positive raw.db_failures_to_open 3 (ground arith);
}

if-IsSafe :
    (cfg : Config) (b : Bool) (x y : Breaker)
    → (b ≡ true → IsSafe cfg x)
    → (b ≡ false → IsSafe cfg y)
    → IsSafe cfg (if b then x else y)
if-IsSafe cfg true x y h k = h refl
if-IsSafe cfg false x y h k = k refl

module _ (cfg : Config) (positive_errors : 0 < cfg.error_count_to_open)
    (positive_failures : 0 < cfg.db_failures_to_open) where
  persist-IsSafe : (cb : Breaker) → IsSafe cfg cb → IsSafe cfg (persist cb)
  unfolding persist
  persist-IsSafe cb s = record {
    same_cfg = s.same_cfg;
    probes = s.probes;
    errors = s.errors;
    failures = s.failures;
  }

  open_locked-IsSafe : (now : ℕ) (cb : Breaker) → cb.cfg ≡ cfg → IsSafe cfg (open_locked now cb)
  unfolding open_locked persist
  open_locked-IsSafe now cb e = record {
    same_cfg = e;
    probes = ground arith;
    errors = λ h. absurd (ground arith);
    failures = λ h. absurd (ground arith);
  }

  close_locked-IsSafe : (cb : Breaker) → cb.cfg ≡ cfg → IsSafe cfg (close_locked cb)
  unfolding close_locked persist
  close_locked-IsSafe cb e = record {
    same_cfg = e;
    probes = ground (arith, ap (λ (c : Config). c.half_open_probe_quota) e);
    errors = λ h. positive_errors;
    failures = λ h. positive_failures;
  }

  consume_half_open-IsSafe : (cb : Breaker) → IsSafe cfg cb → IsSafe cfg (consume_half_open cb).1
  unfolding consume_half_open
  consume_half_open-IsSafe cb s = elim (Bool-cases (cb.half_open_remaining == 0)) [
    | inl e ↦ rw e s
    | inr e ↦ rw e (record {
      same_cfg = s.same_cfg;
      probes = ground (arith, s.probes);
      errors = s.errors;
      failures = s.failures;
    })
  ]

  transition_half_open-IsSafe : (cb : Breaker) → cb.cfg ≡ cfg → IsSafe cfg (transition_half_open cb)
  unfolding transition_half_open
  transition_half_open-IsSafe cb e = record {
    same_cfg = e;
    probes = ground (arith, ap (λ (c : Config). c.half_open_probe_quota) e);
    errors = λ h. absurd (ground arith);
    failures = λ h. absurd (ground arith);
  }

  sync_from_redis-IsSafe :
      (now : ℕ) (fetched : Option Snapshot) (cb : Breaker)
      → IsSafe cfg cb
      → IsSafe cfg (sync_from_redis now fetched cb)
  unfolding sync_from_redis
  sync_from_redis-IsSafe now none cb s = s
  sync_from_redis-IsSafe now (some snap) cb s =
      if-IsSafe cfg (is_open snap.state && ltb now snap.open_until) _ cb
        (λ h. record {
          same_cfg = s.same_cfg;
          probes = s.probes;
          errors = λ h. absurd (ground arith);
          failures = λ h. absurd (ground arith);
        })
        (λ h. s)

  allow_in-IsSafe :
      (st : State) (now : ℕ) (cb : Breaker) → IsSafe cfg cb → IsSafe cfg (allow_in st now cb).1
  allow_in-IsSafe state_closed now cb s = s
  allow_in-IsSafe state_half_open now cb s = consume_half_open-IsSafe cb s
  allow_in-IsSafe state_open now cb s = elim (Bool-cases (ltb now cb.open_until)) [
    | inl e ↦ rw e s
    | inr e ↦ rw e (
        consume_half_open-IsSafe (transition_half_open cb)
          (transition_half_open-IsSafe cb s.same_cfg))
  ]

  -- A change of the fields that the invariant reads only in the closed state.
  adjusted :
      (cb : Breaker) (window : List ℕ) (n : ℕ)
      → IsSafe cfg cb
      → (is_closed cb.state ≡ true → length window < cfg.error_count_to_open)
      → (is_closed cb.state ≡ true → n < cfg.db_failures_to_open)
      → IsSafe cfg (record cb { error_window = window; consecutive_db_fail = n })
  adjusted cb window n s h k = record {
    same_cfg = s.same_cfg;
    probes = s.probes;
    errors = h;
    failures = k;
  }

  record_http_err-IsSafe :
      (now : ℕ) (cb : Breaker) → IsSafe cfg cb → IsSafe cfg (record_http_err now cb)
  unfolding record_http_err
  record_http_err-IsSafe now cb s =
      let kept = keep (is_recent now cb.cfg) (cb.error_window ++ (now ∷ [])) in
      let noted = record cb { error_window = kept } in
      if-IsSafe cfg (is_closed cb.state && leb cb.cfg.error_count_to_open (length kept)) _ _
        (λ h. open_locked-IsSafe now noted s.same_cfg)
        (λ h.
          if-IsSafe cfg (is_half_open cb.state) _ _ (λ k. open_locked-IsSafe now noted s.same_cfg)
            (λ k.
              adjusted cb kept cb.consecutive_db_fail s
                (λ c. ground (arith, ap (λ (c : Config). c.error_count_to_open) s.same_cfg))
                s.failures))

  record_db_success-IsSafe : (cb : Breaker) → IsSafe cfg cb → IsSafe cfg (record_db_success cb)
  unfolding record_db_success
  record_db_success-IsSafe cb s = persist-IsSafe _ (
      if-IsSafe cfg (is_half_open cb.state) _ _
        (λ h. close_locked-IsSafe (record cb { consecutive_db_fail = 0 }) s.same_cfg)
        (λ h. adjusted cb cb.error_window 0 s s.errors (λ c. positive_failures)))

  record_db_failure-IsSafe :
      (now : ℕ) (cb : Breaker) → IsSafe cfg cb → IsSafe cfg (record_db_failure now cb)
  unfolding record_db_failure
  record_db_failure-IsSafe now cb s =
      let n = cb.consecutive_db_fail + 1 in
      let counted = record cb { consecutive_db_fail = n } in
      if-IsSafe cfg (is_closed cb.state && leb cb.cfg.db_failures_to_open n) _ _
        (λ h. open_locked-IsSafe now counted s.same_cfg)
        (λ h. persist-IsSafe _ (
          if-IsSafe cfg (is_half_open cb.state) _ _ (λ k. open_locked-IsSafe now counted s.same_cfg)
            (λ k.
              adjusted cb cb.error_window n s s.errors
                (λ c. ground (arith, ap (λ (c : Config). c.db_failures_to_open) s.same_cfg)))))

  step-IsSafe : (now : ℕ) (e : Event) (cb : Breaker) → IsSafe cfg cb → IsSafe cfg (step now e cb)
  unfolding step allow enter leave check_load_open record_http_success
  step-IsSafe now (asks fetched) cb s =
      allow_in-IsSafe (sync_from_redis now fetched cb).state now (sync_from_redis now fetched cb)
        (sync_from_redis-IsSafe now fetched cb s)
  step-IsSafe now enters cb s = record {
    same_cfg = s.same_cfg;
    probes = s.probes;
    errors = s.errors;
    failures = s.failures;
  }
  step-IsSafe now leaves cb s = record {
    same_cfg = s.same_cfg;
    probes = s.probes;
    errors = s.errors;
    failures = s.failures;
  }
  step-IsSafe now checks_load cb s =
      if-IsSafe cfg (leb cb.in_flight cb.cfg.max_in_flight) _ _ (λ h. s)
        (λ h.
          if-IsSafe cfg (is_closed cb.state) _ _ (λ k. open_locked-IsSafe now cb s.same_cfg)
            (λ k. s))
  step-IsSafe now fails cb s = record_http_err-IsSafe now cb s
  step-IsSafe now succeeds cb s =
      if-IsSafe cfg (is_half_open cb.state) _ _ (λ h. close_locked-IsSafe cb s.same_cfg) (λ h. s)
  step-IsSafe now probe_answers cb s = record_db_success-IsSafe cb s
  step-IsSafe now probe_fails cb s = record_db_failure-IsSafe now cb s

-- Every breaker that the steps lead to from a new one keeps the configuration it was built with,
-- never has more probes left than the quota, and while closed has fewer recent errors and fewer
-- failed probes in a row than the thresholds that open it.
pub Reachable-IsSafe :
    (raw : RawConfig) (cb : Breaker)
    → Reachable (new_circuit_breaker raw) cb
    → IsSafe (normalize_config raw) cb
Reachable-IsSafe raw _ begins = new_circuit_breaker-IsSafe raw
Reachable-IsSafe raw _ (steps {cb} now e r) =
    step-IsSafe (normalize_config raw)
      (unfold normalize_config in or_default-positive raw.error_count_to_open 50 (ground arith))
      (unfold normalize_config in or_default-positive raw.db_failures_to_open 3 (ground arith)) now
      e cb (Reachable-IsSafe raw cb r)
