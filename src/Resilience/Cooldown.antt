-- ===== src/Resilience/Cooldown.antt =====
-- What the breaker admits while it is open, and while it probes.
use be_mycourse.Shared.{
  ℕ, ◌≡◌, refl, sym, subst, ◌≤◌, ◌<◌, ◌+◌, ◌-◌, Bool, true, false, ◌&&◌, Option, none, some, List,
  [], ◌∷◌, ltb, ◌==◌, arith, Bool-cases, inl, inr,
}
use be_mycourse.Shared.Every.{All}
use be_mycourse.Resilience.{
  state_closed, state_open, state_half_open, Snapshot, Breaker, Event, asks, enters, checks_load,
  leaves, fails, succeeds, probe_answers, probe_fails, is_open, sync_from_redis, allow, allow_in,
  step, run, admitted, persist, close_locked, consume_half_open, transition_half_open, enter, leave,
  check_load_open, record_http_err, record_http_success, record_db_success, record_db_failure,
}

-- Open, at least until the instant.
pub record IsOpenUntil (limit : ℕ) (cb : Breaker) : Type 0 where
  pub opened : cb.state ≡ state_open
  pub lasting : limit ≤ cb.open_until

abbrev IsLasting : ℕ → Event → Type 0
IsLasting limit (asks none) = Unit {0}
IsLasting limit (asks (some snap)) = limit ≤ snap.open_until
IsLasting limit enters = Unit {0}
IsLasting limit checks_load = Unit {0}
IsLasting limit leaves = Unit {0}
IsLasting limit fails = Unit {0}
IsLasting limit succeeds = Unit {0}
IsLasting limit probe_answers = Unit {0}
IsLasting limit probe_fails = Unit {0}

-- The event is before the instant, and what Redis says then lasts until the instant.
abbrev pub IsBefore : ℕ → ℕ × Event → Type 0
IsBefore limit (now, e) = (now < limit) × IsLasting limit e

sync_from_redis-IsOpenUntil :
    (limit now : ℕ) (fetched : Option Snapshot) (cb : Breaker)
    → IsBefore limit (now, asks fetched)
    → IsOpenUntil limit cb
    → IsOpenUntil limit (sync_from_redis now fetched cb)
unfolding sync_from_redis
sync_from_redis-IsOpenUntil limit now none cb b o = o
sync_from_redis-IsOpenUntil limit now (some snap) cb b o =
    elim (Bool-cases (is_open snap.state && ltb now snap.open_until)) [
      | inl e ↦ rw e (record { opened = refl; lasting = b.1 })
      | inr e ↦ rw e o
    ]

allow-refuses :
    (limit now : ℕ) (fetched : Option Snapshot) (cb : Breaker)
    → IsBefore limit (now, asks fetched)
    → IsOpenUntil limit cb
    → allow now fetched cb ≡ (false, sync_from_redis now fetched cb)
unfolding allow
allow-refuses limit now fetched cb b o =
    let synced = sync_from_redis-IsOpenUntil limit now fetched cb b o in
    rw (synced.opened, allow_in) (ground (arith, synced.lasting, b.0))

step-IsOpenUntil :
    (limit now : ℕ) (e : Event) (cb : Breaker)
    → IsBefore limit (now, e)
    → IsOpenUntil limit cb
    → IsOpenUntil limit (step now e cb)
unfolding step enter leave check_load_open record_http_err record_http_success record_db_success
    record_db_failure persist
step-IsOpenUntil limit now (asks fetched) cb b o =
    subst (λ (x : Bool × Breaker). IsOpenUntil limit x.1)
      (sym (allow-refuses limit now fetched cb b o))
      (sync_from_redis-IsOpenUntil limit now fetched cb b o)
step-IsOpenUntil limit now enters cb b o = record { opened = o.opened; lasting = o.lasting }
step-IsOpenUntil limit now leaves cb b o = record { opened = o.opened; lasting = o.lasting }
step-IsOpenUntil limit now checks_load cb b o = record {
  opened = ground arith;
  lasting = ground arith;
}
step-IsOpenUntil limit now fails cb b o = record { opened = ground arith; lasting = ground arith }
step-IsOpenUntil limit now succeeds cb b o = record {
  opened = ground arith;
  lasting = ground arith;
}
step-IsOpenUntil limit now probe_answers cb b o = record {
  opened = ground arith;
  lasting = ground arith;
}
step-IsOpenUntil limit now probe_fails cb b o = record {
  opened = ground arith;
  lasting = ground arith;
}

-- While the breaker is open, and what Redis holds says so too, nothing is admitted before the
-- cooldown ends, whatever else happens, and the breaker is still open.
pub admitted_cooldown :
    (limit : ℕ) (es : List (ℕ × Event)) (cb : Breaker)
    → IsOpenUntil limit cb
    → All (IsBefore limit) es
    → (admitted es cb ≡ 0) × IsOpenUntil limit (run es cb)
unfolding admitted run
admitted_cooldown limit [] cb o b = (refl, o)
admitted_cooldown limit ((now, asks fetched) ∷ es) cb o b =
    let (nothing, still) =
      admitted_cooldown limit es (allow now fetched cb).1
        (unfold step in step-IsOpenUntil limit now (asks fetched) cb b.0 o) b.1 in
    (ground (arith, allow-refuses limit now fetched cb b.0 o), unfold step in still)
admitted_cooldown limit ((now, enters) ∷ es) cb o b =
    admitted_cooldown limit es (step now enters cb) (step-IsOpenUntil limit now enters cb b.0 o) b.1
admitted_cooldown limit ((now, checks_load) ∷ es) cb o b =
    admitted_cooldown limit es (step now checks_load cb)
      (step-IsOpenUntil limit now checks_load cb b.0 o) b.1
admitted_cooldown limit ((now, leaves) ∷ es) cb o b =
    admitted_cooldown limit es (step now leaves cb) (step-IsOpenUntil limit now leaves cb b.0 o) b.1
admitted_cooldown limit ((now, fails) ∷ es) cb o b =
    admitted_cooldown limit es (step now fails cb) (step-IsOpenUntil limit now fails cb b.0 o) b.1
admitted_cooldown limit ((now, succeeds) ∷ es) cb o b =
    admitted_cooldown limit es (step now succeeds cb) (step-IsOpenUntil limit now succeeds cb b.0 o)
      b.1
admitted_cooldown limit ((now, probe_answers) ∷ es) cb o b =
    admitted_cooldown limit es (step now probe_answers cb)
      (step-IsOpenUntil limit now probe_answers cb b.0 o) b.1
admitted_cooldown limit ((now, probe_fails) ∷ es) cb o b =
    admitted_cooldown limit es (step now probe_fails cb)
      (step-IsOpenUntil limit now probe_fails cb b.0 o) b.1

-- No result comes back, and Redis says nothing.
abbrev IsQuiet : ℕ × Event → Type 0
IsQuiet (now, asks none) = Unit {0}
IsQuiet (now, asks (some snap)) = ⊥
IsQuiet (now, enters) = Unit {0}
IsQuiet (now, checks_load) = Unit {0}
IsQuiet (now, leaves) = Unit {0}
IsQuiet (now, fails) = ⊥
IsQuiet (now, succeeds) = ⊥
IsQuiet (now, probe_answers) = ⊥
IsQuiet (now, probe_fails) = ⊥

-- While the breaker is half open, and until a result or a probe comes back or Redis holds a
-- snapshot, each admitted question uses up one of the probes left.
pub admitted_half_open :
    (es : List (ℕ × Event)) (cb : Breaker)
    → cb.state ≡ state_half_open
    → All IsQuiet es
    → admitted es cb + (run es cb).half_open_remaining ≡ cb.half_open_remaining
unfolding admitted run step allow sync_from_redis consume_half_open enter leave check_load_open
admitted_half_open [] cb h q = ground arith
admitted_half_open ((now, asks none) ∷ es) cb h q =
    elim (Bool-cases (cb.half_open_remaining == 0)) [
      | inl e ↦ ground (arith, admitted_half_open es cb h q.1)
      | inr e ↦ ground (
        arith,
        admitted_half_open es (record cb { half_open_remaining = cb.half_open_remaining - 1 }) h
            q.1,
      )
    ]
admitted_half_open ((now, asks (some snap)) ∷ es) cb h q = absurd q.0
admitted_half_open ((now, enters) ∷ es) cb h q = admitted_half_open es (enter cb) h q.1
admitted_half_open ((now, leaves) ∷ es) cb h q = admitted_half_open es (leave cb) h q.1
admitted_half_open ((now, checks_load) ∷ es) cb h q = ground (arith, admitted_half_open es cb h q.1)
admitted_half_open ((now, fails) ∷ es) cb h q = absurd q.0
admitted_half_open ((now, succeeds) ∷ es) cb h q = absurd q.0
admitted_half_open ((now, probe_answers) ∷ es) cb h q = absurd q.0
admitted_half_open ((now, probe_fails) ∷ es) cb h q = absurd q.0

-- Once the cooldown has ended, and unless Redis holds a snapshot, a breaker whose quota is positive
-- admits the next question and probes; if that request succeeds the breaker is closed.
pub allow_recovers :
    (now : ℕ) (cb : Breaker)
    → cb.state ≡ state_open
    → cb.open_until ≤ now
    → 0 < cb.cfg.half_open_probe_quota
    → ((allow now none cb).0 ≡ true)
      × ((allow now none cb).1.state ≡ state_half_open)
      × ((record_http_success (allow now none cb).1).state ≡ state_closed)
unfolding allow sync_from_redis consume_half_open transition_half_open record_http_success
    close_locked persist
allow_recovers now cb o d q = rw (o, allow_in) (ground arith, ground arith, ground arith)
