-- ===== src/Resilience.antt =====
-- internal/shared/resilience/circuitbreaker.go: the circuit breaker, its configuration and its
-- mutex-guarded operations. Instants are nanoseconds, `float64` is its bits, the mutex makes each
-- operation one step. What Redis holds under the breaker's key, decoded, is an argument of the
-- operations that read it, and `published` lists what they write there, latest first; it is `none`
-- when Redis is unavailable, has no value or one that does not decode.
pub mod Safety
pub mod Cooldown
pub mod Configured
use be_mycourse.Shared.{
  ℕ, zero, suc, ◌+◌, ◌*◌, ◌-◌, ◌%◌, ◌^◌, Bool, true, false, ◌&&◌, ◌||◌, not, Option, none, some,
  List, [], ◌∷◌, ◌++◌, length, keep, if◌then◌else◌, leb, ltb, ◌==◌,
}
use be_mycourse.Shared.Int.{ℤ, pos, negsuc}

pub data State : Type 0 where
  state_closed state_open state_half_open : State

-- The thresholds before they are checked, as the YAML file gives them.
pub record RawConfig : Type 0 where
  pub db_probe_interval_sec : ℤ
  pub db_failures_to_open : ℤ
  pub max_in_flight : ℤ
  pub half_open_probe_quota : ℤ
  pub open_cooldown_sec : ℤ
  pub error_window_sec : ℤ
  pub error_count_to_open : ℤ
  pub degraded_attempts_factor : ℕ

pub record Config : Type 0 where
  pub db_probe_interval_sec : ℕ
  pub db_failures_to_open : ℕ
  pub max_in_flight : ℕ
  pub half_open_probe_quota : ℕ
  pub open_cooldown_sec : ℕ
  pub error_window_sec : ℕ
  pub error_count_to_open : ℕ
  pub degraded_attempts_factor : ℕ

-- The bits of 0.5 and of 1.0.
abbrev pub half_bits : ℕ
half_bits = 4602678819172646912

abbrev pub one_bits : ℕ
one_bits = 4607182418800017408

abbrev pub default_config : Config
default_config = record {
  db_probe_interval_sec = 5;
  db_failures_to_open = 3;
  max_in_flight = 200;
  half_open_probe_quota = 3;
  open_cooldown_sec = 30;
  error_window_sec = 60;
  error_count_to_open = 50;
  degraded_attempts_factor = half_bits;
}

-- `if v < 1 { v = d }`
unfoldable pub or_default : ℤ → ℕ → ℕ
or_default (pos n) d = if ltb n 1 then d else n
or_default (negsuc n) d = d

-- `x <= 0` and `x > 1` on the bits of a float64: both are false of a NaN.
abbrev pub is_nan : ℕ → Bool
is_nan b = ltb (2047 * 2 ^ 52) (b % 2 ^ 63)

abbrev pub is_not_positive : ℕ → Bool
is_not_positive b = not (is_nan b) && (leb (2 ^ 63) b || b == 0)

abbrev pub exceeds_one : ℕ → Bool
exceeds_one b = not (is_nan b) && ltb b (2 ^ 63) && ltb one_bits b

unfoldable pub normalize_config : RawConfig → Config
unfolding or_default
normalize_config cfg =
    let d = default_config in
    record {
      db_probe_interval_sec = or_default cfg.db_probe_interval_sec d.db_probe_interval_sec;
      db_failures_to_open = or_default cfg.db_failures_to_open d.db_failures_to_open;
      max_in_flight = or_default cfg.max_in_flight d.max_in_flight;
      half_open_probe_quota = or_default cfg.half_open_probe_quota d.half_open_probe_quota;
      open_cooldown_sec = or_default cfg.open_cooldown_sec d.open_cooldown_sec;
      error_window_sec = or_default cfg.error_window_sec d.error_window_sec;
      error_count_to_open = or_default cfg.error_count_to_open d.error_count_to_open;
      degraded_attempts_factor =
          if is_not_positive cfg.degraded_attempts_factor
            || exceeds_one cfg.degraded_attempts_factor
          then d.degraded_attempts_factor
          else cfg.degraded_attempts_factor;
    }

pub record Snapshot : Type 0 where
  pub state : State
  pub open_until : ℕ
  pub consecutive_db_fail : ℕ

-- `in_flight` is at least the number of requests whose end is still to come, so that it is never
-- lowered at 0.
pub record Breaker : Type 0 where
  pub state : State
  pub consecutive_db_fail : ℕ
  pub open_until : ℕ
  pub half_open_remaining : ℕ
  pub in_flight : ℕ
  pub error_window : List ℕ
  pub cfg : Config
  pub published : List Snapshot

unfoldable pub new_circuit_breaker : RawConfig → Breaker
unfolding normalize_config
new_circuit_breaker raw =
    let cfg = normalize_config raw in
    record {
      state = state_closed;
      consecutive_db_fail = 0;
      open_until = 0;
      half_open_remaining = cfg.half_open_probe_quota;
      in_flight = 0;
      error_window = [];
      cfg = cfg;
      published = [];
    }

-- `if v > 0 { cfg = v }`, from the default.
unfoldable pub if_positive : ℤ → ℕ → ℤ
if_positive (pos n) d = if ltb 0 n then pos n else pos d
if_positive (negsuc n) d = pos d

-- `ConfigureFromSettings`: the breaker that replaces the global one; `none` is a nil setting.
unfoldable pub configure_from_settings : Option RawConfig → Breaker
unfolding new_circuit_breaker if_positive
configure_from_settings none =
    let d = default_config in
    new_circuit_breaker (record {
      db_probe_interval_sec = pos d.db_probe_interval_sec;
      db_failures_to_open = pos d.db_failures_to_open;
      max_in_flight = pos d.max_in_flight;
      half_open_probe_quota = pos d.half_open_probe_quota;
      open_cooldown_sec = pos d.open_cooldown_sec;
      error_window_sec = pos d.error_window_sec;
      error_count_to_open = pos d.error_count_to_open;
      degraded_attempts_factor = d.degraded_attempts_factor;
    })
configure_from_settings (some s) =
    let d = default_config in
    new_circuit_breaker (record {
      db_probe_interval_sec = if_positive s.db_probe_interval_sec d.db_probe_interval_sec;
      db_failures_to_open = if_positive s.db_failures_to_open d.db_failures_to_open;
      max_in_flight = if_positive s.max_in_flight d.max_in_flight;
      half_open_probe_quota = if_positive s.half_open_probe_quota d.half_open_probe_quota;
      open_cooldown_sec = if_positive s.open_cooldown_sec d.open_cooldown_sec;
      error_window_sec = if_positive s.error_window_sec d.error_window_sec;
      error_count_to_open = if_positive s.error_count_to_open d.error_count_to_open;
      degraded_attempts_factor =
          if is_nan s.degraded_attempts_factor
            || (is_not_positive s.degraded_attempts_factor
                || exceeds_one s.degraded_attempts_factor)
          then d.degraded_attempts_factor
          else s.degraded_attempts_factor;
    })

abbrev pub is_closed : State → Bool
is_closed state_closed = true
is_closed state_open = false
is_closed state_half_open = false

abbrev pub is_half_open : State → Bool
is_half_open state_closed = false
is_half_open state_open = false
is_half_open state_half_open = true

abbrev pub is_open : State → Bool
is_open state_closed = false
is_open state_open = true
is_open state_half_open = false

abbrev pub nanoseconds : ℕ → ℕ
nanoseconds sec = sec * 1000000000

unfoldable pub persist : Breaker → Breaker
persist cb = record cb {
  published =
      record {
        state = cb.state;
        open_until = cb.open_until;
        consecutive_db_fail = cb.consecutive_db_fail;
      }
      ∷ cb.published;
}

unfoldable pub open_locked : ℕ → Breaker → Breaker
unfolding persist
open_locked now cb = persist (record cb {
  state = state_open;
  open_until = now + nanoseconds cb.cfg.open_cooldown_sec;
  half_open_remaining = 0;
})

unfoldable pub close_locked : Breaker → Breaker
unfolding persist
close_locked cb = persist (record cb {
  state = state_closed;
  consecutive_db_fail = 0;
  half_open_remaining = cb.cfg.half_open_probe_quota;
  error_window = [];
})

unfoldable pub sync_from_redis : ℕ → Option Snapshot → Breaker → Breaker
sync_from_redis now none cb = cb
sync_from_redis now (some snap) cb =
    if is_open snap.state && ltb now snap.open_until
    then record cb {
      state = state_open;
      open_until = snap.open_until;
      consecutive_db_fail = snap.consecutive_db_fail;
    }
    else cb

unfoldable pub consume_half_open : Breaker → Bool × Breaker
consume_half_open cb =
    if cb.half_open_remaining == 0
    then (false, cb)
    else (true, record cb { half_open_remaining = cb.half_open_remaining - 1 })

unfoldable pub transition_half_open : Breaker → Breaker
transition_half_open cb = record cb {
  state = state_half_open;
  half_open_remaining = cb.cfg.half_open_probe_quota;
}

abbrev allow_in : State → ℕ → Breaker → Bool × Breaker
allow_in state_closed now cb = (true, cb)
allow_in state_open now cb =
    if ltb now cb.open_until then (false, cb) else consume_half_open (transition_half_open cb)
allow_in state_half_open now cb = consume_half_open cb

unfoldable pub allow : ℕ → Option Snapshot → Breaker → Bool × Breaker
unfolding sync_from_redis consume_half_open transition_half_open
allow now fetched cb =
    let synced = sync_from_redis now fetched cb in allow_in synced.state now synced

unfoldable pub attempts_factor : Breaker → ℕ
attempts_factor cb = if is_half_open cb.state then cb.cfg.degraded_attempts_factor else one_bits

-- The atomic additions of `RecordRequestStart` and of the function that it returns.
unfoldable pub enter : Breaker → Breaker
enter cb = record cb { in_flight = cb.in_flight + 1 }

unfoldable pub leave : Breaker → Breaker
leave cb = record cb { in_flight = cb.in_flight - 1 }

unfoldable pub check_load_open : ℕ → Breaker → Breaker
unfolding open_locked
check_load_open now cb =
    if leb cb.in_flight cb.cfg.max_in_flight
    then cb
    else if is_closed cb.state
    then open_locked now cb
    else cb

-- `t.After(now - window)`, with the window on the other side.
abbrev pub is_recent : ℕ → Config → ℕ → Bool
is_recent now cfg t = ltb now (t + nanoseconds cfg.error_window_sec)

unfoldable pub record_http_err : ℕ → Breaker → Breaker
unfolding open_locked keep
record_http_err now cb =
    let kept = keep (is_recent now cb.cfg) (cb.error_window ++ (now ∷ [])) in
    let noted = record cb { error_window = kept } in
    if is_closed noted.state && leb cb.cfg.error_count_to_open (length kept)
    then open_locked now noted
    else if is_half_open noted.state
    then open_locked now noted
    else noted

unfoldable pub record_http_success : Breaker → Breaker
unfolding close_locked
record_http_success cb = if is_half_open cb.state then close_locked cb else cb

unfoldable pub record_db_success : Breaker → Breaker
unfolding close_locked persist
record_db_success cb =
    let reset = record cb { consecutive_db_fail = 0 } in
    persist (if is_half_open reset.state then close_locked reset else reset)

unfoldable pub record_db_failure : ℕ → Breaker → Breaker
unfolding open_locked persist
record_db_failure now cb =
    let counted = record cb { consecutive_db_fail = cb.consecutive_db_fail + 1 } in
    if is_closed counted.state && leb cb.cfg.db_failures_to_open counted.consecutive_db_fail
    then open_locked now counted
    else persist (if is_half_open counted.state then open_locked now counted else counted)

-- One step of the breaker at an instant. A request enters, checks the load, leaves and reports its
-- result; steps of other requests and of the database probe come between these.
pub data Event : Type 0 where
  asks : Option Snapshot → Event
  enters checks_load leaves fails succeeds probe_answers probe_fails : Event

unfoldable pub step : ℕ → Event → Breaker → Breaker
unfolding allow enter leave check_load_open record_http_err record_http_success record_db_success
    record_db_failure
step now (asks fetched) cb = (allow now fetched cb).1
step now enters cb = enter cb
step now checks_load cb = check_load_open now cb
step now leaves cb = leave cb
step now fails cb = record_http_err now cb
step now succeeds cb = record_http_success cb
step now probe_answers cb = record_db_success cb
step now probe_fails cb = record_db_failure now cb

-- The breakers that the steps lead to from a start.
pub data Reachable (start : Breaker) : Breaker → Type 0 where
  begins : Reachable start start
  steps :
      {cb : Breaker}
      → (now : ℕ) → (e : Event) → Reachable start cb
      → Reachable start (step now e cb)

-- The steps of a list, each with its instant, in order.
unfoldable pub run : List (ℕ × Event) → Breaker → Breaker
unfolding step
run [] cb = cb
run ((now, e) ∷ es) cb = run es (step now e cb)

-- How many of them are questions that `Allow` answers with true.
unfoldable pub admitted : List (ℕ × Event) → Breaker → ℕ
unfolding step allow
admitted [] cb = 0
admitted ((now, asks fetched) ∷ es) cb =
    let (answer, next) = allow now fetched cb in (if answer then 1 else 0) + admitted es next
admitted ((now, enters) ∷ es) cb = admitted es (step now enters cb)
admitted ((now, checks_load) ∷ es) cb = admitted es (step now checks_load cb)
admitted ((now, leaves) ∷ es) cb = admitted es (step now leaves cb)
admitted ((now, fails) ∷ es) cb = admitted es (step now fails cb)
admitted ((now, succeeds) ∷ es) cb = admitted es (step now succeeds cb)
admitted ((now, probe_answers) ∷ es) cb = admitted es (step now probe_answers cb)
admitted ((now, probe_fails) ∷ es) cb = admitted es (step now probe_fails cb)
