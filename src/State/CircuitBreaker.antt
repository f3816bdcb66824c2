-- ===== src/State/CircuitBreaker.antt =====
-- internal/state/circuitbreaker.go. Every method runs under the mutex, so a method is one step.
-- Instants are in nanoseconds and `time.Now()` is the argument `now`; a duration is the number of
-- its nanoseconds. `time.Since(t) >= d` is `t + d ≤ now`, and `t.After(now - w)` is `now < t + w`.
-- The floating-point numbers are a parameter. Histories hold fewer than 2 ^ 53 entries, so that
-- `float64(len(...))` is `of_nat`. `Status`, which formats the state as text, gives the state only.
pub mod Prune
pub mod Local
pub mod Probe
pub mod Trip
mod Tests
use katalyst.Prelude.{
  ℕ, zero, suc, ◌+◌, ◌-◌, ◌*◌, ◌/◌, ◌%◌, ◌^◌, ◌≤◌, ◌<◌, String, ◌≡◌, refl, sym, ap, ◌∙◌, subst, ◌≢◌,
  ◌↔◌, ◌⊎◌, inl, inr, Bool, true, false, ◌&&◌, ◌||◌, not, Option, none, some, List, [], ◌∷◌, ◌++◌,
  map, reverse, arith, str_eq, eq_iff, ltb, leb, ◌==◌, if◌then◌else◌, ltb→lt, lt→ltb, leb→le,
  le→leb, ==_iff, tests, Bool-cases, Option-cases, is_some, &&_iff, not_iff, length, take, drop,
  get_elem?, set, all, any, keep, length-append, length-keep-le, length-take, length-drop, All, Any,
  all_iff, any_iff,
}
use katalyst.Prelude.GoMap.{GoMap, lookup, insert}
use katalyst.Prelude.Float64.{Float64}
use katalyst.Prelude.Words.{lt64}
use Prune.{prune_older_than}

pub record ControllerState : Type 0 where
  pub successes : List ℕ
  pub failures : List ℕ
  pub tripped : Bool
  pub tripped_at : ℕ
  pub half_open : Bool
  pub in_flight_probe : Bool

-- `&controllerState{}`. The zero `time.Time` is never read before `trippedAt` is set.
abbrev pub fresh : ControllerState
fresh = record {
  successes = [];
  failures = [];
  tripped = false;
  tripped_at = 0;
  half_open = false;
  in_flight_probe = false;
}

-- What `Status` tells, without its text.
pub data Status : Type 0 where
  closed : Status
  half_open_since tripped_since : ℕ → Status

-- `pruneUnlocked`.
abbrev pub prune : ℕ → ℕ → ControllerState → ControllerState
prune window now s = record s {
  successes = prune_older_than window now s.successes;
  failures = prune_older_than window now s.failures;
}

-- The body of `RecordSuccess` on the controller's state.
unfoldable pub succeed : ℕ → ℕ → ControllerState → ControllerState
succeed window now s =
    let t = prune window now (record s { successes = s.successes ++ now ∷ [] }) in
    if t.half_open
    then record t { tripped = false; half_open = false; successes = []; failures = [] }
    else t

-- The body of `IsTripped` on the controller's state.
unfoldable pub check : ℕ → ℕ → ControllerState → ControllerState × Bool
check cooldown now s =
    if not s.tripped
    then (s, false)
    else if not s.half_open && leb (s.tripped_at + cooldown) now
    then (record s { half_open = true; in_flight_probe = true }, false)
    else if s.half_open
    then (if s.in_flight_probe then (s, true) else (s, false))
    else (s, true)

abbrev pub complete : ControllerState → ControllerState
complete s = record s { in_flight_probe = false }

abbrev pub trip_at : ℕ → ControllerState → ControllerState
trip_at now s = record s { tripped = true; tripped_at = now }

abbrev pub clear : ControllerState → ControllerState
clear s = record s { tripped = false; successes = []; failures = [] }

unfoldable pub state_status : ControllerState → Status
state_status s =
    if s.half_open
    then half_open_since s.tripped_at
    else if s.tripped
    then tripped_since s.tripped_at
    else closed

-- `getOrCreate`: the state of a controller that has none yet is a new one.
abbrev pub or_fresh : Option ControllerState → ControllerState
or_fresh none = fresh
or_fresh (some s) = s

pub data Call : Type 0 where
  record_successes record_failures is_trippeds probe_completeds trips resets : Call

module _ (Fl : Float64) where
  open Fl use {F, of_nat, div, ltb as ltb_f, leb as leb_f}

  pub record CircuitBreaker : Type 0 where
    pub threshold : F
    pub window : ℕ
    pub cooldown : ℕ
    pub states : GoMap ControllerState

  -- `window` is an `int64`; five minutes in nanoseconds replace one that is not positive, and 0.5
  -- a threshold outside (0, 1].
  unfoldable pub new_circuit_breaker : F → ℕ → CircuitBreaker
  new_circuit_breaker threshold window =
      let w = if lt64 0 window then window else 300000000000 in
      record {
        threshold =
            if leb_f threshold (of_nat 0) || ltb_f (of_nat 1) threshold
            then div (of_nat 1) (of_nat 2)
            else threshold;
        window = w;
        cooldown = w;
        states = [];
      }

  -- `errorRate >= cb.threshold`, on at least five data points.
  abbrev pub rate_exceeded : F → ControllerState → Bool
  rate_exceeded threshold s =
      let total = length s.successes + length s.failures in
      leb 5 total && leb_f threshold (div (of_nat (length s.failures)) (of_nat total))

  -- The body of `RecordFailure` on the controller's state.
  unfoldable pub fail : F → ℕ → ℕ → ControllerState → ControllerState
  fail threshold window now s =
      let t = record s { failures = s.failures ++ now ∷ [] } in
      let u = prune window now t in
      if t.half_open
      then record t { half_open = false; tripped = true; tripped_at = now }
      else if rate_exceeded threshold u && not u.tripped
      then trip_at now u
      else u

  unfoldable pub record_success : String → ℕ → CircuitBreaker → CircuitBreaker
  record_success c now cb =
      let s = or_fresh (lookup c cb.states) in
      record cb { states = insert c (succeed cb.window now s) cb.states }

  unfoldable pub record_failure : String → ℕ → CircuitBreaker → CircuitBreaker
  record_failure c now cb =
      let s = or_fresh (lookup c cb.states) in
      record cb { states = insert c (fail cb.threshold cb.window now s) cb.states }

  unfoldable pub is_tripped : String → ℕ → CircuitBreaker → CircuitBreaker × Bool
  is_tripped c now cb = elim (lookup c cb.states) [
    | none ↦ (cb, false)
    | some s ↦
        let (t, answer) = check cb.cooldown now s in
        (record cb { states = insert c t cb.states }, answer)
  ]

  unfoldable pub probe_completed : String → CircuitBreaker → CircuitBreaker
  probe_completed c cb = elim (lookup c cb.states) [
    | none ↦ cb
    | some s ↦ record cb { states = insert c (complete s) cb.states }
  ]

  unfoldable pub trip : String → ℕ → CircuitBreaker → CircuitBreaker
  trip c now cb = record cb {
    states = insert c (trip_at now (or_fresh (lookup c cb.states))) cb.states;
  }

  unfoldable pub reset : String → CircuitBreaker → CircuitBreaker
  reset c cb = elim (lookup c cb.states) [
    | none ↦ cb
    | some s ↦ record cb { states = insert c (clear s) cb.states }
  ]

  unfoldable pub status : String → CircuitBreaker → Status
  status c cb = elim (lookup c cb.states) [ none ↦ closed | some s ↦ state_status s ]

  unfoldable pub step : CircuitBreaker → String × ℕ × Call → CircuitBreaker
  unfolding record_success record_failure is_tripped probe_completed trip reset
  step cb (c, now, record_successes) = record_success c now cb
  step cb (c, now, record_failures) = record_failure c now cb
  step cb (c, now, is_trippeds) = (is_tripped c now cb).0
  step cb (c, now, probe_completeds) = probe_completed c cb
  step cb (c, now, trips) = trip c now cb
  step cb (c, now, resets) = reset c cb

  unfoldable pub run : CircuitBreaker → List (String × ℕ × Call) → CircuitBreaker
  unfolding step
  run cb [] = cb
  run cb (call ∷ calls) = run (step cb call) calls
