-- ===== src/State/CircuitBreaker/Local.antt =====
-- The breaker as one machine for each controller: what a controller's calls do to its state, and
-- that the map of states behaves as independent copies of that machine.
use katalyst.Prelude.{
  ℕ, String, ◌≡◌, refl, inl, inr, List, [], ◌∷◌, arith, str_eq, eq_iff, if◌then◌else◌, Bool-cases,
  Option-cases,
}
use katalyst.Prelude.GoMap.{GoMap, lookup, insert, lookup-insert}
use katalyst.Prelude.Float64.{Float64}
use katalyst.State.CircuitBreaker.{
  ControllerState, or_fresh, succeed, fail, check, complete, trip_at, clear, CircuitBreaker, Call,
  record_successes, record_failures, is_trippeds, probe_completeds, trips, resets, is_tripped, step,
  run,
}

module _ (Fl : Float64) where
  open Fl use {F}

  -- One controller's machine.
  unfoldable pub local : F → ℕ → ℕ → ControllerState → ℕ × Call → ControllerState
  local threshold window cooldown s (now, record_successes) = succeed window now s
  local threshold window cooldown s (now, record_failures) = fail Fl threshold window now s
  local threshold window cooldown s (now, is_trippeds) = (check cooldown now s).0
  local threshold window cooldown s (now, probe_completeds) = complete s
  local threshold window cooldown s (now, trips) = trip_at now s
  local threshold window cooldown s (now, resets) = clear s

  unfoldable pub local_run : F → ℕ → ℕ → ControllerState → List (ℕ × Call) → ControllerState
  local_run threshold window cooldown s [] = s
  local_run threshold window cooldown s (c ∷ cs) =
      local_run threshold window cooldown (local threshold window cooldown s c) cs

  -- A controller's state; one that has none yet is as a new one.
  abbrev pub view : String → CircuitBreaker Fl → ControllerState
  view c cb = or_fresh (lookup c cb.states)

  -- The calls that name a controller.
  pub calls_of : String → List (String × ℕ × Call) → List (ℕ × Call)
  calls_of c [] = []
  calls_of c ((d, now, call) ∷ calls) =
      let rest = calls_of c calls in if str_eq d c then (now, call) ∷ rest else rest

  local_of : CircuitBreaker Fl → ControllerState → ℕ × Call → ControllerState
  local_of cb s call = local cb.threshold cb.window cb.cooldown s call

  view-insert :
      (c d : String) (s : ControllerState) (m : GoMap ControllerState)
      → or_fresh (lookup d (insert c s m)) ≡ (if str_eq c d then s else or_fresh (lookup d m))
  view-insert c d s m = ground (arith, lookup-insert c d s m)

  step-view :
      (cb : CircuitBreaker Fl) (c d : String) (now : ℕ) (call : Call)
      → view d (step Fl cb (c, now, call))
        ≡ (if str_eq c d then local_of cb (view c cb) (now, call) else view d cb)
  unfolding step local local_of check
  step-view cb c d now record_successes = view-insert c d _ cb.states
  step-view cb c d now record_failures = view-insert c d _ cb.states
  step-view cb c d now is_trippeds = elim (Option-cases (lookup c cb.states)) [
    | inl e ↦ ground (arith, eq_iff c d)
    | inr (x, e) ↦
        ground (arith, eq_iff c d, lookup-insert c d (check cb.cooldown now x).0 cb.states)
  ]
  step-view cb c d now probe_completeds = elim (Option-cases (lookup c cb.states)) [
    | inl e ↦ ground (arith, eq_iff c d)
    | inr (x, e) ↦ ground (arith, eq_iff c d, lookup-insert c d (complete x) cb.states)
  ]
  step-view cb c d now trips = view-insert c d _ cb.states
  step-view cb c d now resets = elim (Option-cases (lookup c cb.states)) [
    | inl e ↦ ground (arith, eq_iff c d)
    | inr (x, e) ↦ ground (arith, eq_iff c d, lookup-insert c d (clear x) cb.states)
  ]

  step-config :
      (cb : CircuitBreaker Fl) (call : String × ℕ × Call)
      → ((step Fl cb call).threshold ≡ cb.threshold)
        × ((step Fl cb call).window ≡ cb.window)
        × ((step Fl cb call).cooldown ≡ cb.cooldown)
  unfolding step
  step-config cb (c, now, record_successes) = (refl, refl, refl)
  step-config cb (c, now, record_failures) = (refl, refl, refl)
  step-config cb (c, now, is_trippeds) = ground arith
  step-config cb (c, now, probe_completeds) = ground arith
  step-config cb (c, now, trips) = (refl, refl, refl)
  step-config cb (c, now, resets) = ground arith

  -- Over any sequence of calls, by any controllers, the state of each controller is what its own
  -- machine reaches on its own calls alone: no controller trips, resets or probes another.
  pub run-view :
      (cb : CircuitBreaker Fl) (c : String) (calls : List (String × ℕ × Call))
      → view c (run Fl cb calls)
        ≡ local_run cb.threshold cb.window cb.cooldown (view c cb) (calls_of c calls)
  unfolding run local_run calls_of local_of
  run-view cb c [] = refl
  run-view cb c ((d, now, call) ∷ calls) =
      let ih = run-view (step Fl cb (d, now, call)) c calls in
      let config = step-config cb (d, now, call) in
      elim (Bool-cases (str_eq d c)) [
        | inl own ↦
            let e : d ≡ c = (eq_iff d c).0 own in
            rw (ih, config.0, config.1, config.2, step-view cb d c now call, own, e)
        | inr other ↦ rw (ih, config.0, config.1, config.2, step-view cb d c now call, other)
      ]

  -- `IsTripped` answers by the controller's own state.
  pub is_tripped-view :
      (cb : CircuitBreaker Fl) (c : String) (now : ℕ)
      → (is_tripped Fl c now cb).1 ≡ (check cb.cooldown now (view c cb)).1
  unfolding is_tripped check
  is_tripped-view cb c now = ground arith
