-- ===== src/State/CircuitBreaker/Probe.antt =====
-- The half-open state: one probe, and what its result does.
use katalyst.Prelude.{
  ℕ, ◌+◌, ◌≤◌, ◌<◌, ◌≡◌, refl, sym, subst, ◌↔◌, true, false, List, [], ◌∷◌, arith, All,
}
use katalyst.Prelude.Float64.{Float64}
use katalyst.State.CircuitBreaker.{
  ControllerState, succeed, fail, check, complete, trip_at, clear, Call, record_successes,
  record_failures, is_trippeds, probe_completeds, trips, resets, state_status, closed,
}
use katalyst.State.CircuitBreaker.Local.{local, local_run}

module _ (Fl : Float64) where
  open Fl use {F}

  -- Calls that bring no result of a probe: questions, and manual trips.
  abbrev pub NoResult : ℕ × Call → Type 0
  NoResult (now, is_trippeds) = Unit
  NoResult (now, trips) = Unit
  NoResult (now, _) = ⊥

  record IsProbing (s : ControllerState) : Type 0 where
    is_tripped : s.tripped ≡ true
    is_half_open : s.half_open ≡ true
    in_flight : s.in_flight_probe ≡ true

  local_run-IsProbing :
      (threshold : F) (window cooldown : ℕ) (s : ControllerState) (cs : List (ℕ × Call))
      → All NoResult cs
      → IsProbing s
      → IsProbing (local_run Fl threshold window cooldown s cs)
  unfolding local_run local check
  local_run-IsProbing threshold window cooldown s [] n p = p
  local_run-IsProbing threshold window cooldown s ((now, is_trippeds) ∷ cs) n p =
      local_run-IsProbing threshold window cooldown (check cooldown now s).0 cs n.1 (ground arith)
  local_run-IsProbing threshold window cooldown s ((now, trips) ∷ cs) n p =
      local_run-IsProbing threshold window cooldown (trip_at now s) cs n.1 (ground arith)
  local_run-IsProbing threshold window cooldown s ((now, record_successes) ∷ cs) n p = absurd n.0
  local_run-IsProbing threshold window cooldown s ((now, record_failures) ∷ cs) n p = absurd n.0
  local_run-IsProbing threshold window cooldown s ((now, probe_completeds) ∷ cs) n p = absurd n.0
  local_run-IsProbing threshold window cooldown s ((now, resets) ∷ cs) n p = absurd n.0

  -- Once the cooldown of a tripped breaker is over, `IsTripped` lets one caller through and then,
  -- until a result is recorded or the probe is completed or the breaker reset, answers true to
  -- every later call, however many there are and however late.
  pub check-one_probe :
      (threshold : F) (window cooldown now later : ℕ) (s : ControllerState) (cs : List (ℕ × Call))
      → s.tripped ≡ true
      → s.half_open ≡ false
      → s.tripped_at + cooldown ≤ now
      → All NoResult cs
      → ((check cooldown now s).1 ≡ false)
        × ((check cooldown later
              (local_run Fl threshold window cooldown (check cooldown now s).0 cs)).1
            ≡ true)
  unfolding check
  check-one_probe threshold window cooldown now later s cs t h over n =
      let probing =
        local_run-IsProbing threshold window cooldown (check cooldown now s).0 cs n
          (ground arith) in
      (ground arith, ground arith)

  -- A success in the half-open state closes the breaker and forgets the records; a failure there
  -- trips it again, and it blocks for a whole cooldown from then.
  pub probe_result :
      (threshold : F) (window cooldown now later : ℕ) (s : ControllerState)
      → s.half_open ≡ true
      → (state_status (succeed window now s) ≡ closed)
        × ((succeed window now s).successes ≡ [])
        × ((succeed window now s).failures ≡ [])
        × ((check cooldown later (succeed window now s)).1 ≡ false)
        × (((check cooldown later (fail Fl threshold window now s)).1 ≡ true)
            ↔ (later < now + cooldown))
  unfolding succeed fail check state_status
  probe_result threshold window cooldown now later s h =
      (ground arith, ground arith, ground arith, ground arith, ground arith)

  -- `Reset` leaves the half-open flag: after a reset in that state one failure trips the breaker,
  -- without the five records that a closed breaker needs.
  pub clear-half_open_trips :
      (threshold : F) (window now : ℕ) (s : ControllerState)
      → s.half_open ≡ true
      → ((clear s).tripped ≡ false) × ((fail Fl threshold window now (clear s)).tripped ≡ true)
  unfolding fail
  clear-half_open_trips threshold window now s h = (refl, ground arith)

  -- Once the probe is completed without a result, the half-open breaker lets every caller through,
  -- and not one at a time: the question does not mark a new probe as being in flight.
  pub complete-unlimited :
      (threshold : F) (window cooldown later : ℕ) (s : ControllerState) (cs : List (ℕ × Call))
      → s.tripped ≡ true
      → s.half_open ≡ true
      → All NoResult cs
      → (check cooldown later (local_run Fl threshold window cooldown (complete s) cs)).1 ≡ false
  unfolding local_run local check
  complete-unlimited threshold window cooldown later s [] t h n = ground arith
  complete-unlimited threshold window cooldown later s ((now, is_trippeds) ∷ cs) t h n =
      let stays : (check cooldown now (complete s)).0 ≡ complete s = ground arith in
      subst (λ u. (check cooldown later (local_run Fl threshold window cooldown u cs)).1 ≡ false)
        (sym stays) (complete-unlimited threshold window cooldown later s cs t h n.1)
  complete-unlimited threshold window cooldown later s ((now, trips) ∷ cs) t h n =
      complete-unlimited threshold window cooldown later (trip_at now s) cs refl h n.1
  complete-unlimited threshold window cooldown later s ((now, record_successes) ∷ cs) t h n =
      absurd n.0
  complete-unlimited threshold window cooldown later s ((now, record_failures) ∷ cs) t h n =
      absurd n.0
  complete-unlimited threshold window cooldown later s ((now, probe_completeds) ∷ cs) t h n =
      absurd n.0
  complete-unlimited threshold window cooldown later s ((now, resets) ∷ cs) t h n = absurd n.0
