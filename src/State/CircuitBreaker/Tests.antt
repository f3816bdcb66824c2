-- ===== src/State/CircuitBreaker/Tests.antt =====
-- Runs of the circuit breaker, and the theorems at concrete inputs.
use katalyst.Prelude.{ℕ, ◌+◌, ◌<◌, String, ◌≡◌, refl, ◌↔◌, true, false, List, [], ◌∷◌, ◌++◌, arith}
use katalyst.Prelude.GoMap.{lookup, insert}
use katalyst.Prelude.Thousandths.{thousandths, plus}
use katalyst.State.CircuitBreaker.{
  ControllerState, fresh, succeed, fail, check, clear, Call, record_successes, record_failures,
  is_trippeds, state_status, closed, CircuitBreaker, new_circuit_breaker, run, status,
  tripped_since, half_open_since,
}
use katalyst.State.CircuitBreaker.Prune.{prune_older_than}
use katalyst.State.CircuitBreaker.Local.{local_run, view, calls_of, run-view}
use katalyst.State.CircuitBreaker.Trip.{cooldown-check}
use katalyst.State.CircuitBreaker.Probe.{check-one_probe, probe_result, clear-half_open_trips}

-- A breaker with threshold 0.5 and a window of 100.
abbrev breaker : CircuitBreaker thousandths
breaker = record { threshold = plus 500; window = 100; cooldown = 100; states = [] }

abbrev five_failures : List (String × ℕ × Call)
five_failures =
    ("gpu", 1, record_failures)
    ∷ ("spot", 2, record_successes)
    ∷ ("gpu", 3, record_failures)
    ∷ ("gpu", 4, record_failures)
    ∷ ("gpu", 5, record_failures)
    ∷ ("gpu", 6, record_failures)
    ∷ []

five_failures_trip :
    status thousandths "gpu" (run thousandths breaker five_failures) ≡ tripped_since 6
unfolding run status state_status lookup insert fail succeed prune_older_than
five_failures_trip = refl

after_cooldown :
    status thousandths "gpu"
      (run thousandths breaker (five_failures ++ ("gpu", 106, is_trippeds) ∷ []))
    ≡ half_open_since 6
unfolding run status state_status lookup insert fail succeed check prune_older_than
after_cooldown = refl

defaults : (new_circuit_breaker thousandths (plus 1001) 0).threshold ≡ plus 500
unfolding new_circuit_breaker
defaults = refl

-- Tripped at time 6 and no longer closed, before and in its half-open state.
abbrev tripped_state : ControllerState
tripped_state = record fresh { tripped = true; tripped_at = 6; failures = 1 ∷ 3 ∷ [] }

abbrev probing_state : ControllerState
probing_state = record tripped_state { half_open = true; in_flight_probe = true }

abbrev four_failures : List (ℕ × Call)
four_failures =
    (1, record_failures)
    ∷ (2, record_failures)
    ∷ (3, record_failures)
    ∷ (3, is_trippeds)
    ∷ (4, record_failures)
    ∷ []

run-view_example :
    view thousandths "gpu" (run thousandths breaker five_failures)
    ≡ local_run thousandths
        (plus 500)
        100
        100
        (view thousandths "gpu" breaker)
        (calls_of thousandths "gpu" five_failures)
run-view_example = run-view thousandths breaker "gpu" five_failures

cooldown-check_example :
    (check 100 105 (
      local_run thousandths
        (plus 500)
        100
        100
        tripped_state
        ((50, record_successes) ∷ (105, is_trippeds) ∷ []))).1
    ≡ true
cooldown-check_example =
    cooldown-check thousandths (plus 500) 100 100 105 tripped_state
      ((50, record_successes) ∷ (105, is_trippeds) ∷ []) refl refl (omega arith) (omega arith)

check-one_probe_example :
    ((check 100 106 tripped_state).1 ≡ false)
    × ((check 100 999 (
          local_run thousandths
            (plus 500)
            100
            100
            (check 100 106 tripped_state).0
            ((107, is_trippeds) ∷ []))).1
        ≡ true)
check-one_probe_example =
    check-one_probe thousandths (plus 500) 100 100 106 999 tripped_state ((107, is_trippeds) ∷ [])
      refl refl (omega arith) (tt, tt)

probe_result_example :
    (state_status (succeed 100 110 probing_state) ≡ closed)
    × ((succeed 100 110 probing_state).successes ≡ [])
    × ((succeed 100 110 probing_state).failures ≡ [])
    × ((check 100 111 (succeed 100 110 probing_state)).1 ≡ false)
    × (((check 100 111 (fail thousandths (plus 500) 100 110 probing_state)).1 ≡ true)
        ↔ (111 < 110 + 100))
probe_result_example = probe_result thousandths (plus 500) 100 100 110 111 probing_state refl

clear-half_open_trips_example :
    ((clear probing_state).tripped ≡ false)
    × ((fail thousandths (plus 500) 100 120 (clear probing_state)).tripped ≡ true)
clear-half_open_trips_example =
    clear-half_open_trips thousandths (plus 500) 100 120 probing_state refl
