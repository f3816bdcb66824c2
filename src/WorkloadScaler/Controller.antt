-- ===== src/WorkloadScaler/Controller.antt =====
-- internal/controller/workloadscaler/controller.go: what a round of the workload scaler does. The answer
-- of the AI gate's API is an argument for each recommendation, and so is the time at which each result
-- is recorded. The wiring, the logs and the ticker of `run` are left out.
use katalyst.Prelude.{
  ℕ, suc, String, Bool, true, false, not, Option, none, some, List, [], ◌∷◌, ◌++◌, str_eq,
  if◌then◌else◌,
}
use katalyst.Prelude.Float64.{Float64, FloatText}
use katalyst.Prelude.GoMap.{GoMap}
use katalyst.AiGate.{AiGate, Unmarshal, requires_validation, validate}
use katalyst.State.CircuitBreaker.{CircuitBreaker, record_success, record_failure, is_tripped}
use katalyst.WorkloadScaler.Coordinator.{Recommendation, scaling_type, resolve}
use katalyst.WorkloadScaler.Horizontal.{
  HorizontalScaler, HpaClient, HorizontalError, analyze, execute,
}
use katalyst.WorkloadScaler.Surge.{PodInfo, detect}
use katalyst.WorkloadScaler.Vertical.{VerticalError, WorkloadClient, analyze_pods, execute_vertical}

pub data ScalingError : Type 0 where
  horizontal_error : HorizontalError → ScalingError
  vertical_error : VerticalError → ScalingError

module _ {A B C : Type 0} where
  abbrev pub lift_error : (A → B) → C × Option A → C × Option B
  lift_error f (c, none) = (c, none)
  lift_error f (c, some e) = (c, some (f e))

-- What the controller and its scalers keep or are configured with.
pub record Controller (Fl : Float64) (C : Type 0) : Type 0 where
  pub vertical_enabled : Bool
  pub horizontal_enabled : Bool
  pub surge_threshold : Fl.F
  pub horizontal : HorizontalScaler
  pub hpas : HpaClient C
  pub workloads : WorkloadClient C
  pub parse_quantity : String → Option String
  pub gate : Option (AiGate Fl)
  pub unmarshal : Unmarshal Fl

abbrev pub breaker_name : String
breaker_name = "workload-scaler"

module _ (Fl : Float64) (text : FloatText Fl) {C : Type 0} (ctl : Controller Fl C) where
  abbrev pub surge_recommendations :
      ℕ → List PodInfo → GoMap Fl.F → GoMap Fl.F × List Recommendation
  surge_recommendations now pods baselines =
      if ctl.horizontal.surge_detection
      then detect Fl text ctl.surge_threshold now pods baselines
      else (baselines, [])

  abbrev pub vertical_recommendations : ℕ → List PodInfo → List Recommendation
  vertical_recommendations now pods =
      if ctl.vertical_enabled
      then analyze_pods Fl text ctl.horizontal.exclude_namespaces now pods
      else []

  abbrev pub horizontal_recommendations : ℕ → C → Option (List Recommendation)
  horizontal_recommendations now c =
      if ctl.horizontal_enabled then analyze ctl.hpas ctl.horizontal now c else some []

  -- `Analyze`: the baselines after it, and the recommendations, unless the client fails.
  unfoldable pub analyze_round :
      ℕ → List PodInfo → GoMap Fl.F → C → GoMap Fl.F × Option (List Recommendation)
  analyze_round now pods baselines c =
      let surges : GoMap Fl.F × List Recommendation = surge_recommendations now pods baselines in
      (
        surges.0,
        elim (horizontal_recommendations now c) [
          | none ↦ none
          | some hs ↦ some (resolve (surges.1 ++ vertical_recommendations now pods ++ hs))
        ],
      )

  -- Whether the gate is asked and does not approve.
  unfoldable pub is_rejected : Option (List (List ℕ)) → Bool
  is_rejected answer =
      if requires_validation Fl ctl.gate (record {
        monthly_cost_change_usd = Fl.of_nat 0;
        nodes_affected = 0;
        requires_ai_gate = false;
      })
      then (elim (validate Fl ctl.unmarshal answer ctl.gate) [
        | none ↦ true
        | some r ↦ not r.approved
      ])
      else false

  abbrev pub dispatch : Recommendation → C → C × Option ScalingError
  dispatch r c =
      if str_eq (scaling_type r) "horizontal"
      then lift_error horizontal_error (execute ctl.hpas r c)
      else if str_eq (scaling_type r) "vertical"
      then lift_error vertical_error (execute_vertical ctl.workloads ctl.parse_quantity r c)
      else (c, none)

  unfoldable pub execute_round :
      Bool → Option (List (List ℕ)) → Recommendation → C → C × Option ScalingError
  unfolding is_rejected
  execute_round active answer r c =
      if not active
      then (c, none)
      else if not r.auto_executable
      then (c, none)
      else if is_rejected answer
      then (c, none)
      else dispatch r c

  -- The loop over the recommendations, the i-th of which is answered and recorded as `answers i` and
  -- `times i` say.
  abbrev pub record_result : ℕ → Option ScalingError → CircuitBreaker Fl → CircuitBreaker Fl
  record_result now none cb = record_success Fl breaker_name now cb
  record_result now (some e) cb = record_failure Fl breaker_name now cb

  unfoldable pub execute_each :
      Bool
      → (ℕ → Option (List (List ℕ)))
      → (ℕ → ℕ)
      → ℕ
      → List Recommendation
      → C × CircuitBreaker Fl
      → C × CircuitBreaker Fl
  unfolding execute_round
  execute_each active answers times i [] (c, cb) = (c, cb)
  execute_each active answers times i (r ∷ recs) (c, cb) =
      let done : C × Option ScalingError = execute_round active (answers i) r c in
      execute_each active answers times (suc i) recs (done.0, record_result (times i) done.1 cb)

  abbrev pub execute_all :
      Bool
      → (ℕ → Option (List (List ℕ)))
      → (ℕ → ℕ)
      → Option (List Recommendation)
      → C × CircuitBreaker Fl
      → C × CircuitBreaker Fl
  execute_all active answers times none (c, cb) = (c, record_failure Fl breaker_name (times 0) cb)
  execute_all active answers times (some recs) (c, cb) =
      execute_each active answers times 0 recs (c, cb)

  -- One tick of `run`; `unix` is the time in seconds and `now` in nanoseconds.
  unfoldable pub tick :
      Bool
      → (ℕ → Option (List (List ℕ)))
      → (ℕ → ℕ)
      → ℕ
      → ℕ
      → List PodInfo
      → GoMap Fl.F
      → C × CircuitBreaker Fl
      → GoMap Fl.F × (C × CircuitBreaker Fl)
  unfolding analyze_round execute_each
  tick active answers times unix now pods baselines (c, cb) =
      let checked : CircuitBreaker Fl × Bool = is_tripped Fl breaker_name now cb in
      if checked.1
      then (baselines, (c, checked.0))
      else let analyzed : GoMap Fl.F × Option (List Recommendation) =
          analyze_round unix pods baselines c in
        (analyzed.0, execute_all active answers times analyzed.1 (c, checked.0))
