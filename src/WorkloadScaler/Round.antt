-- ===== src/WorkloadScaler/Round.antt =====
-- What a tick of the workload scaler does to the cluster, and the recommendations of the surge detector.
use katalyst.Prelude.{
  ℕ, suc, String, ◌≡◌, refl, inl, inr, true, false, Option, none, some, List, [], ◌∷◌, Bool-cases,
  All,
}
use katalyst.Prelude.Float64.{Float64, FloatText, of_int64}
use katalyst.Prelude.GoMap.{GoMap, lookup, insert}
use katalyst.State.CircuitBreaker.{CircuitBreaker, is_tripped}
use katalyst.WorkloadScaler.Coordinator.{Recommendation}
use katalyst.WorkloadScaler.Horizontal.{missing_details, execute}
use katalyst.WorkloadScaler.Surge.{
  PodInfo, WorkloadUsage, is_surge, next_baseline, baseline_or_zero, surge, detect_all, group_usage,
  detect,
}
use katalyst.WorkloadScaler.Controller.{
  horizontal_error, Controller, is_rejected, execute_round, breaker_name, record_result,
  execute_each, analyze_round, execute_all, tick,
}

module _ (Fl : Float64) (text : FloatText Fl) {C : Type 0} (ctl : Controller Fl C) where
  execute_each-inactive :
      (answers : ℕ → Option (List (List ℕ))) (times : ℕ → ℕ) (i : ℕ) (recs : List Recommendation)
      (c : C) (cb : CircuitBreaker Fl)
      → (execute_each Fl text ctl false answers times i recs (c, cb)).0 ≡ c
  unfolding execute_each execute_round
  execute_each-inactive answers times i [] c cb = refl
  execute_each-inactive answers times i (r ∷ recs) c cb =
      execute_each-inactive answers times (suc i) recs c
        (record_result Fl text ctl (times i) none cb)

  execute_all-inactive :
      (answers : ℕ → Option (List (List ℕ))) (times : ℕ → ℕ) (o : Option (List Recommendation))
      (c : C) (cb : CircuitBreaker Fl)
      → (execute_all Fl text ctl false answers times o (c, cb)).0 ≡ c
  execute_all-inactive answers times none c cb = refl
  execute_all-inactive answers times (some recs) c cb =
      execute_each-inactive answers times 0 recs c cb

  -- Unless the mode is active, a tick leaves the cluster as it is, whatever is found and whatever the
  -- gate answers.
  pub tick-inactive :
      (answers : ℕ → Option (List (List ℕ))) (times : ℕ → ℕ) (unix now : ℕ) (pods : List PodInfo)
      (baselines : GoMap Fl.F) (c : C) (cb : CircuitBreaker Fl)
      → (tick Fl text ctl false answers times unix now pods baselines (c, cb)).1.0 ≡ c
  unfolding tick
  tick-inactive answers times unix now pods baselines c cb =
      elim (Bool-cases (is_tripped Fl breaker_name now cb).1) [
        | inl y ↦ rw y
        | inr n ↦ rw n (
            execute_all-inactive answers times (analyze_round Fl text ctl unix pods baselines c).1 c
              (is_tripped Fl breaker_name now cb).0)
      ]

  surge-missing_details :
      (answer : Option (List (List ℕ))) (now : ℕ) (key : String) (w : WorkloadUsage) (b : Fl.F)
      (c : C)
      → is_rejected Fl text ctl answer ≡ false
      → execute_round Fl text ctl true answer (surge Fl text now key w b) c
        ≡ (c, some (horizontal_error missing_details))
  unfolding execute_round surge execute lookup
  surge-missing_details answer now key w b c h = rw h

  detect_all-missing_details :
      (answer : Option (List (List ℕ))) (threshold : Fl.F) (now : ℕ)
      (workloads : GoMap WorkloadUsage) (baselines : GoMap Fl.F) (c : C)
      → is_rejected Fl text ctl answer ≡ false
      → All
          (λ r.
            execute_round Fl text ctl true answer r c
            ≡ (c, some (horizontal_error missing_details)))
          (detect_all Fl text threshold now workloads baselines).1
  unfolding detect_all
  detect_all-missing_details answer threshold now [] baselines c h = tt
  detect_all-missing_details answer threshold now ((key, w) ∷ workloads) baselines c h =
      let current : Fl.F = of_int64 Fl w.total_cpu in
      let before : Option Fl.F = lookup key baselines in
      elim (Bool-cases (is_surge Fl text threshold before current)) [
        | inl y ↦ rw y (
          surge-missing_details answer now key w (baseline_or_zero Fl text before) c h,
          detect_all-missing_details answer threshold now workloads baselines c h,
        )
        | inr n ↦ rw n (
            detect_all-missing_details answer threshold now workloads
              (insert key (next_baseline Fl text before current) baselines) c h)
      ]

  -- In active mode, when the gate does not stop it, every recommendation of the surge detector fails to
  -- execute, for want of the name of an autoscaler, and the cluster stays as it is.
  pub detect-missing_details :
      (answer : Option (List (List ℕ))) (threshold : Fl.F) (now : ℕ) (pods : List PodInfo)
      (baselines : GoMap Fl.F) (c : C)
      → is_rejected Fl text ctl answer ≡ false
      → All
          (λ r.
            execute_round Fl text ctl true answer r c
            ≡ (c, some (horizontal_error missing_details)))
          (detect Fl text threshold now pods baselines).1
  unfolding detect
  detect-missing_details answer threshold now pods baselines c h =
      detect_all-missing_details answer threshold now (group_usage pods []) baselines c h
