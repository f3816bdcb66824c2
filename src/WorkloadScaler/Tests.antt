-- ===== src/WorkloadScaler/Tests.antt =====
-- A workload with both kinds of recommendation, and the theorems on it.
use katalyst.Prelude.{
  ℕ, String, ◌≡◌, refl, true, false, none, some, List, [], ◌∷◌, arith, any, keep, All, Any,
}
use katalyst.Prelude.GoMap.{GoMap, lookup, insert}
use katalyst.Prelude.Float64.{FloatText}
use katalyst.Prelude.Thousandths.{thousandths}
use katalyst.AiGate.{requires_validation}
use katalyst.State.CircuitBreaker.{CircuitBreaker, new_circuit_breaker}
use katalyst.WorkloadScaler.Horizontal.{
  Hpa, HorizontalScaler, HpaClient, missing_details, new_max, recommend_all,
}
use katalyst.WorkloadScaler.Bounds.{ideal_max, new_max-ideal_max, new_max-wrapped}
use katalyst.WorkloadScaler.Raise.{Raises, recommend_all-execute}
use katalyst.WorkloadScaler.Surge.{PodInfo, detect}
use katalyst.WorkloadScaler.Baselines.{belongs_to, observed, detect-observed}
use katalyst.WorkloadScaler.Controller.{
  Controller, horizontal_error, is_rejected, execute_round, tick,
}
use katalyst.WorkloadScaler.Round.{tick-inactive, detect-missing_details}
use katalyst.WorkloadScaler.Coordinator.{
  Recommendation, target_key, is_horizontal, is_vertical, add_to_target, group_by_target, defer,
  stage, resolve_target, resolve_all, resolve,
}
use katalyst.WorkloadScaler.Grouping.{targets}
use katalyst.WorkloadScaler.Conflicts.{scales_out, resolve-exclusive}

abbrev scaling : String → String → String → Recommendation
scaling id name kind = record {
  id = id;
  target_namespace = "shop";
  target_kind = "Deployment";
  target_name = name;
  auto_executable = true;
  details = ("scalingType", kind) ∷ [];
}

abbrev recommendations : List Recommendation
recommendations =
    scaling "1" "web" "horizontal"
    ∷ scaling "2" "db" "horizontal"
    ∷ scaling "3" "web" "vertical"
    ∷ []

resolved :
    resolve recommendations
    ≡ defer (scaling "1" "web" "horizontal")
      ∷ scaling "3" "web" "vertical"
      ∷ scaling "2" "db" "horizontal"
      ∷ []
unfolding resolve resolve_all resolve_target stage group_by_target add_to_target target_key
    is_vertical is_horizontal lookup insert
resolved = refl

web_has_vertical : any is_vertical (keep (targets "shop/Deployment/web") recommendations) ≡ true
unfolding is_vertical target_key lookup
web_has_vertical = refl

resolve-exclusive_example :
    any scales_out (keep (targets "shop/Deployment/web") (resolve recommendations)) ≡ false
resolve-exclusive_example = resolve-exclusive "shop/Deployment/web" recommendations web_has_vertical

-- From 7 replicas to 10, at most 9, and not at all when the limit is 2 ^ 31.
new_max-ideal_max_example : new_max 9 7 ≡ some 9
unfolding ideal_max
new_max-ideal_max_example = new_max-ideal_max 9 7 (omega arith) (omega arith)

new_max-wrapped_example : new_max 2147483648 7 ≡ none
new_max-wrapped_example = new_max-wrapped 2147483648 7 (omega arith) (omega arith) (omega arith)

-- A cluster that is the last maximum that was set.
abbrev hpas : HpaClient ℕ
hpas = record { list = λ c. some []; has = λ ns name c. true; patch = λ ns name n c. (n, true) }

abbrev scaler : HorizontalScaler
scaler = record { surge_detection = true; max_replicas_limit = 500; exclude_namespaces = [] }

abbrev web : Hpa
web = record {
  namespace = "shop";
  name = "web";
  target_kind = "Deployment";
  target_name = "web";
  current_replicas = 7;
  max_replicas = 7;
}

recommend_all-execute_example :
    All (λ r. Any (Raises hpas scaler 100 0 r) (web ∷ [])) (recommend_all scaler 100 (web ∷ []))
recommend_all-execute_example =
    recommend_all-execute hpas scaler 100 0 (web ∷ []) refl (omega arith)
      (((λ e. cc, λ e. cc), omega arith), tt)

abbrev text : FloatText thousandths
text = record { one_decimal = λ x. "x"; to_int64 = λ x. 0 }

abbrev pod : ℕ → PodInfo
pod usage = record {
  namespace = "shop";
  owner_kind = "Deployment";
  owner_name = "web";
  cpu_request = 200;
  cpu_usage = usage;
  memory_request = 0;
  memory_usage = 0;
}

abbrev threshold : thousandths.F
threshold = thousandths.of_nat 2

-- The baseline is 10 and two pods use 30: a surge.
abbrev baselines : GoMap thousandths.F
baselines = ("shop/Deployment/web", thousandths.of_nat 10) ∷ []

detect-observed_example :
    lookup "shop/Deployment/web"
      (detect thousandths text threshold 100 (pod 20 ∷ pod 10 ∷ []) baselines).0
    ≡ observed thousandths text threshold
        (lookup "shop/Deployment/web" baselines)
        (keep (belongs_to "shop/Deployment/web") (pod 20 ∷ pod 10 ∷ []))
detect-observed_example =
    detect-observed thousandths text threshold 100 "shop/Deployment/web" (pod 20 ∷ pod 10 ∷ [])
      baselines

abbrev controller : Controller thousandths ℕ
controller = record {
  vertical_enabled = true;
  horizontal_enabled = true;
  surge_threshold = threshold;
  horizontal = scaler;
  hpas = hpas;
  workloads = record {
    containers = λ kind ns name c. some ("main" ∷ []);
    patch = λ kind ns name patches c. (c, true);
  };
  parse_quantity = λ s. some s;
  gate = none;
  unmarshal = λ s r. (r, false);
}

abbrev breaker : CircuitBreaker thousandths
unfolding new_circuit_breaker
breaker = new_circuit_breaker thousandths (thousandths.of_nat 1) 100

tick-inactive_example :
    (tick thousandths text controller false
      (λ i. none)
      (λ i. 7)
      100
      5
      (pod 20 ∷ [])
      baselines
      (3, breaker)).1.0
    ≡ 3
tick-inactive_example =
    tick-inactive thousandths text controller (λ i. none) (λ i. 7) 100 5 (pod 20 ∷ []) baselines 3
      breaker

asked : is_rejected thousandths text controller none ≡ false
unfolding is_rejected requires_validation
asked = refl

detect-missing_details_example :
    All
      (λ r.
        execute_round thousandths text controller true none r 3
        ≡ (3, some (horizontal_error missing_details)))
      (detect thousandths text threshold 100 (pod 20 ∷ pod 10 ∷ []) baselines).1
detect-missing_details_example =
    detect-missing_details thousandths text controller none threshold 100 (pod 20 ∷ pod 10 ∷ [])
      baselines 3 asked
