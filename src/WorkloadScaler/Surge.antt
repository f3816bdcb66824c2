-- ===== src/WorkloadScaler/Surge.antt =====
-- internal/controller/workloadscaler/surge.go. What the texts of the details take of `fmt` on floats is
-- a parameter. Go leaves the order of a map open; the workloads come here in the order in which
-- their pods first appear.
use katalyst.Prelude.{
  ℕ, String, Bool, true, false, ◌&&◌, Option, none, some, List, [], ◌∷◌, str_eq, if◌then◌else◌,
}
use Prim.Native.String.{◌++◌ as str_append}
use katalyst.Prelude.Float64.{Float64, FloatText, of_int64}
use katalyst.Prelude.GoMap.{GoMap, lookup, insert}
use katalyst.Prelude.Words.{add64}
use katalyst.Prelude.Itoa.{itoa, print_int64}
use katalyst.WorkloadScaler.Coordinator.{Recommendation}

-- What the workload scaler reads of a `PodInfo`.
pub record PodInfo : Type 0 where
  pub namespace : String
  pub owner_kind : String
  pub owner_name : String
  pub cpu_request : ℕ
  pub cpu_usage : ℕ
  pub memory_request : ℕ
  pub memory_usage : ℕ

pub record WorkloadUsage : Type 0 where
  pub namespace : String
  pub kind : String
  pub name : String
  pub total_cpu : ℕ
  pub pods : ℕ

unfoldable pub workload_key : PodInfo → String
workload_key p =
    str_append p.namespace (str_append "/" (str_append p.owner_kind (str_append "/" p.owner_name)))

abbrev pub usage_or_new : PodInfo → Option WorkloadUsage → WorkloadUsage
usage_or_new p none = record {
  namespace = p.namespace;
  kind = p.owner_kind;
  name = p.owner_name;
  total_cpu = 0;
  pods = 0;
}
usage_or_new p (some w) = w

abbrev pub add_usage : PodInfo → WorkloadUsage → WorkloadUsage
add_usage p w = record w { total_cpu = add64 w.total_cpu p.cpu_usage; pods = add64 w.pods 1 }

abbrev pub add_pod : PodInfo → GoMap WorkloadUsage → GoMap WorkloadUsage
add_pod p workloads =
    insert (workload_key p) (add_usage p (usage_or_new p (lookup (workload_key p) workloads)))
      workloads

-- The first loop; a pod without an owner does not count.
unfoldable pub group_usage : List PodInfo → GoMap WorkloadUsage → GoMap WorkloadUsage
unfolding workload_key
group_usage [] workloads = workloads
group_usage (p ∷ pods) workloads =
    group_usage pods (if str_eq p.owner_name "" then workloads else add_pod p workloads)

module _ (Fl : Float64) (text : FloatText Fl) where
  -- `existing*0.9 + currentUsage*0.1`
  abbrev pub average : Fl.F → Fl.F → Fl.F
  average existing current =
      Fl.add (Fl.mul existing (Fl.div (Fl.of_nat 9) (Fl.of_nat 10)))
        (Fl.mul current (Fl.div (Fl.of_nat 1) (Fl.of_nat 10)))

  abbrev pub is_surge : Fl.F → Option Fl.F → Fl.F → Bool
  is_surge threshold none current = false
  is_surge threshold (some baseline) current =
      Fl.ltb (Fl.of_nat 0) baseline && Fl.leb threshold (Fl.div current baseline)

  abbrev pub next_baseline : Option Fl.F → Fl.F → Fl.F
  next_baseline none current = current
  next_baseline (some existing) current = average existing current

  abbrev pub baseline_or_zero : Option Fl.F → Fl.F
  baseline_or_zero none = Fl.of_nat 0
  baseline_or_zero (some b) = b

  unfoldable pub surge : ℕ → String → WorkloadUsage → Fl.F → Recommendation
  surge now key w baseline = record {
    id = str_append "surge-" (str_append key (str_append "-" (itoa now)));
    target_namespace = w.namespace;
    target_kind = w.kind;
    target_name = w.name;
    auto_executable = true;
    details =
        ("scalingType", "horizontal")
        ∷ ("reason", "surge")
        ∷ ("ratio", text.one_decimal (Fl.div (of_int64 Fl w.total_cpu) baseline))
        ∷ ("baseline", print_int64 (text.to_int64 baseline))
        ∷ ("current", print_int64 w.total_cpu)
        ∷ [];
  }

  -- The second loop: the baselines and the recommendations. A surge leaves the baseline as it is.
  unfoldable pub detect_all :
      Fl.F → ℕ → GoMap WorkloadUsage → GoMap Fl.F → GoMap Fl.F × List Recommendation
  unfolding surge
  detect_all threshold now [] baselines = (baselines, [])
  detect_all threshold now ((key, w) ∷ workloads) baselines =
      let current : Fl.F = of_int64 Fl w.total_cpu in
      let before : Option Fl.F = lookup key baselines in
      let surges : Bool = is_surge threshold before current in
      let after : GoMap Fl.F × List Recommendation =
        detect_all threshold now workloads
          (if surges then baselines else insert key (next_baseline before current) baselines) in
      (after.0, if surges then surge now key w (baseline_or_zero before) ∷ after.1 else after.1)

  unfoldable pub detect : Fl.F → ℕ → List PodInfo → GoMap Fl.F → GoMap Fl.F × List Recommendation
  unfolding detect_all group_usage
  detect threshold now pods baselines = detect_all threshold now (group_usage pods []) baselines
