-- ===== src/WorkloadScaler/Vertical.antt =====
-- internal/controller/workloadscaler/vertical.go. The texts of floats and `resource.ParseQuantity` with
-- the print of its result are parameters; a patch is the containers with the new request of a resource.
use katalyst.Prelude.{
  ℕ, ◌-◌, ◌/◌, String, Bool, true, ◌&&◌, ◌||◌, Option, none, some, List, [], ◌∷◌, ◌++◌, str_eq,
  ◌==◌, if◌then◌else◌, any,
}
use Prim.Native.String.{◌++◌ as str_append}
use katalyst.Prelude.Float64.{Float64, FloatText, of_int64}
use katalyst.Prelude.Words.{lt64, mod64}
use katalyst.Prelude.Itoa.{itoa, print_int64}
use katalyst.WorkloadScaler.Coordinator.{Recommendation}
use katalyst.WorkloadScaler.Horizontal.{detail}
use katalyst.WorkloadScaler.Surge.{PodInfo}

-- 64Mi and 1Mi.
abbrev pub memory_floor : ℕ
memory_floor = 67108864

abbrev pub mebi : ℕ
mebi = 1048576

-- `x / (1024*1024)` of an `int64`, which Go truncates toward zero.
abbrev pub in_mebi : ℕ → String
in_mebi x =
    if lt64 x 0
    then (let n : ℕ = (mod64 - x) / mebi in if n == 0 then "0" else str_append "-" (itoa n))
    else itoa (x / mebi)

module _ (Fl : Float64) (text : FloatText Fl) where
  abbrev pub percent : ℕ → ℕ → Fl.F
  percent used requested =
      Fl.mul (Fl.div (of_int64 Fl used) (of_int64 Fl requested)) (Fl.of_nat 100)

  -- `int64(float64(used) * 1.3)`, at least the floor.
  abbrev pub suggested : ℕ → ℕ → ℕ
  suggested floor used =
      let wanted : ℕ =
        text.to_int64 (Fl.mul (of_int64 Fl used) (Fl.div (Fl.of_nat 13) (Fl.of_nat 10))) in
      if lt64 wanted floor then floor else wanted

  abbrev pub scale_cpu : ℕ → PodInfo → Recommendation
  scale_cpu now p = record {
    id = str_append "vscale-cpu-" (
        str_append p.namespace
          (str_append "-" (str_append p.owner_name (str_append "-" (itoa now)))));
    target_namespace = p.namespace;
    target_kind = p.owner_kind;
    target_name = p.owner_name;
    auto_executable = true;
    details =
        ("scalingType", "vertical")
        ∷ ("resource", "cpu")
        ∷ ("currentRequest", str_append (print_int64 p.cpu_request) "m")
        ∷ ("suggested", str_append (print_int64 (suggested 50 p.cpu_usage)) "m")
        ∷ ("utilization", text.one_decimal (percent p.cpu_usage p.cpu_request))
        ∷ [];
  }

  abbrev pub memory_percent : PodInfo → Fl.F
  memory_percent p =
      if lt64 0 p.memory_request then percent p.memory_usage p.memory_request else Fl.of_nat 0

  abbrev pub scale_memory : ℕ → PodInfo → Recommendation
  scale_memory now p = record {
    id = str_append "vscale-mem-" (
        str_append p.namespace
          (str_append "-" (str_append p.owner_name (str_append "-" (itoa now)))));
    target_namespace = p.namespace;
    target_kind = p.owner_kind;
    target_name = p.owner_name;
    auto_executable = true;
    details =
        ("scalingType", "vertical")
        ∷ ("resource", "memory")
        ∷ ("currentRequest", str_append (in_mebi p.memory_request) "Mi")
        ∷ ("suggested", str_append (in_mebi (suggested memory_floor p.memory_usage)) "Mi")
        ∷ ("utilization", text.one_decimal (memory_percent p))
        ∷ [];
  }

  abbrev pub cpu_is_low : PodInfo → Bool
  cpu_is_low p = Fl.ltb (percent p.cpu_usage p.cpu_request) (Fl.of_nat 30) && lt64 100 p.cpu_request

  abbrev pub memory_is_low : PodInfo → Bool
  memory_is_low p =
      Fl.ltb (Fl.of_nat 0) (memory_percent p)
      && (Fl.ltb (memory_percent p) (Fl.of_nat 30) && lt64 memory_floor p.memory_request)

  -- What one pod adds to the recommendations.
  unfoldable pub recommend_pod : List String → ℕ → PodInfo → List Recommendation
  recommend_pod exclude now p =
      if any (λ ns. str_eq ns p.namespace) exclude
      then []
      else if p.cpu_request == 0
      then []
      else (if cpu_is_low p then scale_cpu now p ∷ [] else [])
        ++ (if memory_is_low p then scale_memory now p ∷ [] else [])

  unfoldable pub analyze_pods : List String → ℕ → List PodInfo → List Recommendation
  unfolding recommend_pod
  analyze_pods exclude now [] = []
  analyze_pods exclude now (p ∷ pods) = recommend_pod exclude now p ++ analyze_pods exclude now pods

pub record ContainerPatch : Type 0 where
  pub name : String
  pub resource : String
  pub quantity : String

-- `buildVerticalPatch`: `none` is nil. A quantity that does not parse is `none`.
unfoldable pub patch_containers : String → String → List String → List ContainerPatch
patch_containers resource quantity [] = []
patch_containers resource quantity (name ∷ names) =
    record { name = name; resource = resource; quantity = quantity }
    ∷ patch_containers resource quantity names

unfoldable pub build_vertical_patch :
    (String → Option String) → List String → String → String → Option (List ContainerPatch)
unfolding patch_containers
build_vertical_patch parse_quantity [] resource value = none
build_vertical_patch parse_quantity (c ∷ containers) resource value = elim (parse_quantity value) [
  | none ↦ none
  | some quantity ↦
      if str_eq resource "cpu" || str_eq resource "memory"
      then some (patch_containers resource quantity (c ∷ containers))
      else none
]

pub data VerticalError : Type 0 where
  missing_details get_failed patch_failed : VerticalError

-- The calls of the client for a kind of workload: the names of the containers, and the patch.
pub record WorkloadClient (C : Type 0) : Type 0 where
  pub containers : String → String → String → C → Option (List String)
  pub patch : String → String → String → List ContainerPatch → C → C × Bool

module _ {C : Type 0} (client : WorkloadClient C) (parse_quantity : String → Option String) where
  abbrev pub send :
      String → String → String → Option (List ContainerPatch) → C → C × Option VerticalError
  send kind namespace name none c = (c, none)
  send kind namespace name (some patches) c =
      let sent : C × Bool = client.patch kind namespace name patches c in
      (sent.0, if sent.1 then none else some patch_failed)

  -- `patchDeployment` and `patchStatefulSet`, which differ in the kind.
  unfoldable pub patch_workload :
      String → String → String → String → String → C → C × Option VerticalError
  unfolding build_vertical_patch
  patch_workload kind namespace name resource value c =
      elim (client.containers kind namespace name c) [
        | none ↦ (c, some get_failed)
        | some names ↦
            send kind namespace name (build_vertical_patch parse_quantity names resource value) c
      ]

  unfoldable pub execute_vertical : Recommendation → C → C × Option VerticalError
  unfolding patch_workload
  execute_vertical r c =
      if str_eq (detail "resource" r) "" || str_eq (detail "suggested" r) ""
      then (c, some missing_details)
      else if str_eq r.target_kind "Deployment" || str_eq r.target_kind "StatefulSet"
      then patch_workload r.target_kind r.target_namespace r.target_name (detail "resource" r)
          (detail "suggested" r) c
      else (c, none)
