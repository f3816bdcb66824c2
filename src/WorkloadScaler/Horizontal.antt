-- ===== src/WorkloadScaler/Horizontal.antt =====
-- internal/controller/workloadscaler/horizontal.go. The Kubernetes client is a record of its calls on a
-- state of its own; what is sent as a patch is the new maximum. Times are Unix seconds, and of a
-- recommendation only what the controller reads is kept. An `int32` is its pattern. Half of a
-- `float64` that holds an `int32` is exact, so that the increase is computed on integers.
use katalyst.Prelude.{
  ℕ, ◌-◌, ◌/◌, ◌%◌, String, Bool, true, false, ◌&&◌, ◌||◌, not, Option, none, some, List, [], ◌∷◌,
  ◌++◌, str_eq, ◌==◌, if◌then◌else◌, any,
}
use Prim.Native.String.{◌++◌ as str_append}
use katalyst.Prelude.GoMap.{lookup}
use katalyst.Prelude.Words.{lt32, add32, sub32, lt64, mod32}
use katalyst.Prelude.Itoa.{itoa, parse_int32}
use katalyst.WorkloadScaler.Coordinator.{Recommendation}

-- What is read of a `HorizontalPodAutoscaler`.
pub record Hpa : Type 0 where
  pub namespace : String
  pub name : String
  pub target_kind : String
  pub target_name : String
  pub current_replicas : ℕ
  pub max_replicas : ℕ

pub record HorizontalScaler : Type 0 where
  pub surge_detection : Bool
  pub max_replicas_limit : ℕ
  pub exclude_namespaces : List String

-- The calls of the client: `false` and `none` are errors.
pub record HpaClient (C : Type 0) : Type 0 where
  pub list : C → Option (List Hpa)
  pub has : String → String → C → Bool
  pub patch : String → String → ℕ → C → C × Bool

abbrev pub is_excluded : HorizontalScaler → String → Bool
is_excluded h namespace = any (λ ns. str_eq ns namespace) h.exclude_namespaces

-- `%d` of an `int32`.
abbrev pub print_int32 : ℕ → String
print_int32 n = if lt32 n 0 then str_append "-" (itoa (mod32 - n)) else itoa n

abbrev pub half : ℕ → ℕ
half n = if lt32 n 0 then sub32 0 (sub32 0 n / 2) else n / 2

abbrev pub increase : ℕ → ℕ
increase n = if lt32 (half n) 1 then 1 else half n

-- The next maximum, before the limit: an overflow ends at the greatest `int32`.
abbrev pub grown : ℕ → ℕ
grown n = if lt32 (add32 n (increase n)) n then 2147483647 else add32 n (increase n)

-- The limit counts if it is positive; it is converted to an `int32`.
abbrev pub capped : ℕ → ℕ → ℕ
capped limit n = if lt64 0 limit && lt32 (limit % mod32) n then limit % mod32 else n

-- The new maximum, if there is one.
unfoldable pub new_max : ℕ → ℕ → Option ℕ
new_max limit n =
    if not (lt32 n (capped limit (grown n))) then none else some (capped limit (grown n))

abbrev pub print_bool : Bool → String
print_bool true = "true"
print_bool false = "false"

abbrev pub maxed : HorizontalScaler → ℕ → Hpa → ℕ → Recommendation
maxed h now hpa n = record {
  id =
      str_append "hpa-maxed-" (
        str_append hpa.namespace
          (str_append "-" (str_append hpa.name (str_append "-" (itoa now)))));
  target_namespace = hpa.namespace;
  target_kind = hpa.target_kind;
  target_name = hpa.target_name;
  auto_executable = h.surge_detection;
  details =
      ("scalingType", "horizontal")
      ∷ ("hpaName", hpa.name)
      ∷ ("hpaNamespace", hpa.namespace)
      ∷ ("currentReplicas", print_int32 hpa.current_replicas)
      ∷ ("maxReplicas", print_int32 hpa.max_replicas)
      ∷ ("newMaxReplicas", print_int32 n)
      ∷ ("surgeDetected", print_bool h.surge_detection)
      ∷ [];
}

abbrev pub maxed_or_none : HorizontalScaler → ℕ → Hpa → Option ℕ → List Recommendation
maxed_or_none h now hpa none = []
maxed_or_none h now hpa (some n) = maxed h now hpa n ∷ []

-- What one autoscaler adds to the recommendations.
unfoldable pub recommend : HorizontalScaler → ℕ → Hpa → List Recommendation
recommend h now hpa =
    if is_excluded h hpa.namespace
    then []
    else if not (hpa.current_replicas == hpa.max_replicas)
    then []
    else maxed_or_none h now hpa (new_max h.max_replicas_limit hpa.max_replicas)

unfoldable pub recommend_all : HorizontalScaler → ℕ → List Hpa → List Recommendation
unfolding recommend
recommend_all h now [] = []
recommend_all h now (hpa ∷ hpas) = recommend h now hpa ++ recommend_all h now hpas

pub data HorizontalError : Type 0 where
  missing_details parse_failed get_failed patch_failed : HorizontalError

-- `rec.Details[key]`, with "" for a missing key.
abbrev pub detail : String → Recommendation → String
detail key r = elim (lookup key r.details) [ none ↦ "" | some v ↦ v ]

module _ {C : Type 0} (client : HpaClient C) where
  -- `none` is an error of the client.
  unfoldable pub analyze : HorizontalScaler → ℕ → C → Option (List Recommendation)
  unfolding recommend_all
  analyze h now c = elim (client.list c) [
    | none ↦ none
    | some hpas ↦ some (recommend_all h now hpas)
  ]

  abbrev pub patch_max : String → String → ℕ → C → C × Option HorizontalError
  patch_max namespace name n c =
      if not (client.has namespace name c)
      then (c, some get_failed)
      else let patched : C × Bool = client.patch namespace name n c in
        (patched.0, if patched.1 then none else some patch_failed)

  unfoldable pub execute : Recommendation → C → C × Option HorizontalError
  execute r c =
      if not r.auto_executable
      then (c, none)
      else if str_eq (detail "hpaName" r) ""
          || str_eq (detail "hpaNamespace" r) ""
          || str_eq (detail "newMaxReplicas" r) ""
      then (c, some missing_details)
      else elim (parse_int32 (detail "newMaxReplicas" r)) [
        | none ↦ (c, some parse_failed)
        | some n ↦ patch_max (detail "hpaNamespace" r) (detail "hpaName" r) (n % mod32) c
      ]
