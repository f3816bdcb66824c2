-- ===== src/WorkloadScaler/Coordinator.antt =====
-- internal/controller/workloadscaler/coordinator.go. A recommendation is what the coordinator reads
-- and writes of it. Its map of details is written in place by the code; here the recommendation that is
-- returned has the new map.
use Prim.Native.String.{◌++◌ as str_append}
use katalyst.Prelude.{
  String, Bool, false, ◌&&◌, none, some, List, [], ◌∷◌, ◌++◌, str_eq, if◌then◌else◌, any,
}
use katalyst.Prelude.GoMap.{GoMap, lookup, insert}

pub record Recommendation : Type 0 where
  pub id : String
  pub target_namespace : String
  pub target_kind : String
  pub target_name : String
  pub auto_executable : Bool
  pub details : GoMap String

-- The key of the target workload.
unfoldable pub target_key : Recommendation → String
target_key r =
    str_append r.target_namespace
      (str_append "/" (str_append r.target_kind (str_append "/" r.target_name)))

-- `r.Details["scalingType"]`, with "" for a missing key.
abbrev pub scaling_type : Recommendation → String
scaling_type r = elim (lookup "scalingType" r.details) [ none ↦ "" | some v ↦ v ]

unfoldable pub is_horizontal : Recommendation → Bool
is_horizontal r = str_eq (scaling_type r) "horizontal"

unfoldable pub is_vertical : Recommendation → Bool
is_vertical r = str_eq (scaling_type r) "vertical"

-- Appends a recommendation to those of its target.
unfoldable pub add_to_target :
    Recommendation → GoMap (List Recommendation) → GoMap (List Recommendation)
add_to_target r by_target = elim (lookup (target_key r) by_target) [
  | none ↦ insert (target_key r) (r ∷ []) by_target
  | some rs ↦ insert (target_key r) (rs ++ r ∷ []) by_target
]

unfoldable pub group_by_target :
    List Recommendation → GoMap (List Recommendation) → GoMap (List Recommendation)
unfolding add_to_target
group_by_target [] by_target = by_target
group_by_target (r ∷ rs) by_target = group_by_target rs (add_to_target r by_target)

abbrev pub defer : Recommendation → Recommendation
defer r = record r { details = insert "deferred" "true" r.details; auto_executable = false }

-- The loop over the recommendations of a target that has both kinds.
unfoldable pub stage : List Recommendation → List Recommendation
unfolding is_vertical is_horizontal
stage [] = []
stage (r ∷ rs) =
    let rest = stage rs in
    if is_vertical r then r ∷ rest else if is_horizontal r then defer r ∷ rest else rest

unfoldable pub resolve_target : List Recommendation → List Recommendation
unfolding stage
resolve_target rs = if any is_horizontal rs && any is_vertical rs then stage rs else rs

-- The loop over the targets.
unfoldable pub resolve_all : GoMap (List Recommendation) → List Recommendation
unfolding resolve_target
resolve_all [] = []
resolve_all ((k, rs) ∷ by_target) = resolve_target rs ++ resolve_all by_target

unfoldable pub resolve : List Recommendation → List Recommendation
unfolding resolve_all group_by_target
resolve recs = resolve_all (group_by_target recs [])
