-- ===== src/Scheduler/Taints/Tolerates.antt =====
-- When a pod tolerates a node's taints.
use katalyst.Prelude.{
  ◌≡◌, ◌↔◌, ◌⊎◌, inl, true, List, [], ◌∷◌, arith, eq_iff, All, Any, all_iff, any_iff,
}
use katalyst.Scheduler.Types.{Taint, Toleration, Pod}
use katalyst.Scheduler.Taints.{toleration_matches_taint, tolerates_taints}

-- A toleration covers a taint: it names no key and asks only that one exists; or it names the key,
-- fits the effect, and asks that the key exists or names the value.
abbrev pub Covers : Taint → Toleration → Type 0
Covers taint tol =
    ((tol.operator ≡ "Exists") × (tol.key ≡ ""))
    ⊎ ((tol.key ≡ taint.key)
        × ((tol.effect ≡ "") ⊎ (tol.effect ≡ taint.effect))
        × ((tol.operator ≡ "Exists") ⊎ (tol.value ≡ taint.value)))

-- Every taint that keeps pods off, or evicts them, is covered by one of the tolerations.
abbrev pub Tolerates : Pod → List Taint → Type 0
Tolerates pod = All (λ taint.
    (taint.effect ≡ "NoSchedule") ⊎ (taint.effect ≡ "NoExecute")
    → Any (Covers taint) pod.tolerations)

toleration_matches_taint_iff :
    (taint : Taint) (tol : Toleration)
    → (toleration_matches_taint tol taint ≡ true) ↔ Covers taint tol
unfolding toleration_matches_taint
toleration_matches_taint_iff taint tol = ground (
  arith,
  eq_iff tol.operator "Exists",
  eq_iff tol.key "",
  eq_iff tol.key taint.key,
  eq_iff tol.effect "",
  eq_iff tol.effect taint.effect,
  eq_iff tol.value taint.value,
)

-- `toleratesTaints` answers true exactly if every taint with the effect NoSchedule or NoExecute is
-- covered by a toleration of the pod.
pub tolerates_taints-Tolerates :
    (pod : Pod) (taints : List Taint) → (tolerates_taints pod taints ≡ true) ↔ Tolerates pod taints
unfolding tolerates_taints
tolerates_taints-Tolerates pod = all_iff λ taint. ground (
  arith,
  eq_iff taint.effect "NoSchedule",
  eq_iff taint.effect "NoExecute",
  any_iff (toleration_matches_taint_iff taint) pod.tolerations,
)

-- A pod whose only toleration has the operator Exists and no key tolerates every taint, also one with
-- another effect than the toleration names.
pub wildcard-effect_ignored :
    (pod : Pod) (tol : Toleration) (taints : List Taint)
    → pod.tolerations ≡ tol ∷ []
    → tol.operator ≡ "Exists"
    → tol.key ≡ ""
    → tolerates_taints pod taints ≡ true
wildcard-effect_ignored pod tol taints e o k =
    (tolerates_taints-Tolerates pod taints).1 (covered taints)
  where
    covered : (ts : List Taint) → Tolerates pod ts
    covered [] = tt
    covered (t ∷ ts) = ((λ _. rw e (inl (inl (o, k)))), covered ts)
