-- ===== src/Scheduler/Taints.antt =====
-- internal/scheduler/simulator.go: taints and tolerations.
pub mod Tolerates
use katalyst.Prelude.{Bool, true, false, ◌&&◌, ◌||◌, not, List, str_eq, if◌then◌else◌, all, any}
use katalyst.Scheduler.Types.{Taint, Toleration, Pod}

unfoldable pub toleration_matches_taint : Toleration → Taint → Bool
toleration_matches_taint tol taint =
    if str_eq tol.operator "Exists" && str_eq tol.key ""
    then true
    else if not (str_eq tol.key taint.key)
    then false
    else if not (str_eq tol.effect "") && not (str_eq tol.effect taint.effect)
    then false
    else if str_eq tol.operator "Exists"
    then true
    else str_eq tol.value taint.value

-- The effects that keep a pod off the node.
abbrev pub repels : Taint → Bool
repels taint = str_eq taint.effect "NoSchedule" || str_eq taint.effect "NoExecute"

unfoldable pub tolerates_taints : Pod → List Taint → Bool
unfolding toleration_matches_taint
tolerates_taints pod = all (λ taint.
    if repels taint then any (λ t. toleration_matches_taint t taint) pod.tolerations else true)
