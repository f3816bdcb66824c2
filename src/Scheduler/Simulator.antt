-- ===== src/Scheduler/Simulator.antt =====
-- internal/scheduler/simulator.go and predicates.go: the checks in their order, and the searches
-- over nodes and pods. `Reason` is the text of the first check that fails.
pub mod Decision
use katalyst.Prelude.{
  ℕ, zero, suc, ◌+◌, ◌-◌, ◌*◌, ◌/◌, ◌%◌, ◌^◌, ◌≤◌, ◌<◌, String, ◌≡◌, refl, sym, ap, ◌∙◌, subst, ◌≢◌,
  ◌↔◌, ◌⊎◌, inl, inr, Bool, true, false, ◌&&◌, ◌||◌, not, Option, none, some, List, [], ◌∷◌, ◌++◌,
  map, reverse, arith, str_eq, eq_iff, ltb, leb, ◌==◌, if◌then◌else◌, ltb→lt, lt→ltb, leb→le,
  le→leb, ==_iff, tests, Bool-cases, Option-cases, is_some, &&_iff, not_iff, length, take, drop,
  get_elem?, set, all, any, keep, length-append, length-keep-le, length-take, length-drop, drop-set,
  take-set, length-set, get_elem?-drop, drop-length, drop-drop, drop-append, length-reverse,
  get_elem?-reverse, All, Any, all_iff, any_iff,
}
use katalyst.Prelude.GoMap.{GoMap, lookup}
use katalyst.Scheduler.Types.{Condition, Pod, Node}
use katalyst.Scheduler.Labels.{matches_node_selector, matches_node_affinity}
use katalyst.Scheduler.Resources.{has_enough_resources}
use katalyst.Scheduler.Taints.{tolerates_taints}
use katalyst.Scheduler.Topology.{
  PodsByNode, pods_on, satisfies_pod_affinity, satisfies_pod_anti_affinity,
}
use katalyst.Scheduler.Spread.{satisfies_topology_spread_constraints}

pub record SimulationResult : Type 0 where
  pub feasible : Bool
  pub node_name : String
  pub reason : String

abbrev pub infeasible : String → SimulationResult
infeasible why = record { feasible = false; node_name = ""; reason = why }

-- `cond.Type == NodeReady && cond.Status != ConditionTrue`.
abbrev pub not_ready : Condition → Bool
not_ready c = str_eq c.kind "Ready" && not (str_eq c.status "True")

unfoldable pub can_schedule_with_topology :
    Pod → Node → List Pod → Option (List Node) → Option PodsByNode → SimulationResult
can_schedule_with_topology pod node existing nodes by_node =
    if any not_ready node.conditions
    then infeasible "node not ready"
    else if node.unschedulable
    then infeasible "node is cordoned"
    else if not (tolerates_taints pod node.taints)
    then infeasible "pod does not tolerate node taints"
    else if not (has_enough_resources pod node existing)
    then infeasible "insufficient resources"
    else if not (matches_node_selector pod node)
    then infeasible "node selector mismatch"
    else if not (matches_node_affinity pod node)
    then infeasible "node affinity mismatch"
    else if not (satisfies_pod_affinity pod node existing nodes by_node)
    then infeasible "pod affinity not satisfied"
    else if not (satisfies_pod_anti_affinity pod node existing nodes by_node)
    then infeasible "pod anti-affinity conflict"
    else if not (satisfies_topology_spread_constraints pod node existing nodes by_node)
    then infeasible "topology spread constraint violation"
    else record { feasible = true; node_name = node.name; reason = "" }

unfoldable pub can_schedule : Pod → Node → List Pod → SimulationResult
unfolding can_schedule_with_topology
can_schedule pod node existing = can_schedule_with_topology pod node existing none none

-- A nil map has no pods.
abbrev pub pods_at : String → Option PodsByNode → List Pod
pods_at name none = []
pods_at name (some m) = pods_on name m

-- The loop of `FindFittingNodes`, over the nodes left.
unfoldable pub fitting_loop : Pod → List Node → Option PodsByNode → List Node → List String
fitting_loop pod nodes by_node [] = []
fitting_loop pod nodes by_node (n ∷ ns) =
    let rest = fitting_loop pod nodes by_node ns in
    let result = can_schedule_with_topology pod n (pods_at n.name by_node) (some nodes) by_node in
    if result.feasible then n.name ∷ rest else rest

unfoldable pub find_fitting_nodes : Pod → List Node → Option PodsByNode → List String
unfolding fitting_loop
find_fitting_nodes pod nodes by_node = fitting_loop pod nodes by_node nodes

unfoldable pub count_unschedulable : List Pod → List Node → Option PodsByNode → ℕ
unfolding find_fitting_nodes
count_unschedulable [] nodes by_node = 0
count_unschedulable (p ∷ ps) nodes by_node =
    let rest = count_unschedulable ps nodes by_node in
    if length (find_fitting_nodes p nodes by_node) == 0 then suc rest else rest

-- predicates.go
unfoldable pub pod_fits_node : Pod → Node → List Pod → Bool
unfolding can_schedule
pod_fits_node pod node existing = (can_schedule pod node existing).feasible

unfoldable pub ready_status : List Condition → Bool
ready_status [] = false
ready_status (c ∷ cs) =
    let rest = ready_status cs in if str_eq c.kind "Ready" then str_eq c.status "True" else rest

unfoldable pub is_node_ready : Node → Bool
unfolding ready_status
is_node_ready node = ready_status node.conditions

unfoldable pub is_pod_running : Pod → Bool
is_pod_running pod = str_eq pod.phase "Running"

unfoldable pub is_pod_pending : Pod → Bool
is_pod_pending pod = str_eq pod.phase "Pending"
