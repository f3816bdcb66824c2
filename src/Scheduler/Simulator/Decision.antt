-- ===== src/Scheduler/Simulator/Decision.antt =====
-- What a feasible answer means, and what the searches return.
use katalyst.Prelude.{
  ◌≡◌, refl, ◌↔◌, inl, inr, Bool, true, false, not, Option, some, List, [], ◌∷◌, map, arith, eq_iff,
  ◌==◌, Option-cases, length, any, keep, All, all_iff,
}
use katalyst.Prelude.GoMap.{lookup}
use katalyst.Scheduler.Types.{Condition, Pod, Node}
use katalyst.Scheduler.Labels.{matches_node_selector, matches_node_affinity}
use katalyst.Scheduler.Resources.{has_enough_resources}
use katalyst.Scheduler.Resources.Capacity.{
  HasRoom, FitsWord, cpu, units, has_enough_resources-HasRoom,
}
use katalyst.Scheduler.Taints.{tolerates_taints}
use katalyst.Scheduler.Taints.Tolerates.{Tolerates, tolerates_taints-Tolerates}
use katalyst.Scheduler.Topology.{PodsByNode, satisfies_pod_affinity, satisfies_pod_anti_affinity}
use katalyst.Scheduler.Spread.{satisfies_topology_spread_constraints}
use katalyst.Scheduler.Labels.Rules.{HasAffinity}
use katalyst.Scheduler.Labels.NodeAffinity.{matches_node_affinity-HasAffinity}
use katalyst.Scheduler.Topology.Rules.{
  IsNear, IsApart, satisfies_pod_affinity-IsNear, satisfies_pod_anti_affinity-IsApart,
}
use katalyst.Scheduler.Spread.Rules.{
  HasSmallCounts, IsSpread, satisfies_topology_spread_constraints-IsSpread,
}
use katalyst.Scheduler.Simulator.{
  not_ready, can_schedule_with_topology, pods_at, fitting_loop, find_fitting_nodes,
  count_unschedulable,
}

-- The rules that a pod has to meet on a node.
pub record Fits (pod : Pod) (node : Node) (existing : List Pod) (nodes : Option (List Node))
    (by_node : Option PodsByNode) : Type 0 where
  pub ready : All (λ c. c.kind ≡ "Ready" → c.status ≡ "True") node.conditions
  pub not_cordoned : node.unschedulable ≡ false
  pub tolerated : Tolerates pod node.taints
  pub room : HasRoom pod node existing
  pub selected : All (λ (k, v). lookup k node.labels ≡ some v) pod.node_selector
  pub node_affinity : HasAffinity pod node
  pub affinity : All (IsNear node existing nodes by_node) pod.pod_affinity
  pub anti_affinity : All (IsApart node existing nodes by_node) pod.pod_anti_affinity
  pub spread : All (IsSpread node existing nodes by_node) pod.spread_constraints

any-not_ready :
    (cs : List Condition)
    → (any not_ready cs ≡ false) ↔ All (λ c. c.kind ≡ "Ready" → c.status ≡ "True") cs
any-not_ready [] = (λ _. tt, λ _. refl)
any-not_ready (c ∷ cs) =
    ground (arith, any-not_ready cs, eq_iff c.kind "Ready", eq_iff c.status "True")

matches_node_selector-All :
    (pod : Pod) (node : Node)
    → (matches_node_selector pod node ≡ true)
      ↔ All (λ (k, v). lookup k node.labels ≡ some v) pod.node_selector
unfolding matches_node_selector
matches_node_selector-All pod node =
    all_iff
      (λ (k, v). elim (Option-cases (lookup k node.labels)) [
        | inl e ↦ ground arith
        | inr (w, e) ↦ ground (arith, eq_iff w v)
      ])
      pod.node_selector

-- The answer is feasible if no check fails.
can_schedule-checks :
    (pod : Pod) (node : Node) (existing : List Pod) (nodes : Option (List Node))
    (by_node : Option PodsByNode)
    → ((can_schedule_with_topology pod node existing nodes by_node).feasible ≡ true) ↔ (
        (any not_ready node.conditions ≡ false)
        × (node.unschedulable ≡ false)
        × (tolerates_taints pod node.taints ≡ true)
        × (has_enough_resources pod node existing ≡ true)
        × (matches_node_selector pod node ≡ true)
        × (matches_node_affinity pod node ≡ true)
        × (satisfies_pod_affinity pod node existing nodes by_node ≡ true)
        × (satisfies_pod_anti_affinity pod node existing nodes by_node ≡ true)
        × (satisfies_topology_spread_constraints pod node existing nodes by_node ≡ true))
unfolding can_schedule_with_topology
can_schedule-checks pod node existing nodes by_node = ground arith

can_schedule-node_name :
    (pod : Pod) (node : Node) (existing : List Pod) (nodes : Option (List Node))
    (by_node : Option PodsByNode)
    → (can_schedule_with_topology pod node existing nodes by_node).feasible ≡ true
    → (can_schedule_with_topology pod node existing nodes by_node).node_name ≡ node.name
unfolding can_schedule_with_topology
can_schedule-node_name pod node existing nodes by_node h = ground arith

-- `canScheduleWithTopology` answers feasible, and then with the node's name, exactly if: the node's
-- condition Ready, if listed, is True, and the node is not cordoned; the pod tolerates its taints, has
-- room on it and finds every label of its selector; the node meets one of the pod's required node terms,
-- if it has any; each affinity term with a key finds a pod that it selects in the node's domain, and no
-- anti-affinity term does; and for each hard spread constraint on a label of the node, no domain holds
-- more matching pods than another by more than the maximal skew, the new pod counted, or, without a view
-- of the cluster, the node holds at most the maximal skew of them before. No sum of requests and no capacity passes an `int64`, and no count or skew of a spread
-- constraint an `int32`.
pub can_schedule-Fits :
    (pod : Pod) (node : Node) (existing : List Pod) (nodes : Option (List Node))
    (by_node : Option PodsByNode)
    → FitsWord cpu "cpu" pod node existing
    → FitsWord units "memory" pod node existing
    → FitsWord units "nvidia.com/gpu" pod node existing
    → All (HasSmallCounts existing nodes by_node) pod.spread_constraints
    → (((can_schedule_with_topology pod node existing nodes by_node).feasible ≡ true)
        ↔ Fits pod node existing nodes by_node)
      × ((can_schedule_with_topology pod node existing nodes by_node).feasible ≡ true
          → (can_schedule_with_topology pod node existing nodes by_node).node_name ≡ node.name)
can_schedule-Fits pod node existing nodes by_node c m g few =
    let ready = any-not_ready node.conditions in
    let tolerated = tolerates_taints-Tolerates pod node.taints in
    let room = has_enough_resources-HasRoom pod node existing c m g in
    let selected = matches_node_selector-All pod node in
    let chosen = matches_node_affinity-HasAffinity pod node in
    let near = satisfies_pod_affinity-IsNear node existing nodes by_node pod in
    let apart = satisfies_pod_anti_affinity-IsApart node existing nodes by_node pod in
    let spread =
      satisfies_topology_spread_constraints-IsSpread node existing nodes by_node pod few in
    let checks = can_schedule-checks pod node existing nodes by_node in
    (
      (
        λ f.
            let h = checks.0 f in
            record {
              ready = ready.0 h.0;
              not_cordoned = h.1;
              tolerated = tolerated.0 h.2;
              room = room.0 h.3;
              selected = selected.0 h.4;
              node_affinity = chosen.0 h.5;
              affinity = near.0 h.6;
              anti_affinity = apart.0 h.7;
              spread = spread.0 h.8;
            },
        λ k. checks.1 (
          ready.1 k.ready,
          k.not_cordoned,
          tolerated.1 k.tolerated,
          room.1 k.room,
          selected.1 k.selected,
          chosen.1 k.node_affinity,
          near.1 k.affinity,
          apart.1 k.anti_affinity,
          spread.1 k.spread,
        ),
      ),
      can_schedule-node_name pod node existing nodes by_node,
    )

-- The pod is feasible on the node, given the cluster.
abbrev pub fits_on : Pod → List Node → Option PodsByNode → Node → Bool
fits_on pod nodes by_node n =
    (can_schedule_with_topology pod n (pods_at n.name by_node) (some nodes) by_node).feasible

fitting_loop-keep :
    (pod : Pod) (nodes : List Node) (by_node : Option PodsByNode) (ns : List Node)
    → fitting_loop pod nodes by_node ns ≡ map (λ n. n.name) (keep (fits_on pod nodes by_node) ns)
unfolding fitting_loop
fitting_loop-keep pod nodes by_node [] = refl
fitting_loop-keep pod nodes by_node (n ∷ ns) =
    ground (arith, fitting_loop-keep pod nodes by_node ns)

-- `FindFittingNodes` returns the names of the feasible nodes, in the order of the nodes.
pub find_fitting_nodes-keep :
    (pod : Pod) (nodes : List Node) (by_node : Option PodsByNode)
    → find_fitting_nodes pod nodes by_node
      ≡ map (λ n. n.name) (keep (fits_on pod nodes by_node) nodes)
unfolding find_fitting_nodes
find_fitting_nodes-keep pod nodes by_node = fitting_loop-keep pod nodes by_node nodes

length-keep_none {ℓ κ} :
    {A : Type ℓ} {B : Type κ} (p : A → Bool) (f : A → B) (xs : List A)
    → (length (map f (keep p xs)) == 0) ≡ not (any p xs)
length-keep_none p f [] = refl
length-keep_none p f (x ∷ xs) = ground (arith, length-keep_none p f xs)

-- `CountUnschedulable` counts the pods that are feasible on no node.
pub count_unschedulable-length :
    (pods : List Pod) (nodes : List Node) (by_node : Option PodsByNode)
    → count_unschedulable pods nodes by_node
      ≡ length (keep (λ p. not (any (fits_on p nodes by_node) nodes)) pods)
unfolding count_unschedulable
count_unschedulable-length [] nodes by_node = refl
count_unschedulable-length (p ∷ ps) nodes by_node =
    rw
      (
        find_fitting_nodes-keep p nodes by_node,
        length-keep_none (fits_on p nodes by_node) (λ n. n.name) nodes,
        count_unschedulable-length ps nodes by_node,
      )
      (ground arith)
