-- ===== src/Scheduler/Topology.antt =====
-- internal/scheduler/simulator.go: required pod affinity and anti-affinity. `all_nodes` and
-- `pods_by_node` are `none` where the code has nil.
pub mod Domains
pub mod Rules
use katalyst.Prelude.{
  String, Bool, true, false, not, Option, none, some, List, [], ◌∷◌, ◌++◌, str_eq, if◌then◌else◌,
  all, any,
}
use katalyst.Prelude.GoMap.{GoMap, lookup}
use katalyst.Scheduler.Types.{PodAffinityTerm, Pod, Node}
use katalyst.Scheduler.Labels.{pod_matches_affinity_term}

abbrev pub PodsByNode : Type 0
PodsByNode = GoMap (List Pod)

abbrev pub pods_on : String → PodsByNode → List Pod
pods_on name pods_by_node = elim (lookup name pods_by_node) [ none ↦ [] | some ps ↦ ps ]

-- The node has the label, with the value of the domain.
abbrev pub in_domain : String → String → Node → Bool
in_domain key value n = elim (lookup key n.labels) [ none ↦ false | some v ↦ str_eq v value ]

-- The loop that gathers the pods of the nodes in a domain.
unfoldable pub pods_in_domain : String → String → PodsByNode → List Node → List Pod
pods_in_domain key value pods_by_node [] = []
pods_in_domain key value pods_by_node (n ∷ ns) =
    let rest = pods_in_domain key value pods_by_node ns in
    if in_domain key value n then pods_on n.name pods_by_node ++ rest else rest

-- Without a view of the cluster the domain is the node itself.
unfoldable pub domain_pods :
    String → String → List Pod → Option (List Node) → Option PodsByNode → List Pod
unfolding pods_in_domain
domain_pods key value existing (some nodes) (some by_node) = pods_in_domain key value by_node nodes
domain_pods key value existing (some nodes) none = existing
domain_pods key value existing none by_node = existing

unfoldable pub affinity_term_holds :
    Node → List Pod → Option (List Node) → Option PodsByNode → PodAffinityTerm → Bool
unfolding domain_pods
affinity_term_holds node existing nodes by_node term =
    if str_eq term.topology_key "" then true else elim (lookup term.topology_key node.labels) [
      | none ↦ false
      | some value ↦
          any (λ p. pod_matches_affinity_term p term)
            (domain_pods term.topology_key value existing nodes by_node)
    ]

unfoldable pub satisfies_pod_affinity :
    Pod → Node → List Pod → Option (List Node) → Option PodsByNode → Bool
unfolding affinity_term_holds
satisfies_pod_affinity pod node existing nodes by_node =
    all (affinity_term_holds node existing nodes by_node) pod.pod_affinity

unfoldable pub anti_affinity_term_holds :
    Node → List Pod → Option (List Node) → Option PodsByNode → PodAffinityTerm → Bool
unfolding domain_pods
anti_affinity_term_holds node existing nodes by_node term =
    if str_eq term.topology_key "" then true else elim (lookup term.topology_key node.labels) [
      | none ↦ true
      | some value ↦ not (
          any (λ p. pod_matches_affinity_term p term)
            (domain_pods term.topology_key value existing nodes by_node))
    ]

unfoldable pub satisfies_pod_anti_affinity :
    Pod → Node → List Pod → Option (List Node) → Option PodsByNode → Bool
unfolding anti_affinity_term_holds
satisfies_pod_anti_affinity pod node existing nodes by_node =
    all (anti_affinity_term_holds node existing nodes by_node) pod.pod_anti_affinity
