-- ===== src/Scheduler/Tests.antt =====
-- Runs of the simulator on a small cluster, and the theorems at it.
use katalyst.Prelude.{
  ℕ, ◌+◌, ◌*◌, ◌≤◌, ◌<◌, String, ◌≡◌, refl, subst, ◌↔◌, true, false, none, some, List, [], ◌∷◌, map,
  arith, keep, All,
}
use katalyst.Prelude.GoMap.{lookup}
use katalyst.Prelude.Words.{lt64, add64, sign32}
use katalyst.Scheduler.Types.{
  Quantity, Container, Taint, Toleration, Requirement, op_in, LabelSelector, PodAffinityTerm,
  SpreadConstraint, Pod, Node,
}
use katalyst.Scheduler.Labels.{
  matches_node_selector, matches_node_affinity, pod_matches_label_selector,
  pod_matches_affinity_term, exceeds,
}
use katalyst.Scheduler.Labels.Agree.{affinity_term-missing_label}
use katalyst.Prelude.Text.{atoi}
use katalyst.Scheduler.Resources.{
  sum_pods, raise_to_requests, sum_requests, effective_amount, has_enough_resources,
}
use katalyst.Scheduler.Resources.Capacity.{
  HasRoom, FitsWord, cpu, units, need, effective_amount-need, has_enough_resources-HasRoom,
}
use katalyst.Scheduler.Taints.{tolerates_taints}
use katalyst.Scheduler.Taints.Tolerates.{Tolerates, tolerates_taints-Tolerates}
use katalyst.Scheduler.Topology.{satisfies_pod_affinity, PodsByNode, satisfies_pod_anti_affinity}
use katalyst.Scheduler.Topology.Domains.{KeepsApart, anti_affinity-KeepsApart}
use katalyst.Scheduler.Spread.{satisfies_topology_spread_constraints, spread_holds_across}
use katalyst.Scheduler.Spread.Skew.{IsDomain, placed_count, spread_holds_across-skew}
use katalyst.Scheduler.Spread.Counts.{in_domain_count}
use katalyst.Scheduler.Spread.Rules.{HasSmallCounts}
use katalyst.Scheduler.Simulator.{can_schedule_with_topology, find_fitting_nodes}
use katalyst.Scheduler.Simulator.Decision.{
  Fits, can_schedule-Fits, fits_on, find_fitting_nodes-keep,
}

abbrev quantity : ℕ → Quantity
quantity n = record { value = n; milli_value = n * 1000 }

abbrev container : ℕ → ℕ → Container
container c m = record { requests = ("cpu", quantity c) ∷ ("memory", quantity m) ∷ [] }

abbrev web : LabelSelector
web = record {
  match_labels = [];
  match_expressions = record { key = "app"; operator = op_in; values = "web" ∷ [] } ∷ [];
}

abbrev apart_from_web : PodAffinityTerm
apart_from_web = record { label_selector = some web; namespaces = []; topology_key = "zone" }

abbrev wildcard : Toleration
wildcard = record { key = ""; operator = "Exists"; value = ""; effect = "NoSchedule" }

abbrev evicting : Taint
evicting = record { key = "gpu"; value = "yes"; effect = "NoExecute" }

abbrev web_pod : Pod
web_pod = record {
  namespace = "shop";
  labels = ("app", "web") ∷ [];
  containers = container 1 100 ∷ container 2 50 ∷ [];
  init_containers = container 4 10 ∷ [];
  node_selector = [];
  tolerations = wildcard ∷ [];
  required_node_terms = none;
  pod_affinity = [];
  pod_anti_affinity = apart_from_web ∷ [];
  spread_constraints = [];
  phase = "Pending";
}

abbrev bare_pod : Pod
bare_pod = record web_pod { labels = []; pod_anti_affinity = [] }

abbrev node_in : String → String → Node
node_in name zone = record {
  name = name;
  labels = ("zone", zone) ∷ [];
  unschedulable = false;
  taints = evicting ∷ [];
  conditions = record { kind = "Ready"; status = "True" } ∷ [];
  allocatable = ("cpu", quantity 8) ∷ ("memory", quantity 1000) ∷ [];
}

abbrev cluster : List Node
cluster = node_in "n1" "a" ∷ node_in "n2" "b" ∷ []

abbrev placed : PodsByNode
placed = ("n1", web_pod ∷ []) ∷ []

fits_elsewhere : find_fitting_nodes web_pod cluster (some placed) ≡ "n2" ∷ []
unfolding find_fitting_nodes can_schedule_with_topology has_enough_resources effective_amount lt64
    add64 lookup tolerates_taints satisfies_pod_anti_affinity pod_matches_affinity_term sum_pods
    raise_to_requests sum_requests matches_node_selector matches_node_affinity
    satisfies_pod_affinity satisfies_topology_spread_constraints
fits_elsewhere = refl

ten_is_more_than_nine : exceeds "10" "9" ≡ true
unfolding exceeds lt64 atoi
ten_is_more_than_nine = refl

-- A term whose selector lists the empty text.
abbrev lists_empty : Requirement
lists_empty = record { key = "app"; operator = op_in; values = "" ∷ [] }

abbrev empty_term : PodAffinityTerm
empty_term = record {
  label_selector = some (record { match_labels = []; match_expressions = lists_empty ∷ [] });
  namespaces = [];
  topology_key = "zone";
}

affinity_term-missing_label_example :
    (pod_matches_affinity_term bare_pod empty_term ≡ true)
    × (pod_matches_label_selector bare_pod empty_term.label_selector ≡ false)
unfolding lookup
affinity_term-missing_label_example =
    affinity_term-missing_label bare_pod empty_term lists_empty refl refl refl refl refl

effective_amount-need_example : effective_amount cpu "cpu" web_pod ≡ need cpu "cpu" web_pod
unfolding lookup
effective_amount-need_example = effective_amount-need cpu "cpu" web_pod (omega arith)

cpu_fits : FitsWord cpu "cpu" web_pod (node_in "n2" "b") (bare_pod ∷ [])
unfolding lookup
cpu_fits = omega arith

memory_fits : FitsWord units "memory" web_pod (node_in "n2" "b") (bare_pod ∷ [])
unfolding lookup
memory_fits = omega arith

gpu_fits : FitsWord units "nvidia.com/gpu" web_pod (node_in "n2" "b") (bare_pod ∷ [])
unfolding lookup
gpu_fits = omega arith

has_enough_resources-HasRoom_example :
    (has_enough_resources web_pod (node_in "n2" "b") (bare_pod ∷ []) ≡ true)
    ↔ HasRoom web_pod (node_in "n2" "b") (bare_pod ∷ [])
has_enough_resources-HasRoom_example =
    has_enough_resources-HasRoom web_pod (node_in "n2" "b") (bare_pod ∷ []) cpu_fits memory_fits
      gpu_fits

tolerates_taints-Tolerates_example :
    (tolerates_taints web_pod (evicting ∷ []) ≡ true) ↔ Tolerates web_pod (evicting ∷ [])
tolerates_taints-Tolerates_example = tolerates_taints-Tolerates web_pod (evicting ∷ [])

anti_affinity-KeepsApart_example :
    (satisfies_pod_anti_affinity web_pod (node_in "n2" "b") [] (some cluster) (some placed) ≡ true)
    ↔ All (KeepsApart (node_in "n2" "b") cluster placed) web_pod.pod_anti_affinity
anti_affinity-KeepsApart_example =
    anti_affinity-KeepsApart web_pod (node_in "n2" "b") [] cluster placed

abbrev even_zones : SpreadConstraint
even_zones = record {
  max_skew = 1;
  topology_key = "zone";
  do_not_schedule = true;
  label_selector = some web;
}

spread_holds_across-skew_example : (spread_holds_across even_zones "a" cluster placed ≡ true) ↔ (
    (a b : String)
    → IsDomain even_zones "a" cluster a
    → IsDomain even_zones "a" cluster b
    → placed_count even_zones "a" cluster placed a
      ≤ placed_count even_zones "a" cluster placed b + even_zones.max_skew)
unfolding lookup pod_matches_label_selector
spread_holds_across-skew_example =
    spread_holds_across-skew even_zones "a" cluster placed (λ j. ground arith) (omega arith)

-- A pod that has to be in zone b, away from web pods and evenly spread over the zones.
abbrev choosy_pod : Pod
choosy_pod = record web_pod {
  required_node_terms = some (
      record {
        match_expressions = record { key = "zone"; operator = op_in; values = "b" ∷ [] } ∷ [];
        match_fields = [];
      }
      ∷ []);
  spread_constraints = even_zones ∷ [];
}

zone_counts : (j : String) → in_domain_count (some web) "zone" j placed cluster + 1 < sign32
unfolding lookup pod_matches_label_selector
zone_counts j = ground arith

small_counts :
    All (HasSmallCounts (bare_pod ∷ []) (some cluster) (some placed)) choosy_pod.spread_constraints
unfolding lookup pod_matches_label_selector
small_counts = (
  (
    omega arith,
    omega arith,
    λ ns m j e f.
        let same_nodes : cluster ≡ ns = cc in
        let same_pods : placed ≡ m = cc in
        subst (λ x. in_domain_count (some web) "zone" j m x + 1 < sign32) same_nodes
          (subst (λ x. in_domain_count (some web) "zone" j x cluster + 1 < sign32) same_pods
            (zone_counts j)),
  ),
  tt,
)

can_schedule-Fits_example :
    (((can_schedule_with_topology choosy_pod
          (node_in "n2" "b")
          (bare_pod ∷ [])
          (some cluster)
          (some placed)).feasible
        ≡ true)
      ↔ Fits choosy_pod (node_in "n2" "b") (bare_pod ∷ []) (some cluster) (some placed))
    × ((can_schedule_with_topology choosy_pod
            (node_in "n2" "b")
            (bare_pod ∷ [])
            (some cluster)
            (some placed)).feasible
          ≡ true
        → (can_schedule_with_topology choosy_pod
            (node_in "n2" "b")
            (bare_pod ∷ [])
            (some cluster)
            (some placed)).node_name
          ≡ "n2")
can_schedule-Fits_example =
    can_schedule-Fits choosy_pod (node_in "n2" "b") (bare_pod ∷ []) (some cluster) (some placed)
      cpu_fits memory_fits gpu_fits small_counts

find_fitting_nodes-keep_example :
    find_fitting_nodes web_pod cluster (some placed)
    ≡ map (λ n. n.name) (keep (fits_on web_pod cluster (some placed)) cluster)
find_fitting_nodes-keep_example = find_fitting_nodes-keep web_pod cluster (some placed)
