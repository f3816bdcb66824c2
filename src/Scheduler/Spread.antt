-- ===== src/Scheduler/Spread.antt =====
-- internal/scheduler/simulator.go: topology spread constraints. The counts are `int32` and wrap.
pub mod Counts
pub mod Rules
pub mod Extremes
pub mod Skew
use katalyst.Prelude.{
  ℕ, zero, suc, ◌+◌, ◌-◌, ◌*◌, ◌/◌, ◌%◌, ◌^◌, ◌≤◌, ◌<◌, String, ◌≡◌, refl, sym, ap, ◌∙◌, subst, ◌≢◌,
  ◌↔◌, ◌⊎◌, inl, inr, Bool, true, false, ◌&&◌, ◌||◌, not, Option, none, some, List, [], ◌∷◌, ◌++◌,
  map, reverse, arith, str_eq, eq_iff, ltb, leb, ◌==◌, if◌then◌else◌, ltb→lt, lt→ltb, leb→le,
  le→leb, ==_iff, tests, Bool-cases, Option-cases, is_some, &&_iff, not_iff, length, take, drop,
  get_elem?, set, all, any, keep, length-append, length-keep-le, length-take, length-drop, drop-set,
  take-set, length-set, get_elem?-drop, drop-length, drop-drop, drop-append, length-reverse,
  get_elem?-reverse, All, Any, all_iff, any_iff,
}
use katalyst.Prelude.GoMap.{GoMap, lookup, insert}
use katalyst.Prelude.Words.{add32, sub32, lt32}
use katalyst.Scheduler.Types.{SpreadConstraint, LabelSelector, Pod, Node}
use katalyst.Scheduler.Labels.{pod_matches_label_selector}
use katalyst.Scheduler.Topology.{PodsByNode, pods_on}

-- A missing key of a `map[string]int32` reads 0.
abbrev pub or_zero : Option ℕ → ℕ
or_zero none = 0
or_zero (some n) = n

-- `domainCounts[dv]++`.
unfoldable pub bump : String → GoMap ℕ → GoMap ℕ
bump dv counts = insert dv (add32 (or_zero (lookup dv counts)) 1) counts

-- The loop over the pods of one node.
unfoldable pub count_pods : Option LabelSelector → String → List Pod → GoMap ℕ → GoMap ℕ
unfolding bump
count_pods sel dv [] counts = counts
count_pods sel dv (p ∷ ps) counts =
    count_pods sel dv ps (if pod_matches_label_selector p sel then bump dv counts else counts)

-- `if _, exists := domainCounts[dv]; !exists { domainCounts[dv] = 0 }`.
unfoldable pub touch : String → GoMap ℕ → GoMap ℕ
touch dv counts = elim (lookup dv counts) [ none ↦ insert dv 0 counts | some n ↦ counts ]

-- The loop over the nodes.
unfoldable pub count_domains :
    Option LabelSelector → String → PodsByNode → List Node → GoMap ℕ → GoMap ℕ
unfolding count_pods touch
count_domains sel key by_node [] counts = counts
count_domains sel key by_node (n ∷ ns) counts =
    count_domains sel key by_node ns (elim (lookup key n.labels) [
      | none ↦ counts
      | some dv ↦ count_pods sel dv (pods_on n.name by_node) (touch dv counts)
    ])

-- The loop that finds the smallest and the largest count; the first entry starts both.
unfoldable pub extremes : ℕ → ℕ → GoMap ℕ → ℕ × ℕ
extremes lo hi [] = (lo, hi)
extremes lo hi ((k, n) ∷ counts) =
    extremes (if lt32 n lo then n else lo) (if lt32 hi n then n else hi) counts

unfoldable pub min_max : GoMap ℕ → ℕ × ℕ
unfolding extremes
min_max [] = (0, 0)
min_max ((k, n) ∷ counts) = extremes n n counts

-- The loop of the fallback, without a view of the cluster.
unfoldable pub count_matching : Option LabelSelector → ℕ → List Pod → ℕ
count_matching sel n [] = n
count_matching sel n (p ∷ ps) =
    count_matching sel (if pod_matches_label_selector p sel then add32 n 1 else n) ps

unfoldable pub spread_holds_across : SpreadConstraint → String → List Node → PodsByNode → Bool
unfolding count_domains min_max bump
spread_holds_across c value nodes by_node =
    let counts = bump value (count_domains c.label_selector c.topology_key by_node nodes []) in
    let (lo, hi) = min_max counts in not (lt32 c.max_skew (sub32 hi lo))

unfoldable pub spread_holds_on_node : SpreadConstraint → List Pod → Bool
unfolding count_matching
spread_holds_on_node c existing =
    not (lt32 (add32 c.max_skew 1) (add32 (count_matching c.label_selector 0 existing) 1))

unfoldable pub spread_holds :
    Node → List Pod → Option (List Node) → Option PodsByNode → SpreadConstraint → Bool
unfolding spread_holds_across spread_holds_on_node
spread_holds node existing nodes by_node c =
    if not c.do_not_schedule
    then true
    else if str_eq c.topology_key ""
    then true
    else elim (lookup c.topology_key node.labels) [
      | none ↦ true
      | some value ↦ elim nodes [
        | none ↦ spread_holds_on_node c existing
        | some ns ↦ elim by_node [
          | none ↦ spread_holds_on_node c existing
          | some m ↦ spread_holds_across c value ns m
        ]
      ]
    ]

unfoldable pub satisfies_topology_spread_constraints :
    Pod → Node → List Pod → Option (List Node) → Option PodsByNode → Bool
unfolding spread_holds
satisfies_topology_spread_constraints pod node existing nodes by_node =
    all (spread_holds node existing nodes by_node) pod.spread_constraints
