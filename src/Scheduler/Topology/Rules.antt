-- ===== src/Scheduler/Topology/Rules.antt =====
-- What pod affinity and anti-affinity ask, with a view of the cluster or without one.
use katalyst.Prelude.{
  String, ◌≡◌, sym, ◌∙◌, subst, ◌≢◌, ◌↔◌, ◌⊎◌, inl, inr, Bool, true, false, not, Option, none, some,
  List, [], ◌∷◌, arith, str_eq, eq_iff, Bool-cases, Option-cases, any, All, Any, all_iff, any_iff,
}
use katalyst.Prelude.GoMap.{lookup}
use katalyst.Scheduler.Types.{PodAffinityTerm, Pod, Node}
use katalyst.Scheduler.Labels.{pod_matches_affinity_term}
use katalyst.Scheduler.Labels.Rules.{IsSelected}
use katalyst.Scheduler.Labels.TermSelector.{pod_matches_affinity_term-IsSelected}
use katalyst.Scheduler.Topology.{
  PodsByNode, pods_on, pods_in_domain, domain_pods, affinity_term_holds, satisfies_pod_affinity,
  anti_affinity_term_holds, satisfies_pod_anti_affinity,
}
use katalyst.Scheduler.Topology.Domains.{any-append, in_domain_iff}

-- Some pod in a domain has a property: on a node that carries the value of the domain, or, without a view
-- of the cluster, on the node itself.
abbrev pub HasPod :
    (Pod → Type 0) → String → String → List Pod → Option (List Node) → Option PodsByNode → Type 0
HasPod P key value existing (some nodes) (some m) =
    Any (λ n. (lookup key n.labels ≡ some value) × Any P (pods_on n.name m)) nodes
HasPod P key value existing (some nodes) none = Any P existing
HasPod P key value existing none by_node = Any P existing

pods_in_domain-Any :
    (p : Pod → Bool) (P : Pod → Type 0) (decides : (x : Pod) → (p x ≡ true) ↔ P x)
    (key value : String) (m : PodsByNode) (nodes : List Node)
    → (any p (pods_in_domain key value m nodes) ≡ true)
      ↔ Any (λ n. (lookup key n.labels ≡ some value) × Any P (pods_on n.name m)) nodes
unfolding pods_in_domain
pods_in_domain-Any p P decides key value m [] = ((λ e. cc), λ h. absurd h)
pods_in_domain-Any p P decides key value m (n ∷ ns) =
    let rest = pods_in_domain-Any p P decides key value m ns in
    let here = any_iff decides (pods_on n.name m) in
    let inside = in_domain_iff key value n in
    let join = any-append p (pods_on n.name m) (pods_in_domain key value m ns) in
    ground (arith, rest, here, inside, join)

domain_pods-HasPod :
    (term : PodAffinityTerm) (value : String) (existing : List Pod) (nodes : Option (List Node))
    (by_node : Option PodsByNode)
    → (any
          (λ p. pod_matches_affinity_term p term)
          (domain_pods term.topology_key value existing nodes by_node)
        ≡ true)
      ↔ HasPod (IsSelected term) term.topology_key value existing nodes by_node
unfolding domain_pods
domain_pods-HasPod term value existing (some nodes) (some m) =
    pods_in_domain-Any (λ p. pod_matches_affinity_term p term) (IsSelected term)
      (pod_matches_affinity_term-IsSelected term) term.topology_key value m nodes
domain_pods-HasPod term value existing (some nodes) none =
    any_iff (pod_matches_affinity_term-IsSelected term) existing
domain_pods-HasPod term value existing none by_node =
    any_iff (pod_matches_affinity_term-IsSelected term) existing

module _ (node : Node) (existing : List Pod) (nodes : Option (List Node))
    (by_node : Option PodsByNode) where
  -- The node carries the topology key, and its domain has a pod that the term selects.
  abbrev pub IsNear : PodAffinityTerm → Type 0
  IsNear term =
      (term.topology_key ≡ "")
      ⊎ ((value : String) × (lookup term.topology_key node.labels ≡ some value)
          × HasPod (IsSelected term) term.topology_key value existing nodes by_node)

  -- No domain of the node has such a pod.
  abbrev pub IsApart : PodAffinityTerm → Type 0
  IsApart term =
      term.topology_key ≢ ""
      → (value : String) → lookup term.topology_key node.labels ≡ some value
      → HasPod (IsSelected term) term.topology_key value existing nodes by_node
      → ⊥

  IsNear-iff :
      (term : PodAffinityTerm)
      → (affinity_term_holds node existing nodes by_node term ≡ true) ↔ IsNear term
  unfolding affinity_term_holds
  IsNear-iff term = elim (Bool-cases (str_eq term.topology_key "")) [
    | inl y ↦
        let holds : affinity_term_holds node existing nodes by_node term ≡ true =
          rw (affinity_term_holds, y) in
        ((λ _. inl ((eq_iff term.topology_key "").0 y)), λ _. holds)
    | inr n ↦ elim (Option-cases (lookup term.topology_key node.labels)) [
      | inl e ↦
          let fails : affinity_term_holds node existing nodes by_node term ≡ false =
            rw (affinity_term_holds, n, e) in
          (
            (λ h. cc),
            λ k. elim k [
              | inl no_key ↦ cc (n, (eq_iff term.topology_key "").1 no_key)
              | inr (value, there, _) ↦ cc
            ],
          )
      | inr (value, e) ↦
          let (there, back) = domain_pods-HasPod term value existing nodes by_node in
          let holds : affinity_term_holds node existing nodes by_node term
              ≡ any (λ p. pod_matches_affinity_term p term)
                  (domain_pods term.topology_key value existing nodes by_node) =
            rw (affinity_term_holds, n, e) in
          (
            (λ h. inr (value, e, there (sym holds ∙ h))),
            λ k. elim k [
              | inl no_key ↦ cc (n, (eq_iff term.topology_key "").1 no_key)
              | inr (w, d, h) ↦
                  let same : w ≡ value = cc in
                  holds
                  ∙ back (
                      subst
                        (λ x. HasPod (IsSelected term) term.topology_key x existing nodes by_node)
                        same h)
            ],
          )
    ]
  ]

  IsApart-iff :
      (term : PodAffinityTerm)
      → (anti_affinity_term_holds node existing nodes by_node term ≡ true) ↔ IsApart term
  unfolding anti_affinity_term_holds
  IsApart-iff term = elim (Bool-cases (str_eq term.topology_key "")) [
    | inl y ↦
        let holds : anti_affinity_term_holds node existing nodes by_node term ≡ true =
          rw (anti_affinity_term_holds, y) in
        ((λ _ named. absurd (named ((eq_iff term.topology_key "").0 y))), λ _. holds)
    | inr n ↦ elim (Option-cases (lookup term.topology_key node.labels)) [
      | inl e ↦
          let holds : anti_affinity_term_holds node existing nodes by_node term ≡ true =
            rw (anti_affinity_term_holds, n, e) in
          ((λ _ named value there _. cc), λ _. holds)
      | inr (value, e) ↦
          let (there, back) = domain_pods-HasPod term value existing nodes by_node in
          let found : Bool =
            any (λ p. pod_matches_affinity_term p term)
              (domain_pods term.topology_key value existing nodes by_node) in
          let holds : anti_affinity_term_holds node existing nodes by_node term ≡ not found =
            rw (anti_affinity_term_holds, n, e) in
          (
            (λ h named w d k.
                let same : w ≡ value = cc in
                let hit : found ≡ true = back (
                  subst (λ x. HasPod (IsSelected term) term.topology_key x existing nodes by_node)
                    same k) in
                cc),
            λ k. elim (Bool-cases found) [
              | inl hit ↦
                  absurd (
                    k (λ no_key. cc (n, (eq_iff term.topology_key "").1 no_key)) value e
                      (there hit))
              | inr miss ↦ holds ∙ rw miss
            ],
          )
    ]
  ]

  -- The checks of pod affinity and of anti-affinity decide the rules.
  pub satisfies_pod_affinity-IsNear :
      (pod : Pod)
      → (satisfies_pod_affinity pod node existing nodes by_node ≡ true)
        ↔ All IsNear pod.pod_affinity
  unfolding satisfies_pod_affinity
  satisfies_pod_affinity-IsNear pod = all_iff IsNear-iff pod.pod_affinity

  pub satisfies_pod_anti_affinity-IsApart :
      (pod : Pod)
      → (satisfies_pod_anti_affinity pod node existing nodes by_node ≡ true)
        ↔ All IsApart pod.pod_anti_affinity
  unfolding satisfies_pod_anti_affinity
  satisfies_pod_anti_affinity-IsApart pod = all_iff IsApart-iff pod.pod_anti_affinity
