-- ===== src/Scheduler/Topology/Domains.antt =====
-- Anti-affinity and affinity over a whole cluster, stated node by node.
use katalyst.Prelude.{
  String, ◌≡◌, refl, sym, ◌∙◌, subst, ◌≢◌, ◌↔◌, inl, inr, Bool, true, false, ◌&&◌, ◌||◌, not, some,
  List, [], ◌∷◌, ◌++◌, arith, str_eq, eq_iff, Bool-cases, Option-cases, any, All, all_iff,
}
use katalyst.Prelude.GoMap.{lookup}
use katalyst.Scheduler.Types.{PodAffinityTerm, Pod, Node}
use katalyst.Scheduler.Labels.{pod_matches_affinity_term}
use katalyst.Scheduler.Topology.{
  PodsByNode, pods_on, in_domain, pods_in_domain, anti_affinity_term_holds,
  satisfies_pod_anti_affinity,
}

pub any-append {ℓ} :
    {A : Type ℓ} (p : A → Bool) (xs ys : List A) → any p (xs ++ ys) ≡ (any p xs || any p ys)
any-append p [] ys = refl
any-append p (x ∷ xs) ys = ground (arith, any-append p xs ys)

-- A pod of the domain matches if one on some node of the domain does.
any-pods_in_domain :
    (p : Pod → Bool) (key value : String) (m : PodsByNode) (nodes : List Node)
    → any p (pods_in_domain key value m nodes)
      ≡ any (λ n. in_domain key value n && any p (pods_on n.name m)) nodes
unfolding pods_in_domain
any-pods_in_domain p key value m [] = refl
any-pods_in_domain p key value m (n ∷ ns) = ground (
  arith,
  any-pods_in_domain p key value m ns,
  any-append p (pods_on n.name m) (pods_in_domain key value m ns),
)

any-All-not {ℓ} :
    {A : Type ℓ} (p : A → Bool) (xs : List A) → (not (any p xs) ≡ true) ↔ All (λ x. p x ≡ false) xs
any-All-not p [] = (λ _. tt, λ _. refl)
any-All-not p (x ∷ xs) = ground (arith, any-All-not p xs)

-- No pod on any node that shares the node's value of the topology key matches the term.
abbrev pub KeepsApart : Node → List Node → PodsByNode → PodAffinityTerm → Type 0
KeepsApart node nodes m term =
    (value : String)
    → term.topology_key ≢ ""
    → lookup term.topology_key node.labels ≡ some value
    → All
        (λ n.
          lookup term.topology_key n.labels ≡ some value
          → All (λ p. pod_matches_affinity_term p term ≡ false) (pods_on n.name m))
        nodes

not-or_iff : (a b : Bool) → (not (a || b) ≡ true) ↔ ((not a ≡ true) × (not b ≡ true))
not-or_iff a b = ground arith

pub in_domain_iff :
    (key value : String) (n : Node)
    → (in_domain key value n ≡ true) ↔ (lookup key n.labels ≡ some value)
in_domain_iff key value n = elim (Option-cases (lookup key n.labels)) [
  | inl e ↦ ground arith
  | inr (v, e) ↦ ground (arith, eq_iff v value)
]

pods_in_domain-apart :
    (p : Pod → Bool) (key value : String) (m : PodsByNode) (nodes : List Node)
    → (not (any p (pods_in_domain key value m nodes)) ≡ true)
      ↔ All
          (λ n. lookup key n.labels ≡ some value → All (λ x. p x ≡ false) (pods_on n.name m))
          nodes
unfolding pods_in_domain
pods_in_domain-apart p key value m [] = (λ _. tt, λ _. refl)
pods_in_domain-apart p key value m (n ∷ ns) =
    let ih = pods_in_domain-apart p key value m ns in
    let here = in_domain_iff key value n in
    let pods = any-All-not p (pods_on n.name m) in
    let join = any-append p (pods_on n.name m) (pods_in_domain key value m ns) in
    elim (Bool-cases (in_domain key value n)) [
      | inl inside ↦
          rw (inside, join)
            (
              (λ e. ((λ _. pods.0 ((not-or_iff _ _).0 e).0), ih.0 ((not-or_iff _ _).0 e).1)),
              λ h. (not-or_iff _ _).1 (pods.1 (h.0 (here.0 inside)), ih.1 h.1),
            )
      | inr outside ↦ rw outside ((λ e. ((λ l. cc (outside, here.1 l)), ih.0 e)), λ h. ih.1 h.1)
    ]

anti_affinity_term_iff :
    (node : Node) (existing : List Pod) (nodes : List Node) (m : PodsByNode)
    (term : PodAffinityTerm)
    → (anti_affinity_term_holds node existing (some nodes) (some m) term ≡ true)
      ↔ KeepsApart node nodes m term
unfolding anti_affinity_term_holds
anti_affinity_term_iff node existing nodes m term =
    elim (Bool-cases (str_eq term.topology_key "")) [
      | inl no_key ↦
          let e : term.topology_key ≡ "" = (eq_iff term.topology_key "").0 no_key in
          rw no_key ((λ _ v n l. absurd (n e)), λ _. refl)
      | inr key ↦ elim (Option-cases (lookup term.topology_key node.labels)) [
        | inl missing ↦ ((λ _ v n l. cc), λ _. rw (anti_affinity_term_holds, key, missing))
        | inr (value, found) ↦
            let matches : Pod → Bool = λ p. pod_matches_affinity_term p term in
            let holds : anti_affinity_term_holds node existing (some nodes) (some m) term
                ≡ not (any matches (pods_in_domain term.topology_key value m nodes)) =
              rw (anti_affinity_term_holds, key, found) in
            let apart = pods_in_domain-apart matches term.topology_key value m nodes in
            (
              (λ e v n l.
                  let same : value ≡ v = cc in
                  subst
                    (λ w.
                      All
                        (λ x.
                          lookup term.topology_key x.labels ≡ some w
                          → All (λ p. matches p ≡ false) (pods_on x.name m))
                        nodes)
                    same (apart.0 (sym holds ∙ e))),
              λ k.
                  holds
                  ∙ apart.1 (k value (λ e. cc (key, (eq_iff term.topology_key "").1 e)) found),
            )
      ]
    ]

-- Given the nodes of the cluster and the pods on each, the anti-affinity check passes exactly if for
-- each of the pod's terms no pod on any node of the same topology domain matches it. A term that
-- names no key, or a key that the node does not carry, asks nothing.
pub anti_affinity-KeepsApart :
    (pod : Pod) (node : Node) (existing : List Pod) (nodes : List Node) (m : PodsByNode)
    → (satisfies_pod_anti_affinity pod node existing (some nodes) (some m) ≡ true)
      ↔ All (KeepsApart node nodes m) pod.pod_anti_affinity
unfolding satisfies_pod_anti_affinity
anti_affinity-KeepsApart pod node existing nodes m =
    all_iff (anti_affinity_term_iff node existing nodes m) pod.pod_anti_affinity
