-- ===== src/Scheduler/Spread/Counts.antt =====
-- What the spread check over the whole cluster compares: the pods that match in each domain.
use katalyst.Prelude.{
  ℕ, ◌+◌, ◌%◌, ◌<◌, String, ◌≡◌, refl, ap, ◌∙◌, inl, inr, true, ◌||◌, Option, none, some, List, [],
  ◌∷◌, arith, str_eq, eq_iff, if◌then◌else◌, Bool-cases, Option-cases, is_some, any,
}
use katalyst.Prelude.GoMap.{GoMap, lookup, insert, lookup-insert, HasKeysOnce, insert-HasKeysOnce}
use katalyst.Prelude.Words.{add32, mod32}
use katalyst.Scheduler.Types.{LabelSelector, Pod, Node}
use katalyst.Scheduler.Labels.{pod_matches_label_selector}
use katalyst.Scheduler.Topology.{PodsByNode, pods_on, in_domain}
use katalyst.Scheduler.Spread.{or_zero, bump, count_pods, touch, count_domains}

-- The pods that match a selector, in a list and over the nodes of a domain.
abbrev pub matching : Option LabelSelector → List Pod → ℕ
matching sel [] = 0
matching sel (p ∷ ps) = (if pod_matches_label_selector p sel then 1 else 0) + matching sel ps

abbrev pub in_domain_count : Option LabelSelector → String → String → PodsByNode → List Node → ℕ
in_domain_count sel key dv m [] = 0
in_domain_count sel key dv m (n ∷ ns) =
    (elim (lookup key n.labels) [
      | none ↦ 0
      | some v ↦ if str_eq v dv then matching sel (pods_on n.name m) else 0
    ])
    + in_domain_count sel key dv m ns

pub bump-or_zero :
    (k j : String) (m : GoMap ℕ)
    → or_zero (lookup j (bump k m))
      ≡ (if str_eq k j then (or_zero (lookup k m) + 1) % mod32 else or_zero (lookup j m))
unfolding bump add32
bump-or_zero k j m = ground (arith, lookup-insert k j (add32 (or_zero (lookup k m)) 1) m)

pub bump-is_some :
    (k j : String) (m : GoMap ℕ)
    → is_some (lookup j (bump k m)) ≡ (str_eq k j || is_some (lookup j m))
unfolding bump
bump-is_some k j m = ground (arith, lookup-insert k j (add32 (or_zero (lookup k m)) 1) m)

count_pods-or_zero :
    (sel : Option LabelSelector) (dv j : String) (ps : List Pod) (m : GoMap ℕ)
    → or_zero (lookup j m) < mod32
    → or_zero (lookup j (count_pods sel dv ps m)) ≡ (
        if str_eq dv j
        then (or_zero (lookup j m) + matching sel ps) % mod32
        else or_zero (lookup j m))
unfolding count_pods
count_pods-or_zero sel dv j [] m h = ground arith
count_pods-or_zero sel dv j (p ∷ ps) m h = elim (Bool-cases (pod_matches_label_selector p sel)) [
  | inl hit ↦
      let next = bump-or_zero dv j m in
      let small : or_zero (lookup j (bump dv m)) < mod32 = ground (arith, next) in
      rw hit (count_pods-or_zero sel dv j ps (bump dv m) small ∙ ground (arith, next, eq_iff dv j))
  | inr miss ↦ rw miss (count_pods-or_zero sel dv j ps m h ∙ ground arith)
]

count_pods-is_some :
    (sel : Option LabelSelector) (dv j : String) (ps : List Pod) (m : GoMap ℕ)
    → is_some (lookup dv m) ≡ true
    → is_some (lookup j (count_pods sel dv ps m)) ≡ is_some (lookup j m)
unfolding count_pods bump
count_pods-is_some sel dv j [] m h = refl
count_pods-is_some sel dv j (p ∷ ps) m h = elim (Bool-cases (pod_matches_label_selector p sel)) [
  | inl hit ↦ rw hit (count_pods-is_some sel dv j ps (bump dv m) (bumped dv) ∙ same j)
  | inr miss ↦ rw miss (count_pods-is_some sel dv j ps m h)
]
  where
    same : (k : String) → is_some (lookup k (bump dv m)) ≡ is_some (lookup k m)
    same k = ground (arith, eq_iff dv k, lookup-insert dv k (add32 (or_zero (lookup dv m)) 1) m)

    bumped : (k : String) → is_some (lookup dv (bump dv m)) ≡ true
    bumped k = same dv ∙ h

touch-lookup :
    (dv j : String) (m : GoMap ℕ)
    → (or_zero (lookup j (touch dv m)) ≡ or_zero (lookup j m))
      × (is_some (lookup j (touch dv m)) ≡ (str_eq dv j || is_some (lookup j m)))
unfolding touch
touch-lookup dv j m = elim (Option-cases (lookup dv m)) [
  | inl e ↦ ground (arith, eq_iff dv j, lookup-insert dv j 0 m)
  | inr (n, e) ↦ ground (arith, eq_iff dv j)
]

-- The loop over the nodes: a domain's count, below 2 ^ 32, and which domains there are.
pub count_domains-lookup :
    (sel : Option LabelSelector) (key : String) (by_node : PodsByNode) (j : String) (ns : List Node)
    (m : GoMap ℕ)
    → or_zero (lookup j m) < mod32
    → (or_zero (lookup j (count_domains sel key by_node ns m))
        ≡ (or_zero (lookup j m) + in_domain_count sel key j by_node ns) % mod32)
      × (is_some (lookup j (count_domains sel key by_node ns m))
          ≡ (is_some (lookup j m) || any (in_domain key j) ns))
unfolding count_domains
count_domains-lookup sel key by_node j [] m h = ground arith
count_domains-lookup sel key by_node j (n ∷ ns) m h = elim (Option-cases (lookup key n.labels)) [
  | inl e ↦
      let ih = count_domains-lookup sel key by_node j ns m h in
      let skip : count_domains sel key by_node (n ∷ ns) m ≡ count_domains sel key by_node ns m =
        rw (count_domains, e) in
      (
        ap (λ c. or_zero (lookup j c)) skip ∙ ih.0 ∙ ground arith,
        ap (λ c. is_some (lookup j c)) skip ∙ ih.1 ∙ ground arith,
      )
  | inr (dv, e) ↦
      let touched = touch-lookup dv j m in
      let own : is_some (lookup dv (touch dv m)) ≡ true =
        ground (arith, touch-lookup dv dv m, eq_iff dv dv) in
      let pods = pods_on n.name by_node in
      let counted = count_pods-or_zero sel dv j pods (touch dv m) (ground arith) in
      let there = count_pods-is_some sel dv j pods (touch dv m) own in
      let ih =
        count_domains-lookup sel key by_node j ns (count_pods sel dv pods (touch dv m))
          (ground arith) in
      let step : count_domains sel key by_node (n ∷ ns) m
          ≡ count_domains sel key by_node ns (count_pods sel dv pods (touch dv m)) =
        rw (count_domains, e) in
      (
        ap (λ c. or_zero (lookup j c)) step ∙ ih.0 ∙ ground (arith, touched.0, counted),
        ap (λ c. is_some (lookup j c)) step ∙ ih.1 ∙ ground (arith, touched.1, there),
      )
]

count_pods-HasKeysOnce :
    (sel : Option LabelSelector) (dv : String) (ps : List Pod) (m : GoMap ℕ)
    → HasKeysOnce m
    → HasKeysOnce (count_pods sel dv ps m)
unfolding count_pods bump
count_pods-HasKeysOnce sel dv [] m h = h
count_pods-HasKeysOnce sel dv (p ∷ ps) m h = elim (Bool-cases (pod_matches_label_selector p sel)) [
  | inl hit ↦ rw hit (count_pods-HasKeysOnce sel dv ps (bump dv m) (insert-HasKeysOnce dv _ m h))
  | inr miss ↦ rw miss (count_pods-HasKeysOnce sel dv ps m h)
]

pub count_domains-HasKeysOnce :
    (sel : Option LabelSelector) (key : String) (by_node : PodsByNode) (ns : List Node)
    (m : GoMap ℕ)
    → HasKeysOnce m
    → HasKeysOnce (count_domains sel key by_node ns m)
unfolding count_domains touch
count_domains-HasKeysOnce sel key by_node [] m h = h
count_domains-HasKeysOnce sel key by_node (n ∷ ns) m h =
    count_domains-HasKeysOnce sel key by_node ns _ (step (lookup key n.labels))
  where
    touched :
        (dv : String) (found : Option ℕ)
        → HasKeysOnce (elim found as (λ _. GoMap ℕ) [ none ↦ insert dv 0 m | some k ↦ m ])
    touched dv none = insert-HasKeysOnce dv 0 m h
    touched dv (some k) = h

    step :
        (label : Option String)
        → HasKeysOnce (elim label as (λ _. GoMap ℕ) [
          | none ↦ m
          | some dv ↦ count_pods sel dv (pods_on n.name by_node) (touch dv m)
        ])
    step none = h
    step (some dv) =
        count_pods-HasKeysOnce sel dv (pods_on n.name by_node) (touch dv m)
          (touched dv (lookup dv m))
