-- ===== src/Scheduler/Spread/Rules.antt =====
-- What a topology spread constraint asks, with a view of the cluster or without one.
use katalyst.Prelude.{
  ℕ, ◌+◌, ◌≤◌, ◌<◌, String, ◌≡◌, refl, sym, ◌∙◌, subst, ◌≢◌, ◌↔◌, inl, inr, true, false, Option,
  none, some, List, [], ◌∷◌, arith, str_eq, eq_iff, ltb, not, if◌then◌else◌, Bool-cases,
  Option-cases, Bool, all, All,
}
use katalyst.Prelude.GoMap.{lookup}
use katalyst.Prelude.Words.{sign32, add32, add32_exact, lt32_exact}
use katalyst.Scheduler.Types.{LabelSelector, SpreadConstraint, Pod, Node}
use katalyst.Scheduler.Labels.{pod_matches_label_selector}
use katalyst.Scheduler.Topology.{PodsByNode}
use katalyst.Scheduler.Spread.{
  count_matching, spread_holds_across, spread_holds_on_node, spread_holds,
  satisfies_topology_spread_constraints,
}
use katalyst.Scheduler.Spread.Counts.{matching, in_domain_count}
use katalyst.Scheduler.Spread.Skew.{IsDomain, placed_count, spread_holds_across-skew}

-- The counts and the maximal skew stay below 2 ^ 31.
abbrev pub HasSmallCounts :
    List Pod → Option (List Node) → Option PodsByNode → SpreadConstraint → Type 0
HasSmallCounts existing nodes by_node c =
    (c.max_skew + 1 < sign32)
    × (matching c.label_selector existing + 1 < sign32)
    × ((ns : List Node) (m : PodsByNode) (j : String)
        → nodes ≡ some ns
        → by_node ≡ some m
        → in_domain_count c.label_selector c.topology_key j m ns + 1 < sign32)

-- With the new pod counted, no domain holds more matching pods than another by more than the maximal
-- skew; without a view of the cluster, the node holds at most the maximal skew of them before.
abbrev pub IsEven :
    SpreadConstraint → String → List Pod → Option (List Node) → Option PodsByNode → Type 0
IsEven c value existing (some ns) (some m) =
    (a b : String)
    → IsDomain c value ns a
    → IsDomain c value ns b
    → placed_count c value ns m a ≤ placed_count c value ns m b + c.max_skew
IsEven c value existing (some ns) none = matching c.label_selector existing ≤ c.max_skew
IsEven c value existing none by_node = matching c.label_selector existing ≤ c.max_skew

count_matching-matching :
    (sel : Option LabelSelector) (n : ℕ) (ps : List Pod)
    → n + matching sel ps < sign32
    → count_matching sel n ps ≡ n + matching sel ps
unfolding count_matching
count_matching-matching sel n [] h = omega arith
count_matching-matching sel n (p ∷ ps) h = elim (Bool-cases (pod_matches_label_selector p sel)) [
  | inl hit ↦
      let more : n + (1 + matching sel ps) < sign32 = ground (arith, hit) in
      let one : add32 n 1 ≡ n + 1 = add32_exact n 1 (omega (arith, more)) in
      let rest = count_matching-matching sel (n + 1) ps (omega (arith, more)) in
      rw (hit, one, rest) (omega arith)
  | inr miss ↦
      let few : n + matching sel ps < sign32 = ground (arith, miss) in
      rw (miss, count_matching-matching sel n ps few) (omega arith)
]

spread_holds_on_node_iff :
    (c : SpreadConstraint) (existing : List Pod)
    → c.max_skew + 1 < sign32
    → matching c.label_selector existing + 1 < sign32
    → (spread_holds_on_node c existing ≡ true) ↔ (matching c.label_selector existing ≤ c.max_skew)
unfolding spread_holds_on_node
spread_holds_on_node_iff c existing h k =
    let count = count_matching-matching c.label_selector 0 existing (omega arith) in
    let n : ℕ = matching c.label_selector existing in
    let total : count_matching c.label_selector 0 existing ≡ n = count ∙ (omega arith) in
    let skew = add32_exact c.max_skew 1 h in
    let placed = add32_exact n 1 k in
    let test = lt32_exact (c.max_skew + 1) (n + 1) h k in
    let holds : spread_holds_on_node c existing ≡ not (ltb (c.max_skew + 1) (n + 1)) =
      rw (spread_holds_on_node, total, skew, placed, test) in
    ground (arith, holds)

-- The last `if` of the check, in a domain.
abbrev spread_holds_in :
    List Pod → Option (List Node) → Option PodsByNode → SpreadConstraint → String → Bool
spread_holds_in existing (some ns) (some m) c value = spread_holds_across c value ns m
spread_holds_in existing (some ns) none c value = spread_holds_on_node c existing
spread_holds_in existing none by_node c value = spread_holds_on_node c existing

-- The guards of the check, on a hard constraint with a key that the node carries.
guards :
    (hard keyless : Bool) (o : Option String) (f : String → Bool) (value : String)
    → hard ≡ true
    → keyless ≡ false
    → o ≡ some value
    → (if not hard then true else if keyless then true else elim o [ none ↦ true | some v ↦ f v ])
      ≡ f value
guards hard keyless o f value h n e = rw (h, n, e)

spread_holds-in :
    (node : Node) (existing : List Pod) (nodes : Option (List Node)) (by_node : Option PodsByNode)
    (c : SpreadConstraint) (value : String)
    → c.do_not_schedule ≡ true
    → str_eq c.topology_key "" ≡ false
    → lookup c.topology_key node.labels ≡ some value
    → spread_holds node existing nodes by_node c ≡ spread_holds_in existing nodes by_node c value
unfolding spread_holds
spread_holds-in node existing (some ns) (some m) c value h n e =
    guards c.do_not_schedule (str_eq c.topology_key "") (lookup c.topology_key node.labels)
      (λ v. spread_holds_across c v ns m) value h n e
spread_holds-in node existing (some ns) none c value h n e =
    guards c.do_not_schedule (str_eq c.topology_key "") (lookup c.topology_key node.labels)
      (λ v. spread_holds_on_node c existing) value h n e
spread_holds-in node existing none by_node c value h n e =
    guards c.do_not_schedule (str_eq c.topology_key "") (lookup c.topology_key node.labels)
      (λ v. spread_holds_on_node c existing) value h n e

IsEven-iff :
    (existing : List Pod) (nodes : Option (List Node)) (by_node : Option PodsByNode)
    (c : SpreadConstraint) (value : String)
    → HasSmallCounts existing nodes by_node c
    → (spread_holds_in existing nodes by_node c value ≡ true)
      ↔ IsEven c value existing nodes by_node
IsEven-iff existing (some ns) (some m) c value (skew, own, all_counts) =
    spread_holds_across-skew c value ns m (λ j. all_counts ns m j refl refl) (omega arith)
IsEven-iff existing (some ns) none c value (skew, own, all_counts) =
    spread_holds_on_node_iff c existing skew own
IsEven-iff existing none by_node c value (skew, own, all_counts) =
    spread_holds_on_node_iff c existing skew own

all_where :
    {A : Type 0} (p : A → Bool) (P Q : A → Type 0)
    → ((x : A) → Q x → (p x ≡ true) ↔ P x)
    → (xs : List A) → All Q xs
    → (all p xs ≡ true) ↔ All P xs
all_where p P Q h [] k = ((λ _. tt), λ _. refl)
all_where p P Q h (x ∷ xs) (here, k) = ground (arith, h x here, all_where p P Q h xs k)

module _ (node : Node) (existing : List Pod) (nodes : Option (List Node))
    (by_node : Option PodsByNode) where
  -- A constraint that is not only a preference, with a key that the node carries.
  abbrev pub IsSpread : SpreadConstraint → Type 0
  IsSpread c =
      c.do_not_schedule ≡ true
      → c.topology_key ≢ ""
      → (value : String) → lookup c.topology_key node.labels ≡ some value
      → IsEven c value existing nodes by_node

  IsSpread-iff :
      (c : SpreadConstraint)
      → HasSmallCounts existing nodes by_node c
      → (spread_holds node existing nodes by_node c ≡ true) ↔ IsSpread c
  unfolding spread_holds
  IsSpread-iff c small = elim (Bool-cases c.do_not_schedule) [
    | inr soft ↦
        let holds : spread_holds node existing nodes by_node c ≡ true = rw (spread_holds, soft) in
        ((λ _ hard. cc), λ _. holds)
    | inl hard ↦ elim (Bool-cases (str_eq c.topology_key "")) [
      | inl y ↦
          let holds : spread_holds node existing nodes by_node c ≡ true =
            rw (spread_holds, hard, y) in
          ((λ _ _ named. absurd (named ((eq_iff c.topology_key "").0 y))), λ _. holds)
      | inr n ↦
          let named : c.topology_key ≢ "" = λ e. cc (n, (eq_iff c.topology_key "").1 e) in
          elim (Option-cases (lookup c.topology_key node.labels)) [
            | inl e ↦
                let holds : spread_holds node existing nodes by_node c ≡ true =
                  rw (spread_holds, hard, n, e) in
                ((λ _ _ _ value there. cc), λ _. holds)
            | inr (value, e) ↦
                let chosen = spread_holds-in node existing nodes by_node c value hard n e in
                let (there, back) = IsEven-iff existing nodes by_node c value small in
                (
                  (λ h _ _ w d.
                      let same : value ≡ w = cc in
                      subst (λ x. IsEven c x existing nodes by_node) same (there (sym chosen ∙ h))),
                  λ k. chosen ∙ back (k hard named value e),
                )
          ]
    ]
  ]

  -- The check decides the rule.
  pub satisfies_topology_spread_constraints-IsSpread :
      (pod : Pod)
      → All (HasSmallCounts existing nodes by_node) pod.spread_constraints
      → (satisfies_topology_spread_constraints pod node existing nodes by_node ≡ true)
        ↔ All IsSpread pod.spread_constraints
  unfolding satisfies_topology_spread_constraints
  satisfies_topology_spread_constraints-IsSpread pod small =
      all_where (spread_holds node existing nodes by_node) IsSpread
        (HasSmallCounts existing nodes by_node) IsSpread-iff pod.spread_constraints small
