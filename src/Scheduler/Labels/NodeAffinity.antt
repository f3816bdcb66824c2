-- ===== src/Scheduler/Labels/NodeAffinity.antt =====
-- The check of the node affinity against its rule.
use katalyst.Prelude.{
  String, ◌≡◌, refl, sym, ◌∙◌, ◌≢◌, ◌↔◌, inl, inr, true, Option, none, some, List, [], ◌∷◌, arith,
  str_eq, eq_iff, Bool-cases, Option-cases, subst, All, Any, all_iff, any_iff,
}
use katalyst.Prelude.GoMap.{lookup}
use katalyst.Prelude.Text.{codes, atoi, precedes}
use katalyst.Prelude.Words.{lt64}
use katalyst.Scheduler.Types.{
  Operator, op_in, op_not_in, op_exists, op_does_not_exist, op_gt, op_lt, other, Requirement,
  NodeSelectorTerm, Pod, Node,
}
use katalyst.Scheduler.Labels.{
  exceeds, requirement_holds, matches_node_selector_requirement, field_holds,
  matches_node_selector_field_requirement, matches_node_selector_term, matches_node_affinity,
}
use katalyst.Scheduler.Labels.Rules.{IsAbove, Meets, MeetsField, MeetsTerm, HasAffinity}
use katalyst.Scheduler.Labels.Values.{
  both_iff, holds_value_iff, lacks_some_iff, lacks_value_iff, none-All, none-Any, some_iff,
  some_injective, trans_iff,
}

exceeds_iff : (val bound : String) → (exceeds val bound ≡ true) ↔ IsAbove bound val
unfolding exceeds
exceeds_iff val bound = elim (Option-cases (atoi (codes val))) [
  | inl e ↦
      let as_texts : exceeds val bound ≡ precedes (codes bound) (codes val) = rw (exceeds, e) in
      (
        (λ h. inr (inl e, sym as_texts ∙ h)),
        λ k. elim k [ inl (x, y, number, _, _) ↦ cc | inr (_, h) ↦ as_texts ∙ h ],
      )
  | inr (x, e) ↦ elim (Option-cases (atoi (codes bound))) [
    | inl d ↦
        let as_texts : exceeds val bound ≡ precedes (codes bound) (codes val) =
          rw (exceeds, e, d) in
        (
          (λ h. inr (inr d, sym as_texts ∙ h)),
          λ k. elim k [ inl (a, b, _, number, _) ↦ cc | inr (_, h) ↦ as_texts ∙ h ],
        )
    | inr (y, d) ↦
        let as_numbers : exceeds val bound ≡ lt64 y x = rw (exceeds, e, d) in
        (
          (λ h. inl (x, y, e, d, sym as_numbers ∙ h)),
          λ k. elim k [
            | inl (a, b, p, q, h) ↦
                let same_val : x ≡ a = some_injective x a (sym e ∙ p) in
                let same_bound : y ≡ b = some_injective y b (sym d ∙ q) in cc
            | inr (inl none_val, _) ↦ cc
            | inr (inr none_bound, _) ↦ cc
          ],
        )
  ]
]

some_above_iff :
    (w : String) (P : String → Type 0)
    → P w ↔ ((u : String) × (◌≡◌ {A = Option String} (some w) (some u)) × P u)
some_above_iff w P = ((λ h. (w, refl, h)), λ (u, e, h). let same : u ≡ w = cc in subst P same h)

requirement_holds_iff :
    (op : Operator) (val : Option String) (values : List String)
    → (requirement_holds op val values ≡ true) ↔ Meets op val values
unfolding requirement_holds
requirement_holds_iff op_in none values = ((λ e. cc), λ h. absurd (none-Any values h))
requirement_holds_iff op_in (some w) values = any_iff (some_iff w) values
requirement_holds_iff op_not_in none values = ((λ _. none-All values), λ _. refl)
requirement_holds_iff op_not_in (some w) values = lacks_some_iff w values
requirement_holds_iff op_exists none values = ground arith
requirement_holds_iff op_exists (some w) values = ground arith
requirement_holds_iff op_does_not_exist none values = ground arith
requirement_holds_iff op_does_not_exist (some w) values = ground arith
requirement_holds_iff op_gt none [] = ((λ e. cc), λ h. absurd h)
requirement_holds_iff op_gt (some w) [] = ((λ e. cc), λ h. absurd h)
requirement_holds_iff op_gt none (v ∷ vs) = ((λ e. cc), λ (u, e, h). cc)
requirement_holds_iff op_gt (some w) (v ∷ vs) =
    trans_iff (exceeds_iff w v) (some_above_iff w (λ u. IsAbove v u))
requirement_holds_iff op_lt none [] = ((λ e. cc), λ h. absurd h)
requirement_holds_iff op_lt (some w) [] = ((λ e. cc), λ h. absurd h)
requirement_holds_iff op_lt none (v ∷ vs) = ((λ e. cc), λ (u, e, h). cc)
requirement_holds_iff op_lt (some w) (v ∷ vs) =
    trans_iff (exceeds_iff v w) (some_above_iff w (λ u. IsAbove u v))
requirement_holds_iff other val values = ((λ e. cc), λ h. absurd h)

field_holds_iff :
    (op : Operator) (name : String) (values : List String)
    → (field_holds op name values ≡ true)
      ↔ ((op ≡ op_in → Any (λ v. v ≡ name) values) × (op ≡ op_not_in → All (λ v. v ≢ name) values))
field_holds_iff op_in name values =
    let (there, back) = holds_value_iff name values in
    ((λ h. ((λ _. there h), λ e. cc)), λ k. back (k.0 refl))
field_holds_iff op_not_in name values =
    let (there, back) = lacks_value_iff name values in
    ((λ h. ((λ e. cc), λ _. there h)), λ k. back (k.1 refl))
field_holds_iff op_exists name values = ((λ _. ((λ e. cc), λ e. cc)), λ _. refl)
field_holds_iff op_does_not_exist name values = ((λ _. ((λ e. cc), λ e. cc)), λ _. refl)
field_holds_iff op_gt name values = ((λ _. ((λ e. cc), λ e. cc)), λ _. refl)
field_holds_iff op_lt name values = ((λ _. ((λ e. cc), λ e. cc)), λ _. refl)
field_holds_iff other name values = ((λ _. ((λ e. cc), λ e. cc)), λ _. refl)

MeetsField-iff :
    (node : Node) (req : Requirement)
    → (matches_node_selector_field_requirement req node ≡ true) ↔ MeetsField node req
unfolding matches_node_selector_field_requirement
MeetsField-iff node req =
    let (there, back) = field_holds_iff req.operator node.name req.values in
    elim (Bool-cases (str_eq req.key "metadata.name")) [
      | inl y ↦ rw y ((λ h _. there h), λ k. back (k ((eq_iff req.key "metadata.name").0 y)))
      | inr n ↦ rw n ((λ _ e. cc (n, (eq_iff req.key "metadata.name").1 e)), λ _. refl)
    ]

MeetsTerm-iff :
    (node : Node) (term : NodeSelectorTerm)
    → (matches_node_selector_term term node ≡ true) ↔ MeetsTerm node term
unfolding matches_node_selector_term matches_node_selector_requirement
MeetsTerm-iff node term =
    both_iff
      (all_iff (λ e. requirement_holds_iff e.operator (lookup e.key node.labels) e.values)
        term.match_expressions)
      (all_iff (MeetsField-iff node) term.match_fields)

-- The check of the node affinity decides the rule.
pub matches_node_affinity-HasAffinity :
    (pod : Pod) (node : Node) → (matches_node_affinity pod node ≡ true) ↔ HasAffinity pod node
unfolding matches_node_affinity
matches_node_affinity-HasAffinity pod node = elim (Option-cases pod.required_node_terms) [
  | inl e ↦ rw e ((λ _ terms d. cc), λ _. refl)
  | inr (terms, e) ↦
      let (there, back) = any_iff (MeetsTerm-iff node) terms in
      rw e (
        (λ h ts d. subst (Any (MeetsTerm node)) (some_injective terms ts d) (there h)),
        λ k. back (k terms refl),
      )
]
