-- ===== src/Scheduler/Labels.antt =====
-- internal/scheduler/simulator.go: the tests on labels, of nodes and of pods.
pub mod Agree
pub mod Rules
pub mod Values
pub mod NodeAffinity
pub mod TermSelector
use katalyst.Prelude.{
  ℕ, zero, suc, ◌+◌, ◌-◌, ◌*◌, ◌/◌, ◌%◌, ◌^◌, ◌≤◌, ◌<◌, String, ◌≡◌, refl, sym, ap, ◌∙◌, subst, ◌≢◌,
  ◌↔◌, ◌⊎◌, inl, inr, Bool, true, false, ◌&&◌, ◌||◌, not, Option, none, some, List, [], ◌∷◌, ◌++◌,
  map, reverse, arith, str_eq, eq_iff, ltb, leb, ◌==◌, if◌then◌else◌, ltb→lt, lt→ltb, leb→le,
  le→leb, ==_iff, tests, Bool-cases, Option-cases, is_some, &&_iff, not_iff, length, take, drop,
  get_elem?, set, all, any, keep, length-append, length-keep-le, length-take, length-drop, drop-set,
  take-set, length-set, get_elem?-drop, drop-length, drop-drop, drop-append, length-reverse,
  get_elem?-reverse, All, Any, all_iff, any_iff,
}
use katalyst.Prelude.GoMap.{GoMap, lookup}
use katalyst.Prelude.Text.{codes, atoi, precedes}
use katalyst.Prelude.Words.{lt64}
use katalyst.Scheduler.Types.{
  Operator, op_in, op_not_in, op_exists, op_does_not_exist, op_gt, op_lt, other, Requirement,
  NodeSelectorTerm, LabelSelector, PodAffinityTerm, Pod, Node,
}

-- The loops `for _, v := range values { if v == val { ... } }`.
abbrev pub holds_value : String → List String → Bool
holds_value val = any (λ v. str_eq v val)

-- A missing key of a `map[string]string` reads "".
abbrev pub or_empty : Option String → String
or_empty none = ""
or_empty (some v) = v

-- `labels[k] == v` for every entry of a selector, with "" for a missing label.
unfoldable pub match_labels : GoMap String → GoMap String → Bool
match_labels labels = all (λ (k, v). str_eq (or_empty (lookup k labels)) v)

-- `val > bound` and `val < bound` as integers, or as texts if one is no integer.
unfoldable pub exceeds : String → String → Bool
exceeds val bound = elim (atoi (codes val)) [
  | none ↦ precedes (codes bound) (codes val)
  | some v ↦ elim (atoi (codes bound)) [
    | none ↦ precedes (codes bound) (codes val)
    | some r ↦ lt64 r v
  ]
]

-- The `switch` of `matchesNodeSelectorRequirement` on the operator, the label and the values.
unfoldable pub requirement_holds : Operator → Option String → List String → Bool
requirement_holds op_in none values = false
requirement_holds op_in (some val) values = holds_value val values
requirement_holds op_not_in none values = true
requirement_holds op_not_in (some val) values = not (holds_value val values)
requirement_holds op_exists val values = is_some val
requirement_holds op_does_not_exist val values = not (is_some val)
requirement_holds op_gt none values = false
requirement_holds op_gt (some val) [] = false
requirement_holds op_gt (some val) (v ∷ vs) = exceeds val v
requirement_holds op_lt none values = false
requirement_holds op_lt (some val) [] = false
requirement_holds op_lt (some val) (v ∷ vs) = exceeds v val
requirement_holds other val values = false

unfoldable pub matches_node_selector_requirement : Requirement → GoMap String → Bool
unfolding requirement_holds
matches_node_selector_requirement req labels =
    requirement_holds req.operator (lookup req.key labels) req.values

abbrev pub field_holds : Operator → String → List String → Bool
field_holds op_in val values = holds_value val values
field_holds op_not_in val values = not (holds_value val values)
field_holds _ val values = true

unfoldable pub matches_node_selector_field_requirement : Requirement → Node → Bool
matches_node_selector_field_requirement req node =
    if str_eq req.key "metadata.name" then field_holds req.operator node.name req.values else true

unfoldable pub matches_node_selector_term : NodeSelectorTerm → Node → Bool
matches_node_selector_term term node =
    all (λ e. matches_node_selector_requirement e node.labels) term.match_expressions
    && all (λ e. matches_node_selector_field_requirement e node) term.match_fields

unfoldable pub matches_node_selector : Pod → Node → Bool
matches_node_selector pod node =
    all (λ (k, v). elim (lookup k node.labels) [ none ↦ false | some w ↦ str_eq w v ])
      pod.node_selector

unfoldable pub matches_node_affinity : Pod → Node → Bool
matches_node_affinity pod node = elim pod.required_node_terms [
  | none ↦ true
  | some terms ↦ any (λ t. matches_node_selector_term t node) terms
]

-- The `switch` of `podMatchesLabelSelector`.
abbrev pub label_holds : Operator → Option String → List String → Bool
label_holds op_in none values = false
label_holds op_in (some val) values = holds_value val values
label_holds op_not_in none values = true
label_holds op_not_in (some val) values = not (holds_value val values)
label_holds op_exists val values = is_some val
label_holds op_does_not_exist val values = not (is_some val)
label_holds _ val values = true

unfoldable pub pod_matches_label_selector : Pod → Option LabelSelector → Bool
unfolding match_labels
pod_matches_label_selector pod none = true
pod_matches_label_selector pod (some sel) =
    match_labels pod.labels sel.match_labels
    && all (λ e. label_holds e.operator (lookup e.key pod.labels) e.values) sel.match_expressions

-- The `switch` of `podMatchesAffinityTerm`: its `In` does not ask whether the label exists.
abbrev pub term_label_holds : Operator → Option String → List String → Bool
term_label_holds op_in val values = holds_value (or_empty val) values
term_label_holds op_not_in none values = true
term_label_holds op_not_in (some val) values = not (holds_value val values)
term_label_holds op_exists val values = is_some val
term_label_holds op_does_not_exist val values = not (is_some val)
term_label_holds _ val values = true

-- An empty list of namespaces filters nothing.
abbrev pub namespace_matches : String → List String → Bool
namespace_matches ns [] = true
namespace_matches ns (n ∷ ns') = holds_value ns (n ∷ ns')

unfoldable pub pod_matches_affinity_term : Pod → PodAffinityTerm → Bool
unfolding match_labels
pod_matches_affinity_term pod term = elim term.label_selector [
  | none ↦ false
  | some sel ↦
      namespace_matches pod.namespace term.namespaces
      && all (λ e. term_label_holds e.operator (lookup e.key pod.labels) e.values)
          sel.match_expressions
      && match_labels pod.labels sel.match_labels
]
