-- ===== src/Scheduler/Labels/Agree.antt =====
-- The two readings of a label selector in simulator.go: that of a spread constraint, and that of an
-- affinity term.
use katalyst.Prelude.{
  String, ◌≡◌, refl, true, false, ◌&&◌, Option, none, some, List, [], ◌∷◌, arith, all, All,
}
use katalyst.Prelude.GoMap.{GoMap, lookup}
use katalyst.Scheduler.Types.{
  Operator, op_in, op_not_in, op_exists, op_does_not_exist, op_gt, op_lt, other, Requirement,
  LabelSelector, PodAffinityTerm, Pod,
}
use katalyst.Scheduler.Labels.{
  holds_value, label_holds, term_label_holds, namespace_matches, pod_matches_label_selector,
  pod_matches_affinity_term,
}

-- An `In` requirement that does not list the empty text.
abbrev pub HasNoEmptyIn : Requirement → Type 0
HasNoEmptyIn e = e.operator ≡ op_in → holds_value "" e.values ≡ false

term_label_holds-label_holds :
    (op : Operator) (val : Option String) (values : List String)
    → (op ≡ op_in → holds_value "" values ≡ false)
    → term_label_holds op val values ≡ label_holds op val values
term_label_holds-label_holds op_in none values h = h refl
term_label_holds-label_holds op_in (some v) values h = refl
term_label_holds-label_holds op_not_in none values h = refl
term_label_holds-label_holds op_not_in (some v) values h = refl
term_label_holds-label_holds op_exists val values h = refl
term_label_holds-label_holds op_does_not_exist val values h = refl
term_label_holds-label_holds op_gt val values h = refl
term_label_holds-label_holds op_lt val values h = refl
term_label_holds-label_holds other val values h = refl

all-agree :
    (labels : GoMap String) (es : List Requirement)
    → All HasNoEmptyIn es
    → all (λ e. term_label_holds e.operator (lookup e.key labels) e.values) es
      ≡ all (λ e. label_holds e.operator (lookup e.key labels) e.values) es
all-agree labels [] h = refl
all-agree labels (e ∷ es) h = rw (
  term_label_holds-label_holds e.operator (lookup e.key labels) e.values h.0,
  all-agree labels es h.1,
)

-- An affinity term with a selector matches a pod exactly if the namespace is listed, or none is,
-- and the selector matches the pod as a spread constraint's would, provided that no `In`
-- requirement of the selector lists the empty text.
pub affinity_term-selector :
    (pod : Pod) (term : PodAffinityTerm) (sel : LabelSelector)
    → term.label_selector ≡ some sel
    → All HasNoEmptyIn sel.match_expressions
    → pod_matches_affinity_term pod term ≡ (
        namespace_matches pod.namespace term.namespaces
        && pod_matches_label_selector pod (some sel))
unfolding pod_matches_affinity_term pod_matches_label_selector
affinity_term-selector pod term sel e h =
    rw e (ground (arith, all-agree pod.labels sel.match_expressions h))

-- Where the selector is one `In` requirement that does list the empty text, and the term names no
-- namespace, a pod that lacks the label matches the affinity term and does not match the same
-- selector in a spread constraint.
pub affinity_term-missing_label :
    (pod : Pod) (term : PodAffinityTerm) (e : Requirement)
    → term.label_selector ≡ some (record { match_labels = []; match_expressions = e ∷ [] })
    → term.namespaces ≡ []
    → e.operator ≡ op_in
    → holds_value "" e.values ≡ true
    → lookup e.key pod.labels ≡ none
    → (pod_matches_affinity_term pod term ≡ true)
      × (pod_matches_label_selector pod term.label_selector ≡ false)
unfolding pod_matches_affinity_term pod_matches_label_selector
affinity_term-missing_label pod term e s n o v l = ground arith
