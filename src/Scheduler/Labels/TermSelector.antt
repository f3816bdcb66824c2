-- ===== src/Scheduler/Labels/TermSelector.antt =====
-- The test of a pod against the selector of an affinity term, and its rule.
use katalyst.Prelude.{
  String, ◌≡◌, refl, sym, ◌∙◌, ◌↔◌, ◌⊎◌, inl, inr, Bool, true, false, ◌&&◌, Option, none, some,
  List, [], ◌∷◌, arith, eq_iff, Option-cases, subst, all, Any, all_iff,
}
use katalyst.Prelude.GoMap.{lookup}
use katalyst.Scheduler.Types.{
  Operator, op_in, op_not_in, op_exists, op_does_not_exist, op_gt, op_lt, other, LabelSelector,
  PodAffinityTerm, Pod,
}
use katalyst.Scheduler.Labels.{
  or_empty, match_labels, term_label_holds, namespace_matches, pod_matches_affinity_term,
}
use katalyst.Scheduler.Labels.Rules.{TermMeets, Selects, IsSelected}
use katalyst.Scheduler.Labels.Values.{
  both_iff, holds_value_iff, lacks_some_iff, none-All, some_injective,
}

term_label_holds_iff :
    (op : Operator) (val : Option String) (values : List String)
    → (term_label_holds op val values ≡ true) ↔ TermMeets op val values
term_label_holds_iff op_in val values = holds_value_iff (or_empty val) values
term_label_holds_iff op_not_in none values = ((λ _. none-All values), λ _. refl)
term_label_holds_iff op_not_in (some w) values = lacks_some_iff w values
term_label_holds_iff op_exists none values = ground arith
term_label_holds_iff op_exists (some w) values = ground arith
term_label_holds_iff op_does_not_exist none values = ground arith
term_label_holds_iff op_does_not_exist (some w) values = ground arith
term_label_holds_iff op_gt val values = ((λ _. tt), λ _. refl)
term_label_holds_iff op_lt val values = ((λ _. tt), λ _. refl)
term_label_holds_iff other val values = ((λ _. tt), λ _. refl)

namespace_matches_iff :
    (ns : String) (listed : List String)
    → (namespace_matches ns listed ≡ true) ↔ ((listed ≡ []) ⊎ Any (λ n. n ≡ ns) listed)
namespace_matches_iff ns [] = ((λ _. inl refl), λ _. refl)
namespace_matches_iff ns (n ∷ listed) =
    let (there, back) = holds_value_iff ns (n ∷ listed) in
    ((λ h. inr (there h)), λ k. elim k [ inl e ↦ cc (e) | inr h ↦ back h ])

selector_iff :
    (term : PodAffinityTerm) (pod : Pod) (sel : LabelSelector)
    → ((namespace_matches pod.namespace term.namespaces
          && all
              (λ r. term_label_holds r.operator (lookup r.key pod.labels) r.values)
              sel.match_expressions
          && match_labels pod.labels sel.match_labels)
        ≡ true)
      ↔ Selects term pod sel
unfolding match_labels
selector_iff term pod sel =
    let (there, back) =
      both_iff
        (both_iff (namespace_matches_iff pod.namespace term.namespaces) (
          all_iff (λ r. term_label_holds_iff r.operator (lookup r.key pod.labels) r.values)
            sel.match_expressions))
        (all_iff (λ (k, v). eq_iff (or_empty (lookup k pod.labels)) v) sel.match_labels) in
    ((λ h. let ((a, b), c) = there h in (a, b, c)), λ (a, b, c). back ((a, b), c))

-- The test of a pod against a term decides the rule.
pub pod_matches_affinity_term-IsSelected :
    (term : PodAffinityTerm) (pod : Pod)
    → (pod_matches_affinity_term pod term ≡ true) ↔ IsSelected term pod
unfolding pod_matches_affinity_term match_labels
pod_matches_affinity_term-IsSelected term pod = elim (Option-cases term.label_selector) [
  | inl e ↦
      let unselected : pod_matches_affinity_term pod term ≡ false =
        rw (pod_matches_affinity_term, e) in
      ((λ h. cc), λ (sel, d, _). cc)
  | inr (sel, e) ↦
      let tests : Bool =
        namespace_matches pod.namespace term.namespaces
        && all (λ r. term_label_holds r.operator (lookup r.key pod.labels) r.values)
            sel.match_expressions
        && match_labels pod.labels sel.match_labels in
      let is_tests : pod_matches_affinity_term pod term ≡ tests =
        rw (pod_matches_affinity_term, e) in
      let (there, back) = selector_iff term pod sel in
      (
        (λ h. (sel, e, there (sym is_tests ∙ h))),
        λ (chosen, d, rest).
            is_tests
            ∙ back (subst (Selects term pod) (sym (some_injective sel chosen (sym e ∙ d))) rest),
      )
]
