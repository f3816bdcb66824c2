-- ===== src/Scheduler/Labels/Rules.antt =====
-- What node affinity and the selector of an affinity term ask of labels, stated without the code's tests.
use katalyst.Prelude.{ℕ, String, ◌≡◌, ◌≢◌, ◌⊎◌, true, Option, none, some, List, [], ◌∷◌, All, Any}
use katalyst.Prelude.GoMap.{lookup}
use katalyst.Prelude.Text.{codes, atoi, precedes}
use katalyst.Prelude.Words.{lt64}
use katalyst.Scheduler.Types.{
  Operator, op_in, op_not_in, op_exists, op_does_not_exist, op_gt, op_lt, other, Requirement,
  NodeSelectorTerm, LabelSelector, PodAffinityTerm, Pod, Node,
}
use katalyst.Scheduler.Labels.{or_empty}

-- A value is above a bound: as integers if both are integers, and else as texts.
abbrev pub IsAbove : String → String → Type 0
IsAbove bound val =
    ((x : ℕ) × (y : ℕ) × (atoi (codes val) ≡ some x)
      × (atoi (codes bound) ≡ some y)
      × (lt64 y x ≡ true))
    ⊎ (((atoi (codes val) ≡ none) ⊎ (atoi (codes bound) ≡ none))
        × (precedes (codes bound) (codes val) ≡ true))

-- What a requirement asks of a label that may be missing.
abbrev pub Meets : Operator → Option String → List String → Type 0
Meets op_in val values = Any (λ v. val ≡ some v) values
Meets op_not_in val values = All (λ v. val ≢ some v) values
Meets op_exists val values = val ≢ none
Meets op_does_not_exist val values = val ≡ none
Meets op_gt val [] = ⊥
Meets op_gt val (v ∷ vs) = (w : String) × (val ≡ some w) × IsAbove v w
Meets op_lt val [] = ⊥
Meets op_lt val (v ∷ vs) = (w : String) × (val ≡ some w) × IsAbove w v
Meets other val values = ⊥

-- What a requirement on a field asks: only the field `metadata.name` and the operators `In` and `NotIn`
-- count.
abbrev pub MeetsField : Node → Requirement → Type 0
MeetsField node req =
    req.key ≡ "metadata.name"
    → (req.operator ≡ op_in → Any (λ v. v ≡ node.name) req.values)
      × (req.operator ≡ op_not_in → All (λ v. v ≢ node.name) req.values)

abbrev pub MeetsTerm : Node → NodeSelectorTerm → Type 0
MeetsTerm node term =
    All (λ e. Meets e.operator (lookup e.key node.labels) e.values) term.match_expressions
    × All (MeetsField node) term.match_fields

-- If the pod has required terms, the node meets one of them.
abbrev pub HasAffinity : Pod → Node → Type 0
HasAffinity pod node =
    (terms : List NodeSelectorTerm)
    → pod.required_node_terms ≡ some terms
    → Any (MeetsTerm node) terms

-- What an affinity term's selector asks of a label; here a missing label reads "" for `In`.
abbrev pub TermMeets : Operator → Option String → List String → Type 0
TermMeets op_in val values = Any (λ v. v ≡ or_empty val) values
TermMeets op_not_in val values = All (λ v. val ≢ some v) values
TermMeets op_exists val values = val ≢ none
TermMeets op_does_not_exist val values = val ≡ none
TermMeets _ val values = Unit

-- The term lists the pod's namespace or none, and the pod's labels meet every requirement and have every
-- value that is asked for.
abbrev pub Selects : PodAffinityTerm → Pod → LabelSelector → Type 0
Selects term pod sel =
    ((term.namespaces ≡ []) ⊎ Any (λ ns. ns ≡ pod.namespace) term.namespaces)
    × All (λ e. TermMeets e.operator (lookup e.key pod.labels) e.values) sel.match_expressions
    × All (λ (k, v). or_empty (lookup k pod.labels) ≡ v) sel.match_labels

-- A term without a selector selects no pod.
abbrev pub IsSelected : PodAffinityTerm → Pod → Type 0
IsSelected term pod =
    (sel : LabelSelector) × (term.label_selector ≡ some sel) × Selects term pod sel
