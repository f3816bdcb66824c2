-- ===== src/WorkloadScaler/Grouping.antt =====
-- The map in which the coordinator gathers the recommendations of each workload.
use mathlib.Core.List.{append-nil, append_assoc}
use katalyst.Prelude.{
  String, ◌≡◌, refl, sym, ap, ◌∙◌, subst, inl, inr, Bool, true, Option, none, some, List, [], ◌∷◌,
  ◌++◌, arith, str_eq, eq_iff, Bool-cases, Option-cases, all, keep,
}
use katalyst.Prelude.GoMap.{GoMap, lookup, insert, lookup-insert}
use katalyst.WorkloadScaler.Coordinator.{Recommendation, target_key, add_to_target, group_by_target}

-- The recommendation is for the target with this key.
abbrev pub targets : String → Recommendation → Bool
targets k r = str_eq (target_key r) k

abbrev pub or_none : Option (List Recommendation) → List Recommendation
or_none none = []
or_none (some rs) = rs

lookup-add_to_target :
    (k : String) (r : Recommendation) (m : GoMap (List Recommendation))
    → or_none (lookup k (add_to_target r m)) ≡ or_none (lookup k m) ++ keep (targets k) (r ∷ [])
unfolding add_to_target
lookup-add_to_target k r m = elim (Option-cases (lookup (target_key r) m)) [
  | inl e ↦ ground (
    arith,
    e,
    eq_iff (target_key r) k,
    lookup-insert (target_key r) k (r ∷ []) m,
    append-nil (or_none (lookup k m)),
  )
  | inr (rs, e) ↦ ground (
    arith,
    e,
    eq_iff (target_key r) k,
    lookup-insert (target_key r) k (rs ++ r ∷ []) m,
    append-nil (or_none (lookup k m)),
  )
]

keep-cons :
    (k : String) (r : Recommendation) (rs : List Recommendation)
    → keep (targets k) (r ∷ rs) ≡ keep (targets k) (r ∷ []) ++ keep (targets k) rs
keep-cons k r rs = ground arith

pub lookup-group_by_target :
    (k : String) (rs : List Recommendation) (m : GoMap (List Recommendation))
    → or_none (lookup k (group_by_target rs m)) ≡ or_none (lookup k m) ++ keep (targets k) rs
unfolding group_by_target
lookup-group_by_target k [] m = ground (arith, append-nil (or_none (lookup k m)))
lookup-group_by_target k (r ∷ rs) m =
    lookup-group_by_target k rs (add_to_target r m)
    ∙ ap (λ us. us ++ keep (targets k) rs) (lookup-add_to_target k r m)
    ∙ append_assoc (or_none (lookup k m)) (keep (targets k) (r ∷ [])) (keep (targets k) rs)
    ∙ ap (λ us. or_none (lookup k m) ++ us) (sym (keep-cons k r rs))

-- Each key occurs once, over recommendations for its target.
abbrev pub IsGrouped : GoMap (List Recommendation) → Type 0
IsGrouped [] = Unit
IsGrouped ((k, rs) ∷ m) = (all (targets k) rs ≡ true) × (lookup k m ≡ none) × IsGrouped m

all-append :
    (p : Recommendation → Bool) (xs ys : List Recommendation)
    → all p xs ≡ true
    → all p ys ≡ true
    → all p (xs ++ ys) ≡ true
all-append p [] ys h k = k
all-append p (x ∷ xs) ys h k = ground (arith, all-append p xs ys)

IsGrouped-insert :
    (k : String) (rs : List Recommendation) (m : GoMap (List Recommendation))
    → all (targets k) rs ≡ true
    → IsGrouped m
    → IsGrouped (insert k rs m)
unfolding insert lookup
IsGrouped-insert k rs [] own h = (own, refl, tt)
IsGrouped-insert k rs ((j, us) ∷ m) own (theirs, fresh, h) = elim (Bool-cases (str_eq j k)) [
  | inl y ↦ rw y (own, subst (λ i. lookup i m ≡ none) ((eq_iff j k).0 y) fresh, h)
  | inr n ↦ rw n (
    theirs,
    ground (arith, n, fresh, eq_iff j k, eq_iff k j, lookup-insert k j rs m),
    IsGrouped-insert k rs m own h,
  )
]

lookup-IsGrouped :
    (k : String) (rs : List Recommendation) (m : GoMap (List Recommendation))
    → IsGrouped m
    → lookup k m ≡ some rs
    → all (targets k) rs ≡ true
unfolding lookup
lookup-IsGrouped k rs [] h e = cc
lookup-IsGrouped k rs ((j, us) ∷ m) (own, fresh, h) e = elim (Bool-cases (str_eq j k)) [
  | inl y ↦
      let found : some us ≡ some rs = rw y at e in
      let same : us ≡ rs = cc in
      subst (λ i. all (targets i) rs ≡ true) ((eq_iff j k).0 y)
        (subst (λ vs. all (targets j) vs ≡ true) same own)
  | inr n ↦ let found : lookup k m ≡ some rs = rw n at e in lookup-IsGrouped k rs m h found
]

IsGrouped-add_to_target :
    (r : Recommendation) (m : GoMap (List Recommendation))
    → IsGrouped m
    → IsGrouped (add_to_target r m)
unfolding add_to_target
IsGrouped-add_to_target r m h =
    let own : all (targets (target_key r)) (r ∷ []) ≡ true =
      ground (arith, eq_iff (target_key r) (target_key r)) in
    elim (Option-cases (lookup (target_key r) m)) [
      | inl e ↦ rw (add_to_target, e) (IsGrouped-insert (target_key r) (r ∷ []) m own h)
      | inr (rs, e) ↦
          rw (add_to_target, e)
            (IsGrouped-insert (target_key r) (rs ++ r ∷ []) m
              (all-append (targets (target_key r)) rs (r ∷ [])
                (lookup-IsGrouped (target_key r) rs m h e) own)
              h)
    ]

pub IsGrouped-group_by_target :
    (rs : List Recommendation) (m : GoMap (List Recommendation))
    → IsGrouped m
    → IsGrouped (group_by_target rs m)
unfolding group_by_target
IsGrouped-group_by_target [] m h = h
IsGrouped-group_by_target (r ∷ rs) m h =
    IsGrouped-group_by_target rs (add_to_target r m) (IsGrouped-add_to_target r m h)
