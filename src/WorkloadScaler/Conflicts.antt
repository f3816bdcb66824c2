-- ===== src/WorkloadScaler/Conflicts.antt =====
-- What the coordinator does with the recommendations of each workload.
use mathlib.Core.List.{append-nil}
use katalyst.Prelude.{
  String, ◌≡◌, refl, sym, ap, ◌∙◌, subst, inl, inr, Bool, true, false, ◌&&◌, none, some, List, [],
  ◌∷◌, ◌++◌, arith, str_eq, eq_iff, if◌then◌else◌, Bool-cases, all, any, keep,
}
use katalyst.Prelude.GoMap.{GoMap, lookup}
use katalyst.WorkloadScaler.Coordinator.{
  Recommendation, target_key, is_horizontal, is_vertical, group_by_target, stage, resolve_target,
  resolve_all, resolve,
}
use katalyst.WorkloadScaler.Grouping.{
  targets, or_none, IsGrouped, lookup-group_by_target, IsGrouped-group_by_target,
}

-- Resolving keeps the targets.
all-stage :
    (k : String) (rs : List Recommendation)
    → all (targets k) rs ≡ true
    → all (targets k) (stage rs) ≡ true
unfolding stage target_key
all-stage k [] h = refl
all-stage k (r ∷ rs) h = ground (arith, all-stage k rs)

all-resolve_target :
    (k : String) (rs : List Recommendation)
    → all (targets k) rs ≡ true
    → all (targets k) (resolve_target rs) ≡ true
unfolding resolve_target
all-resolve_target k rs h = ground (arith, all-stage k rs)

keep-all :
    (j k : String) (rs : List Recommendation)
    → all (targets j) rs ≡ true
    → keep (targets k) rs ≡ (if str_eq j k then rs else [])
keep-all j k [] h = ground arith
keep-all j k (r ∷ rs) h =
    ground (arith, keep-all j k rs, eq_iff (target_key r) j, eq_iff (target_key r) k, eq_iff j k)

keep-append :
    (k : String) (xs ys : List Recommendation)
    → keep (targets k) (xs ++ ys) ≡ keep (targets k) xs ++ keep (targets k) ys
keep-append k [] ys = refl
keep-append k (x ∷ xs) ys = ground (arith, keep-append k xs ys)

resolve_target-nil : resolve_target [] ≡ []
unfolding resolve_target
resolve_target-nil = refl

keep-resolve_all :
    (k : String) (m : GoMap (List Recommendation))
    → IsGrouped m
    → keep (targets k) (resolve_all m) ≡ resolve_target (or_none (lookup k m))
unfolding resolve_all lookup
keep-resolve_all k [] h = sym resolve_target-nil
keep-resolve_all k ((j, rs) ∷ m) (own, fresh, h) =
    let ih = keep-resolve_all k m h in
    let apart = keep-append k (resolve_target rs) (resolve_all m) in
    let first = keep-all j k (resolve_target rs) (all-resolve_target j rs own) in
    elim (Bool-cases (str_eq j k)) [
      | inl y ↦
          let gone : lookup k m ≡ none = subst (λ i. lookup i m ≡ none) ((eq_iff j k).0 y) fresh in
          let rest : keep (targets k) (resolve_all m) ≡ [] =
            ih ∙ ap (λ o. resolve_target (or_none o)) gone ∙ resolve_target-nil in
          let all_here : keep (targets k) (resolve_target rs) ≡ resolve_target rs = first ∙ rw y in
          rw y (
            apart
            ∙ ap (λ xs. xs ++ keep (targets k) (resolve_all m)) all_here
            ∙ ap (λ xs. resolve_target rs ++ xs) rest
            ∙ append-nil (resolve_target rs))
      | inr n ↦
          let none_here : keep (targets k) (resolve_target rs) ≡ [] = first ∙ rw n in
          rw n (apart ∙ ap (λ xs. xs ++ keep (targets k) (resolve_all m)) none_here ∙ ih)
    ]

-- The recommendations that come out for a workload are those that went in for it, in their order: all
-- of them unless there are both kinds; then the vertical ones, the horizontal ones deferred, and no
-- others.
pub resolve-target :
    (k : String) (recs : List Recommendation)
    → keep (targets k) (resolve recs) ≡ resolve_target (keep (targets k) recs)
unfolding resolve lookup
resolve-target k recs =
    keep-resolve_all k (group_by_target recs []) (IsGrouped-group_by_target recs [] tt)
    ∙ ap resolve_target (lookup-group_by_target k recs [])

-- A recommendation that would be executed as horizontal scaling.
abbrev pub scales_out : Recommendation → Bool
scales_out r = is_horizontal r && r.auto_executable

is_vertical-is_horizontal : (r : Recommendation) → is_vertical r ≡ true → is_horizontal r ≡ false
unfolding is_vertical is_horizontal
is_vertical-is_horizontal r h =
    subst (λ t. str_eq t "horizontal" ≡ false)
      (sym (
        (eq_iff (elim (lookup "scalingType" r.details) [ none ↦ "" | some v ↦ v ]) "vertical").0 h))
      refl

without_horizontal :
    (rs : List Recommendation) → any is_horizontal rs ≡ false → any scales_out rs ≡ false
without_horizontal [] h = refl
without_horizontal (r ∷ rs) h = ground (arith, without_horizontal rs)

stage-scales_out : (rs : List Recommendation) → any scales_out (stage rs) ≡ false
unfolding stage
stage-scales_out [] = refl
stage-scales_out (r ∷ rs) =
    let ih = stage-scales_out rs in
    elim (Bool-cases (is_vertical r)) [
      | inl v ↦ ground (arith, v, ih, is_vertical-is_horizontal r v)
      | inr v ↦ elim (Bool-cases (is_horizontal r)) [
        | inl y ↦ ground (arith, v, y, ih)
        | inr n ↦ ground (arith, v, n, ih)
      ]
    ]

-- If there is a vertical recommendation for a workload, none that comes out for it is executed as
-- horizontal scaling.
pub resolve-exclusive :
    (k : String) (recs : List Recommendation)
    → any is_vertical (keep (targets k) recs) ≡ true
    → any scales_out (keep (targets k) (resolve recs)) ≡ false
unfolding resolve_target
resolve-exclusive k recs h =
    let mine : List Recommendation = keep (targets k) recs in
    ap (any scales_out) (resolve-target k recs) ∙ elim (Bool-cases (any is_horizontal mine)) [
      | inl y ↦ rw (resolve_target, y, h) (stage-scales_out mine)
      | inr n ↦ rw (resolve_target, n) (without_horizontal mine n)
    ]
