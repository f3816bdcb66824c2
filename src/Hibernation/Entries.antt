-- ===== src/Hibernation/Entries.antt =====
-- The data that `saveState` writes: one entry for each count, under its prefix and its group.
use katalyst.Prelude.{
  ℕ, String, ◌≡◌, sym, ap, ◌∙◌, subst, inl, inr, false, Option, none, some, List, [], ◌∷◌, arith,
  str_eq, eq_iff, Bool-cases, Option-cases,
}
use katalyst.Prelude.GoMap.{GoMap, lookup, insert, lookup-insert, HasKeysOnce, insert-HasKeysOnce}
use katalyst.Prelude.Decimal.{print_int}
use katalyst.Prelude.Prefix.{prepend, strip_prefix, strip_prefix-prepend, strip_prefix-some}
use katalyst.Hibernation.{save_counts}

abbrev pub printed_or : Option (List ℕ) → Option ℕ → Option (List ℕ)
printed_or before none = before
printed_or before (some n) = some (print_int n)

-- What a map of counts adds to the data under a key.
abbrev pub written : GoMap ℕ → Option String → Option (List ℕ) → Option (List ℕ)
written counts none before = before
written counts (some id) before = printed_or before (lookup id counts)

pub strip_prefix-refuses :
    (prefix i key : String) → strip_prefix prefix key ≡ none → str_eq (prepend prefix i) key ≡ false
strip_prefix-refuses prefix i key h = elim (Bool-cases (str_eq (prepend prefix i) key)) [
  | inr n ↦ n
  | inl y ↦
      let same : prepend prefix i ≡ key = (eq_iff (prepend prefix i) key).0 y in
      let found : some i ≡ none =
        sym (strip_prefix-prepend prefix i) ∙ ap (strip_prefix prefix) same ∙ h in
      cc
]

pub prepend-eq :
    (prefix i key id : String)
    → strip_prefix prefix key ≡ some id
    → str_eq (prepend prefix i) key ≡ str_eq i id
prepend-eq prefix i key id h =
    let whole : prepend prefix id ≡ key = strip_prefix-some prefix key id h in
    elim (Bool-cases (str_eq (prepend prefix i) key)) [
      | inl y ↦
          let same : prepend prefix i ≡ key = (eq_iff (prepend prefix i) key).0 y in
          let found : some i ≡ some id =
            sym (strip_prefix-prepend prefix i) ∙ ap (strip_prefix prefix) same ∙ h in
          let e : i ≡ id = cc in ground (arith, y, e, eq_iff i id)
      | inr n ↦ elim (Bool-cases (str_eq i id)) [
        | inr m ↦ ground (arith, n, m)
        | inl y ↦
            let e : i ≡ id = (eq_iff i id).0 y in
            let same : prepend prefix i ≡ key = ap (prepend prefix) e ∙ whole in
            ground (arith, n, same, eq_iff (prepend prefix i) key)
      ]
    ]

pub lookup-save_counts :
    (prefix key : String) (counts : GoMap ℕ) (entries : GoMap (List ℕ))
    → HasKeysOnce counts
    → lookup key (save_counts prefix counts entries)
      ≡ written counts (strip_prefix prefix key) (lookup key entries)
unfolding save_counts lookup
lookup-save_counts prefix key [] entries h = elim (Option-cases (strip_prefix prefix key)) [
  | inl e ↦ rw e
  | inr (id, e) ↦ rw e
]
lookup-save_counts prefix key ((i, n) ∷ counts) entries (fresh, h) =
    let ih =
      lookup-save_counts prefix key counts (insert (prepend prefix i) (print_int n) entries) h in
    let at_key = lookup-insert (prepend prefix i) key (print_int n) entries in
    elim (Option-cases (strip_prefix prefix key)) [
      | inl e ↦ ih ∙ rw e (at_key ∙ rw (strip_prefix-refuses prefix i key e))
      | inr (id, e) ↦
          let own = prepend-eq prefix i key id e in
          elim (Bool-cases (str_eq i id)) [
            | inl y ↦
                let gone : lookup id counts ≡ none =
                  subst (λ k. lookup k counts ≡ none) ((eq_iff i id).0 y) fresh in
                ih ∙ rw (e, y, gone) (at_key ∙ rw (own ∙ y))
            | inr n ↦ ih ∙ rw (e, n) (ap (written counts (some id)) (at_key ∙ rw (own ∙ n)))
          ]
    ]

pub save_counts-HasKeysOnce :
    (prefix : String) (counts : GoMap ℕ) (entries : GoMap (List ℕ))
    → HasKeysOnce entries
    → HasKeysOnce (save_counts prefix counts entries)
unfolding save_counts
save_counts-HasKeysOnce prefix [] entries h = h
save_counts-HasKeysOnce prefix ((i, n) ∷ counts) entries h =
    save_counts-HasKeysOnce prefix counts (insert (prepend prefix i) (print_int n) entries)
      (insert-HasKeysOnce (prepend prefix i) (print_int n) entries h)
