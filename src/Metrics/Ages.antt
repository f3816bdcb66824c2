-- ===== src/Metrics/Ages.antt =====
-- Deleting the oldest keys from a map of series.
use katalyst.Prelude.{
  ℕ, zero, suc, ◌+◌, String, ◌≡◌, refl, sym, ap, ◌∙◌, subst, ◌≢◌, inl, inr, false, none, List, [],
  ◌∷◌, arith, str_eq, eq_iff, Bool-cases, length, take,
}
use katalyst.Prelude.GoMap.{
  GoMap, lookup, erase, retain, lookup-erase, erase-HasKeysOnce, HasKeysOnce,
}
use katalyst.Metrics.Store.{DataPoint, has_points, key_ages, insert_age, sort_ages, erase_all}

erase-absent : (k : String) (m : GoMap (List DataPoint)) → lookup k m ≡ none → erase k m ≡ m
unfolding lookup erase
erase-absent k [] h = refl
erase-absent k ((j, v) ∷ m) h = ground (arith, h, erase-absent k m)

-- Deleting a key that is there takes one entry away.
length-erase :
    (k : String) (m : GoMap (List DataPoint))
    → HasKeysOnce m
    → lookup k m ≢ none
    → length m ≡ suc (length (erase k m))
unfolding lookup erase
length-erase k [] once here = absurd (here refl)
length-erase k ((j, v) ∷ m) (fresh, once) here = elim (Bool-cases (str_eq j k)) [
  | inl y ↦
      let gone : lookup k m ≡ none = subst (λ x. lookup x m ≡ none) ((eq_iff j k).0 y) fresh in
      rw (y, erase-absent k m gone)
  | inr other ↦ rw other (ap suc (length-erase k m once (λ e. here (rw other e))))
]

present : (k : String) (t : ℕ) (ages : GoMap ℕ) → lookup k ((k, t) ∷ ages) ≢ none
unfolding lookup
present k t ages h = ground (arith, h, eq_iff k k)

-- The keys of the first map are among those of the second.
abbrev pub IsWithin : GoMap ℕ → GoMap (List DataPoint) → Type 0
IsWithin ages series = (k : String) → lookup k series ≡ none → lookup k ages ≡ none

-- Deleting some of the keys takes away as many entries.
pub length-erase_all :
    (ages : GoMap ℕ) (series : GoMap (List DataPoint))
    → HasKeysOnce ages
    → HasKeysOnce series
    → IsWithin ages series
    → length series ≡ length ages + length (erase_all ages series)
unfolding erase_all lookup
length-erase_all [] series a s h = omega arith
length-erase_all ((k, t) ∷ ages) series (fresh, a) s h =
    let here : lookup k series ≢ none = λ e. present k t ages (h k e) in
    let within : IsWithin ages (erase k series) = λ j e. elim (Bool-cases (str_eq k j)) [
      | inl y ↦ subst (λ x. lookup x ages ≡ none) ((eq_iff k j).0 y) fresh
      | inr other ↦
          let absent : lookup j series ≡ none = sym (lookup-erase k j series ∙ rw other) ∙ e in
          let unlisted : lookup j ((k, t) ∷ ages) ≡ none = h j absent in
          ground (arith, unlisted, other)
    ] in
    let ih = length-erase_all ages (erase k series) a (erase-HasKeysOnce k series s) within in
    let one = length-erase k series s here in omega (arith, ih, one)

-- Sorting and cutting keep the keys apart.
insert_age-none :
    (k j : String) (t : ℕ) (ages : GoMap ℕ)
    → str_eq k j ≡ false
    → lookup j ages ≡ none
    → lookup j (insert_age k t ages) ≡ none
unfolding lookup
insert_age-none k j t [] h e = rw h
insert_age-none k j t ((i, u) ∷ ages) h e = ground (arith, h, e, insert_age-none k j t ages h)

insert_age-HasKeysOnce :
    (k : String) (t : ℕ) (ages : GoMap ℕ)
    → lookup k ages ≡ none
    → HasKeysOnce ages
    → HasKeysOnce (insert_age k t ages)
unfolding lookup
insert_age-HasKeysOnce k t [] e h = (refl, tt)
insert_age-HasKeysOnce k t ((i, u) ∷ ages) e (fresh, h) = ground (
  arith,
  e,
  fresh,
  h,
  eq_iff i k,
  eq_iff k i,
  insert_age-none k i t ages,
  insert_age-HasKeysOnce k t ages,
)

length-insert_age :
    (k : String) (t : ℕ) (ages : GoMap ℕ) → length (insert_age k t ages) ≡ suc (length ages)
length-insert_age k t [] = refl
length-insert_age k t ((i, u) ∷ ages) = ground (arith, length-insert_age k t ages)

pub sort_ages-none :
    (j : String) (ages : GoMap ℕ) → lookup j ages ≡ none → lookup j (sort_ages ages) ≡ none
unfolding lookup sort_ages
sort_ages-none j [] e = refl
sort_ages-none j ((k, t) ∷ ages) e =
    ground (arith, e, sort_ages-none j ages, insert_age-none k j t (sort_ages ages))

pub sort_ages-HasKeysOnce : (ages : GoMap ℕ) → HasKeysOnce ages → HasKeysOnce (sort_ages ages)
unfolding sort_ages
sort_ages-HasKeysOnce [] h = tt
sort_ages-HasKeysOnce ((k, t) ∷ ages) (fresh, h) =
    insert_age-HasKeysOnce k t (sort_ages ages) (sort_ages-none k ages fresh)
      (sort_ages-HasKeysOnce ages h)

pub length-sort_ages : (ages : GoMap ℕ) → length (sort_ages ages) ≡ length ages
unfolding sort_ages
length-sort_ages [] = refl
length-sort_ages ((k, t) ∷ ages) =
    length-insert_age k t (sort_ages ages) ∙ ap suc (length-sort_ages ages)

pub take-none :
    (n : ℕ) (j : String) (ages : GoMap ℕ) → lookup j ages ≡ none → lookup j (take n ages) ≡ none
unfolding lookup
take-none zero j ages e = refl
take-none (suc n) j [] e = refl
take-none (suc n) j ((k, t) ∷ ages) e = ground (arith, e, take-none n j ages)

pub take-HasKeysOnce : (n : ℕ) (ages : GoMap ℕ) → HasKeysOnce ages → HasKeysOnce (take n ages)
take-HasKeysOnce zero ages h = tt
take-HasKeysOnce (suc n) [] h = tt
take-HasKeysOnce (suc n) ((k, t) ∷ ages) (fresh, h) =
    (take-none n k ages fresh, take-HasKeysOnce n ages h)

pub key_ages-IsWithin : (series : GoMap (List DataPoint)) → IsWithin (key_ages series) series
unfolding lookup key_ages
key_ages-IsWithin [] k e = refl
key_ages-IsWithin ((i, []) ∷ series) k e = ground (arith, e, key_ages-IsWithin series k)
key_ages-IsWithin ((i, p ∷ ps) ∷ series) k e = ground (arith, e, key_ages-IsWithin series k)

pub key_ages-HasKeysOnce :
    (series : GoMap (List DataPoint)) → HasKeysOnce series → HasKeysOnce (key_ages series)
unfolding key_ages
key_ages-HasKeysOnce [] h = tt
key_ages-HasKeysOnce ((i, []) ∷ series) (fresh, h) = key_ages-HasKeysOnce series h
key_ages-HasKeysOnce ((i, p ∷ ps) ∷ series) (fresh, h) =
    (key_ages-IsWithin series i fresh, key_ages-HasKeysOnce series h)

pub length-key_ages :
    (series : GoMap (List DataPoint))
    → length (key_ages (retain has_points series)) ≡ length (retain has_points series)
unfolding key_ages retain
length-key_ages [] = refl
length-key_ages ((i, []) ∷ series) = length-key_ages series
length-key_ages ((i, p ∷ ps) ∷ series) = ap suc (length-key_ages series)
