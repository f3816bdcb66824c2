-- ===== src/Prelude/GoMap.antt =====
-- Go's `map[string]V` as an association list. `insert` writes in place or at the end, `erase` is
-- `delete`, and `retain` is a loop that deletes while it ranges over the map. Go leaves the order
-- of iteration open: nothing that is proved of a `GoMap` depends on the order of its entries.
use Prim.Native.String.{String}
use mathlib.Core.Path.{◌≡◌, refl, ap, subst}
use mathlib.Core.Logic.{inl, inr}
use mathlib.Core.Bool.{Bool}
use mathlib.Core.Option.{Option, none, some}
use mathlib.Core.List.{List, [], ◌∷◌}
use native.Mathlib.Omega.{arith}
use text.Mathlib.Text.{◌==◌ as str_eq}
use text.Mathlib.TextEquality.{eq_iff}
use katalyst.Prelude.Tests.{if◌then◌else◌, Bool-cases}

abbrev pub GoMap {ℓ} : Type ℓ → Type ℓ
GoMap V = List (String × V)

module _ {ℓ} {V : Type ℓ} where
  unfoldable pub lookup : String → GoMap V → Option V
  lookup k [] = none
  lookup k ((j, v) ∷ m) = if str_eq j k then some v else lookup k m

  unfoldable pub insert : String → V → GoMap V → GoMap V
  insert k v [] = (k, v) ∷ []
  insert k v ((j, w) ∷ m) = if str_eq j k then (k, v) ∷ m else (j, w) ∷ insert k v m

  unfoldable pub erase : String → GoMap V → GoMap V
  erase k [] = []
  erase k ((j, v) ∷ m) = let rest = erase k m in if str_eq j k then rest else (j, v) ∷ rest

  unfoldable pub retain : (String → V → Bool) → GoMap V → GoMap V
  retain p [] = []
  retain p ((j, v) ∷ m) = let rest = retain p m in if p j v then (j, v) ∷ rest else rest

  -- No key occurs twice.
  abbrev pub HasKeysOnce : GoMap V → Type ℓ
  HasKeysOnce [] = Unit
  HasKeysOnce ((j, v) ∷ m) = (lookup j m ≡ none) × HasKeysOnce m

  -- Reading after a write gives the value written, under its key, and else what was there.
  pub lookup-insert :
      (written read : String) (v : V) (table : GoMap V)
      → lookup read (insert written v table)
        ≡ (if str_eq written read then some v else lookup read table)
  unfolding insert lookup
  lookup-insert written read v [] = refl
  lookup-insert written read v ((key, old) ∷ table) =
      let deeper = lookup-insert written read v table in
      ground (arith, deeper, eq_iff key written, eq_iff key read, eq_iff written read)

  pub lookup-erase :
      (k j : String) (m : GoMap V)
      → lookup j (erase k m) ≡ (if str_eq k j then none else lookup j m)
  unfolding lookup erase
  lookup-erase k j [] = ground arith
  lookup-erase k j ((i, w) ∷ m) =
      ground (arith, eq_iff k j, eq_iff i k, eq_iff i j, lookup-erase k j m)

  pub insert-HasKeysOnce :
      (k : String) (v : V) (m : GoMap V) → HasKeysOnce m → HasKeysOnce (insert k v m)
  unfolding lookup insert
  insert-HasKeysOnce k v [] h = (refl, tt)
  insert-HasKeysOnce k v ((i, w) ∷ m) h =
      ground (arith, eq_iff i k, eq_iff k i, lookup-insert k i v m, insert-HasKeysOnce k v m h.1)

  pub erase-HasKeysOnce : (k : String) (m : GoMap V) → HasKeysOnce m → HasKeysOnce (erase k m)
  unfolding lookup erase
  erase-HasKeysOnce k [] h = tt
  erase-HasKeysOnce k ((i, w) ∷ m) h =
      ground (arith, eq_iff k i, lookup-erase k i m, erase-HasKeysOnce k m h.1)

  lookup-retain-none :
      (p : String → V → Bool) (k : String) (m : GoMap V)
      → lookup k m ≡ none
      → lookup k (retain p m) ≡ none
  unfolding lookup retain
  lookup-retain-none p k [] h = refl
  lookup-retain-none p k ((i, w) ∷ m) h = ground (arith, lookup-retain-none p k m)

  -- A value that passes a test, else nothing.
  abbrev pub passing : (V → Bool) → Option V → Option V
  passing p none = none
  passing p (some v) = if p v then some v else none

  -- Deleting while ranging keeps exactly the entries that pass the test.
  pub lookup-retain :
      (p : String → V → Bool) (k : String) (m : GoMap V)
      → HasKeysOnce m
      → lookup k (retain p m) ≡ passing (p k) (lookup k m)
  unfolding lookup retain
  lookup-retain p k [] h = refl
  lookup-retain p k ((i, w) ∷ m) h = elim (Bool-cases (str_eq i k)) [
    | inl same ↦
        let e : i ≡ k = (eq_iff i k).0 same in
        let fresh : lookup k m ≡ none = subst (λ j. lookup j m ≡ none) e h.0 in
        let p_same : p i w ≡ p k w = ap (λ j. p j w) e in
        ground (arith, lookup-retain-none p k m fresh)
    | inr other ↦ ground (arith, lookup-retain p k m h.1)
  ]

  pub retain-HasKeysOnce :
      (p : String → V → Bool) (m : GoMap V) → HasKeysOnce m → HasKeysOnce (retain p m)
  unfolding retain
  retain-HasKeysOnce p [] h = tt
  retain-HasKeysOnce p ((i, w) ∷ m) h =
      ground (arith, retain-HasKeysOnce p m h.1, lookup-retain-none p i m)

pub ruleset map_laws = (lookup-insert, lookup-erase)
