-- ===== src/FamilyLock/Families/Extract.antt =====
-- What the family of an instance type is.
use katalyst.Prelude.{
  ℕ, ◌≡◌, refl, sym, ap, ◌∙◌, ◌↔◌, inl, inr, true, false, Option, none, some, List, [], ◌∷◌, ◌++◌,
  arith, ◌==◌, ==_iff, Bool-cases,
}
use katalyst.FamilyLock.Families.{
  split_once, push_first, split, join, without_last, contains, gcp_of_parts, extract_family,
  is_empty, azure_family, list_eq,
}

split_once-first :
    (sep : ℕ) (a b : List ℕ) → contains sep a ≡ false → split_once sep (a ++ sep ∷ b) ≡ some (a, b)
unfolding split_once
split_once-first sep [] b h = ground arith
split_once-first sep (c ∷ a) b h =
    let ih = split_once-first sep a b (ground arith) in
    let differs : (c == sep) ≡ false = ground arith in rw (differs, ih)

split_once-none : (sep : ℕ) (s : List ℕ) → contains sep s ≡ false → split_once sep s ≡ none
unfolding split_once
split_once-none sep [] h = refl
split_once-none sep (c ∷ s) h =
    let ih = split_once-none sep s (ground arith) in
    let differs : (c == sep) ≡ false = ground arith in rw (differs, ih)

-- The AWS form: the family is the text before the first dot.
pub extract_family-dot :
    (family size : List ℕ)
    → contains b'.' family ≡ false
    → extract_family (family ++ b'.' ∷ size) ≡ some family
unfolding extract_family
extract_family-dot family size h =
    let filled : is_empty (family ++ b'.' ∷ size) ≡ false = not_empty family in
    rw (filled, split_once-first b'.' family size h)
  where
    not_empty : (f : List ℕ) → is_empty (f ++ b'.' ∷ size) ≡ false
    not_empty [] = refl
    not_empty (c ∷ f) = refl

-- A text is its parts, joined again.
join-push_first : (sep c : ℕ) (ps : List (List ℕ)) → join sep (push_first c ps) ≡ c ∷ join sep ps
unfolding join
join-push_first sep c [] = refl
join-push_first sep c (p ∷ []) = refl
join-push_first sep c (p ∷ q ∷ ps) = refl

-- `split` never returns an empty list.
split-cons : (sep : ℕ) (s : List ℕ) → (p : List ℕ) × (ps : List (List ℕ)) × (split sep s ≡ p ∷ ps)
unfolding split
split-cons sep [] = ([], [], refl)
split-cons sep (c ∷ s) =
    let (p, ps, e) = split-cons sep s in
    elim (Bool-cases (c == sep)) [
      | inl hit ↦ ([], split sep s, rw hit)
      | inr miss ↦ (c ∷ p, ps, rw (miss, e))
    ]

join-empty_first :
    (sep : ℕ) (qs : List (List ℕ)) (p : List ℕ) (ps : List (List ℕ))
    → qs ≡ p ∷ ps
    → join sep ([] ∷ qs) ≡ sep ∷ join sep qs
unfolding join
join-empty_first sep qs p ps e = rw e

join-split : (sep : ℕ) (s : List ℕ) → join sep (split sep s) ≡ s
unfolding split
join-split sep [] = unfold join in refl
join-split sep (c ∷ s) =
    let ih = join-split sep s in
    let (p, ps, e) = split-cons sep s in
    elim (Bool-cases (c == sep)) [
      | inl hit ↦
          let step : split sep (c ∷ s) ≡ [] ∷ split sep s = rw hit in
          let same : c ≡ sep = (==_iff c sep).0 hit in
          ap (join sep) step ∙ join-empty_first sep (split sep s) p ps e ∙ cc
      | inr miss ↦ rw (miss, join-push_first sep c (split sep s), ih)
    ]

split-none : (sep : ℕ) (s : List ℕ) → contains sep s ≡ false → split sep s ≡ s ∷ []
unfolding split
split-none sep [] h = refl
split-none sep (c ∷ s) h =
    let ih = split-none sep s (ground arith) in
    let differs : (c == sep) ≡ false = ground arith in rw (differs, ih)

split-append :
    (sep : ℕ) (a b : List ℕ)
    → contains sep b ≡ false
    → split sep (a ++ sep ∷ b) ≡ split sep a ++ b ∷ []
unfolding split
split-append sep [] b h =
    let own : (sep == sep) ≡ true = ground arith in rw (own, split-none sep b h)
split-append sep (c ∷ a) b h =
    let ih = split-append sep a b h in
    let (p, ps, e) = split-cons sep a in
    elim (Bool-cases (c == sep)) [ inl hit ↦ rw (hit, ih) | inr miss ↦ rw (miss, ih, e) ]

contains-append : (sep : ℕ) (a b : List ℕ) → contains sep (a ++ sep ∷ b) ≡ true
contains-append sep [] b = ground arith
contains-append sep (c ∷ a) b = ground (arith, contains-append sep a b)

without_last-append :
    (p : List ℕ) (ps : List (List ℕ)) (b : List ℕ) → without_last (p ∷ (ps ++ b ∷ [])) ≡ p ∷ ps
without_last-append p [] b = refl
without_last-append p (q ∷ ps) b = ap (◌∷◌ p) (without_last-append q ps b)

-- By the parts: the text before the last dash.
gcp_of_parts-append :
    (otherwise : Option (List ℕ)) (p : List ℕ) (ps : List (List ℕ)) (b : List ℕ)
    → gcp_of_parts otherwise (p ∷ (ps ++ b ∷ [])) ≡ some (join b'-' (p ∷ ps))
unfolding join
gcp_of_parts-append otherwise p [] b = refl
gcp_of_parts-append otherwise p (q ∷ []) b = refl
gcp_of_parts-append otherwise p (q ∷ r ∷ ps) b =
    ap (λ qs. some (join b'-' (p ∷ q ∷ qs))) (without_last-append r ps b)

-- The GCP form: of any text with no dot and with a dash, the family is what stands before the last
-- dash. That holds also of a text that begins with "Standard_": an Azure size with a dash is cut at
-- the dash, and not at its letters and version.
pub extract_family-dash :
    (family size : List ℕ)
    → contains b'.' (family ++ b'-' ∷ size) ≡ false
    → contains b'-' size ≡ false
    → extract_family (family ++ b'-' ∷ size) ≡ some family
unfolding extract_family
extract_family-dash family size no_dot no_dash =
    let s : List ℕ = family ++ b'-' ∷ size in
    let filled : is_empty s ≡ false = not_empty family in
    let (p, ps, e) = split-cons b'-' family in
    let parts : split b'-' s ≡ p ∷ (ps ++ size ∷ []) =
      split-append b'-' family size no_dash ∙ ap (λ qs. qs ++ size ∷ []) e in
    let whole : join b'-' (p ∷ ps) ≡ family = ap (join b'-') (sym e) ∙ join-split b'-' family in
    rw (filled, split_once-none b'.' s no_dot, contains-append b'-' family size, parts)
      (gcp_of_parts-append (azure_family s) p ps size ∙ ap some whole)
  where
    not_empty : (f : List ℕ) → is_empty (f ++ b'-' ∷ size) ≡ false
    not_empty [] = refl
    not_empty (c ∷ f) = refl

-- Equality of texts.
pub list_eq_iff : (a b : List ℕ) → (list_eq a b ≡ true) ↔ (a ≡ b)
unfolding list_eq
list_eq_iff [] [] = ((λ _. refl), λ _. refl)
list_eq_iff [] (y ∷ ys) = ((λ e. cc), λ e. cc)
list_eq_iff (x ∷ xs) [] = ((λ e. cc), λ e. cc)
list_eq_iff (x ∷ xs) (y ∷ ys) = ground (arith, list_eq_iff xs ys)
