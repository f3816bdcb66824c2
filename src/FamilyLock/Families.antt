-- ===== src/FamilyLock/Families.antt =====
-- pkg/familylock/families.go over lists of code points: the family of an instance type of AWS
-- (`m5.xlarge`), GCP (`n2-standard-4`) or Azure (`Standard_D4s_v3`). Error texts are left out: an
-- error is `none`.
pub mod Extract
use katalyst.Prelude.Text.{codes}
use katalyst.Prelude.{
  ℕ, zero, suc, ◌+◌, ◌-◌, ◌*◌, ◌/◌, ◌%◌, ◌^◌, ◌≤◌, ◌<◌, String, ◌≡◌, refl, sym, ap, ◌∙◌, subst, ◌≢◌,
  ◌↔◌, ◌⊎◌, inl, inr, Bool, true, false, ◌&&◌, ◌||◌, not, Option, none, some, List, [], ◌∷◌, ◌++◌,
  map, reverse, arith, str_eq, eq_iff, ltb, leb, ◌==◌, if◌then◌else◌, ltb→lt, lt→ltb, leb→le,
  le→leb, ==_iff, tests, Bool-cases, Option-cases, is_some, &&_iff, not_iff, length, take, drop,
  get_elem?, set, all, any, keep, length-append, length-keep-le, length-take, length-drop, drop-set,
  take-set, length-set, get_elem?-drop, drop-length, drop-drop, drop-append, length-reverse,
  get_elem?-reverse, All, Any, all_iff, any_iff,
}

-- The text before and after the first separator: `strings.SplitN(s, sep, 2)` with two parts.
unfoldable pub split_once : ℕ → List ℕ → Option (List ℕ × List ℕ)
split_once sep [] = none
split_once sep (c ∷ cs) =
    let rest = split_once sep cs in
    if c == sep then some ([], cs) else elim rest [ none ↦ none | some (a, b) ↦ some (c ∷ a, b) ]

-- Puts a code point in front of the first part.
abbrev pub push_first : ℕ → List (List ℕ) → List (List ℕ)
push_first c [] = (c ∷ []) ∷ []
push_first c (p ∷ ps) = (c ∷ p) ∷ ps

-- `strings.Split(s, sep)`, which never returns an empty list.
unfoldable pub split : ℕ → List ℕ → List (List ℕ)
split sep [] = [] ∷ []
split sep (c ∷ cs) = let rest = split sep cs in if c == sep then [] ∷ rest else push_first c rest

-- `strings.Join(parts, sep)`.
unfoldable pub join : ℕ → List (List ℕ) → List ℕ
join sep [] = []
join sep (p ∷ []) = p
join sep (p ∷ q ∷ ps) = p ++ sep ∷ join sep (q ∷ ps)

-- `parts[:len(parts)-1]`, of a list that is not empty.
abbrev pub without_last : List (List ℕ) → List (List ℕ)
without_last [] = []
without_last (p ∷ []) = []
without_last (p ∷ q ∷ ps) = p ∷ without_last (q ∷ ps)

abbrev pub contains : ℕ → List ℕ → Bool
contains sep = any (λ c. c == sep)

-- `strings.HasPrefix`.
abbrev pub has_prefix : List ℕ → List ℕ → Bool
has_prefix [] s = true
has_prefix (p ∷ ps) [] = false
has_prefix (p ∷ ps) (c ∷ cs) = let rest = has_prefix ps cs in p == c && rest

abbrev pub is_upper : ℕ → Bool
is_upper c = leb b'A' c && leb c b'Z'

abbrev pub is_letter : ℕ → Bool
is_letter c = is_upper c || (leb b'a' c && leb c b'z')

abbrev pub is_empty : List ℕ → Bool
is_empty [] = true
is_empty (c ∷ cs) = false

-- The loop that gathers the letters of the size part: a first letter, then capital letters.
unfoldable pub family_letters : List ℕ → List ℕ → List ℕ
family_letters family [] = family
family_letters family (c ∷ cs) =
    let more = family_letters (family ++ c ∷ []) cs in
    if is_letter c && (is_empty family || is_upper c) then more else family

-- The loop that appends the parts from the third on that begin with "v".
unfoldable pub append_versions : List ℕ → List (List ℕ) → List ℕ
append_versions result [] = result
append_versions result (p ∷ ps) =
    append_versions (if has_prefix (b'v' ∷ []) p then result ++ b'_' ∷ p else result) ps

unfoldable pub azure_of_parts : List ℕ → List (List ℕ) → List ℕ
azure_of_parts vm_size [] = vm_size
azure_of_parts vm_size (p ∷ []) = vm_size
azure_of_parts vm_size (p ∷ size ∷ rest) = append_versions (p ++ b'_' ∷ family_letters [] size) rest

unfoldable pub extract_azure_family : List ℕ → List ℕ
unfolding azure_of_parts
extract_azure_family vm_size = azure_of_parts vm_size (split b'_' vm_size)

-- "Standard_".
abbrev pub standard : List ℕ
standard = codes "Standard_"

-- The branch of a text with a dash, by its parts; with fewer than two it would go on to the next.
abbrev pub gcp_of_parts : Option (List ℕ) → List (List ℕ) → Option (List ℕ)
gcp_of_parts otherwise [] = otherwise
gcp_of_parts otherwise (p ∷ []) = otherwise
gcp_of_parts otherwise (p ∷ q ∷ []) = some p
gcp_of_parts otherwise (p ∷ q ∷ r ∷ ps) = some (join b'-' (without_last (p ∷ q ∷ r ∷ ps)))

unfoldable pub azure_family : List ℕ → Option (List ℕ)
unfolding extract_azure_family
azure_family s = if has_prefix standard s then some (extract_azure_family s) else none

unfoldable pub extract_family : List ℕ → Option (List ℕ)
unfolding azure_family
extract_family s = if is_empty s then none else elim (split_once b'.' s) [
  | some (family, size) ↦ some family
  | none ↦ if contains b'-' s then gcp_of_parts (azure_family s) (split b'-' s) else azure_family s
]

-- `strings.EqualFold` on texts whose letters are ASCII.
abbrev pub to_lower : ℕ → ℕ
to_lower c = if is_upper c then c + 32 else c

unfoldable pub list_eq : List ℕ → List ℕ → Bool
list_eq [] [] = true
list_eq [] (y ∷ ys) = false
list_eq (x ∷ xs) [] = false
list_eq (x ∷ xs) (y ∷ ys) = let rest = list_eq xs ys in x == y && rest

-- `IsSameFamily`; `none` is an error of either extraction.
unfoldable pub is_same_family : List ℕ → List ℕ → Option Bool
is_same_family a b = elim (extract_family a) [
  | none ↦ none
  | some f ↦ elim (extract_family b) [
    | none ↦ none
    | some g ↦ some (list_eq (map to_lower f) (map to_lower g))
  ]
]
