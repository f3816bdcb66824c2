-- ===== src/Hibernation/Persistence.antt =====
-- What is saved in the ConfigMap is what is read back.
use katalyst.Prelude.{
  ℕ, ◌<◌, String, ◌≡◌, refl, sym, ap, ◌∙◌, ◌≢◌, inl, inr, Bool, true, false, not, Option, none,
  some, List, [], arith, str_eq, eq_iff, ltb, if◌then◌else◌, Bool-cases,
}
use katalyst.Prelude.GoMap.{lookup, insert, insert-HasKeysOnce, HasKeysOnce, passing}
use katalyst.Prelude.Decimal.{scan_int-print_int}
use katalyst.Prelude.Prefix.{prepend, strip_prefix, strip_prefix-prepend}
use katalyst.Prelude.Words.{lt64, sign64, lt64_exact}
use katalyst.FamilyLock.Families.{list_eq}
use katalyst.Hibernation.Entries.{printed_or, lookup-save_counts, save_counts-HasKeysOnce}
use katalyst.Hibernation.Reading.{read_back, lookup-load_all, load_entries-saved}
use katalyst.Hibernation.{
  Controller, new_controller, save_state, load_entries, load_state, print_bool, says_true,
}

save_state-HasKeysOnce : (c : Controller) → HasKeysOnce (save_state c)
unfolding save_state
save_state-HasKeysOnce c = save_counts-HasKeysOnce "min-" c.saved_min _ (
    save_counts-HasKeysOnce "desired-" c.saved_desired _
      (insert-HasKeysOnce "hibernated" (print_bool c.hibernated) [] tt))

-- A text cannot be both "hibernated" and a key of a count.
lookup-flag :
    (prefix key : String) (v : List ℕ)
    → strip_prefix prefix key ≢ none
    → strip_prefix prefix "hibernated" ≡ none
    → lookup key (insert "hibernated" v []) ≡ none
unfolding lookup insert
lookup-flag prefix key v h k = elim (Bool-cases (str_eq "hibernated" key)) [
  | inr n ↦ rw n
  | inl y ↦
      let same : "hibernated" ≡ key = (eq_iff "hibernated" key).0 y in
      absurd (h (ap (strip_prefix prefix) (sym same) ∙ k))
]

strip-ne-none : (prefix id : String) → strip_prefix prefix (prepend prefix id) ≢ none
strip-ne-none prefix id h = let e : some id ≡ none = sym (strip_prefix-prepend prefix id) ∙ h in cc

module _ (c : Controller) (once : HasKeysOnce c.saved_desired × HasKeysOnce c.saved_min) where
  saved_desired-entry :
      (id : String)
      → lookup (prepend "desired-" id) (save_state c) ≡ printed_or none (lookup id c.saved_desired)
  unfolding save_state strip_prefix prepend
  saved_desired-entry id =
      lookup-save_counts "min-" (prepend "desired-" id) c.saved_min _ once.1
      ∙ lookup-save_counts "desired-" (prepend "desired-" id) c.saved_desired _ once.0
      ∙ ap (λ o. printed_or o (lookup id c.saved_desired))
          (lookup-flag "desired-" (prepend "desired-" id) (print_bool c.hibernated)
            (strip-ne-none "desired-" id) refl)

  saved_min-entry :
      (id : String)
      → lookup (prepend "min-" id) (save_state c) ≡ printed_or none (lookup id c.saved_min)
  unfolding save_state strip_prefix prepend
  saved_min-entry id =
      lookup-save_counts "min-" (prepend "min-" id) c.saved_min _ once.1
      ∙ ap (λ o. printed_or o (lookup id c.saved_min))
          (lookup-save_counts "desired-" (prepend "min-" id) c.saved_desired _ once.0
            ∙ lookup-flag "min-" (prepend "min-" id) (print_bool c.hibernated)
                (strip-ne-none "min-" id) refl)

  hibernated-entry : lookup "hibernated" (save_state c) ≡ some (print_bool c.hibernated)
  unfolding save_state strip_prefix lookup insert
  hibernated-entry =
      lookup-save_counts "min-" "hibernated" c.saved_min _ once.1
      ∙ lookup-save_counts "desired-" "hibernated" c.saved_desired _ once.0

abbrev pub IsCount : Option ℕ → Type 0
IsCount none = Unit
IsCount (some n) = n < sign64

read_back-printed :
    (good : ℕ → Bool) (o : Option ℕ)
    → IsCount o
    → read_back good (printed_or none o) none ≡ passing good o
read_back-printed good none h = refl
read_back-printed good (some n) h = elim (Bool-cases (good n)) [
  | inl y ↦ rw (scan_int-print_int n h, y)
  | inr bad ↦ rw (scan_int-print_int n h, bad)
]

-- Below 2 ^ 63 the comparisons of patterns are those of numbers.
passing-desired : (o : Option ℕ) → IsCount o → passing (λ n. lt64 0 n) o ≡ passing (ltb 0) o
passing-desired none h = refl
passing-desired (some n) h = rw (lt64_exact 0 n (ground arith) h)

passing-min : (o : Option ℕ) → IsCount o → passing (λ n. not (lt64 n 0)) o ≡ o
passing-min none h = refl
passing-min (some n) h =
    let e : lt64 n 0 ≡ false = lt64_exact n 0 h (ground arith) ∙ (ground arith) in rw e

says_true-print_bool : (b : Bool) → says_true (some (print_bool b)) ≡ b
unfolding list_eq
says_true-print_bool true = refl
says_true-print_bool false = refl

load_entries-save_state :
    (c start : Controller) (id : String)
    → HasKeysOnce c.saved_desired × HasKeysOnce c.saved_min
    → IsCount (lookup id c.saved_desired) × IsCount (lookup id c.saved_min)
    → start.saved_desired ≡ []
    → start.saved_min ≡ []
    → let d = load_entries (save_state c) start in
      (d.hibernated ≡ start.hibernated)
      × (lookup id d.saved_desired ≡ passing (ltb 0) (lookup id c.saved_desired))
      × (lookup id d.saved_min ≡ lookup id c.saved_min)
unfolding lookup
load_entries-save_state c start id once (cd, cm) ed em =
    let (ld, lm, lh) = load_entries-saved (save_state c) start in
    let data_once = save_state-HasKeysOnce c in
    (
      lh,
      ap (lookup id) ld
          ∙ lookup-load_all "desired-" (λ n. lt64 0 n) id (save_state c) start.saved_desired
              data_once
          ∙ rw (saved_desired-entry c once id, ed)
              (read_back-printed (λ n. lt64 0 n) (lookup id c.saved_desired) cd
                ∙ passing-desired (lookup id c.saved_desired) cd),
      ap (lookup id) lm
          ∙ lookup-load_all "min-" (λ n. not (lt64 n 0)) id (save_state c) start.saved_min data_once
          ∙ rw (saved_min-entry c once id, em)
              (read_back-printed (λ n. not (lt64 n 0)) (lookup id c.saved_min) cm
                ∙ passing-min (lookup id c.saved_min) cm),
    )

-- The new controller, with the flag set if it was saved so.
abbrev flagged : Bool → Controller
unfolding new_controller
flagged b = if b then record new_controller { hibernated = true } else new_controller

flagged-fields :
    (b : Bool)
    → ((flagged b).hibernated ≡ b) × ((flagged b).saved_desired ≡ []) × ((flagged b).saved_min ≡ [])
unfolding new_controller
flagged-fields true = (refl, refl, refl)
flagged-fields false = (refl, refl, refl)

-- A controller that starts with the data that another one saved is hibernated exactly if that one
-- was, and has its saved sizes, except that a desired size of 0 is dropped. The maps have each group
-- once, and the group's counts are below 2 ^ 63.
pub load_state-save_state :
    (c : Controller) (id : String)
    → HasKeysOnce c.saved_desired × HasKeysOnce c.saved_min
    → IsCount (lookup id c.saved_desired) × IsCount (lookup id c.saved_min)
    → let d = load_state (save_state c) new_controller in
      (d.hibernated ≡ c.hibernated)
      × (lookup id d.saved_desired ≡ passing (ltb 0) (lookup id c.saved_desired))
      × (lookup id d.saved_min ≡ lookup id c.saved_min)
unfolding load_state new_controller
load_state-save_state c id once counts =
    let flag : says_true (lookup "hibernated" (save_state c)) ≡ c.hibernated =
      ap says_true (hibernated-entry c once) ∙ says_true-print_bool c.hibernated in
    let (eh, ed, em) = flagged-fields (says_true (lookup "hibernated" (save_state c))) in
    let (rh, rd, rm) =
      load_entries-save_state c (flagged (says_true (lookup "hibernated" (save_state c)))) id once
        counts ed em in
    (rh ∙ eh ∙ flag, rd, rm)
