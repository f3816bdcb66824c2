-- ===== src/Hibernation/Reading.antt =====
-- The loop of `loadState` reads each key by itself, so that the order of the entries is free.
use katalyst.Prelude.{
  ℕ, String, ◌≡◌, refl, ap, ◌∙◌, subst, inl, inr, Bool, false, not, Option, none, some, List, [],
  ◌∷◌, arith, str_eq, eq_iff, if◌then◌else◌, Bool-cases, Option-cases,
}
use katalyst.Prelude.GoMap.{GoMap, lookup, lookup-insert, HasKeysOnce}
use katalyst.Prelude.Prefix.{prepend, strip_prefix}
use katalyst.Prelude.Words.{lt64}
use katalyst.Hibernation.Entries.{strip_prefix-refuses, prepend-eq}
use katalyst.Hibernation.{Controller, load_count, put, load_entry, load_entries}

-- The loop of `loadState`, for one of the two maps.
unfoldable pub load_all : String → (ℕ → Bool) → GoMap (List ℕ) → GoMap ℕ → GoMap ℕ
load_all prefix good [] m = m
load_all prefix good ((key, val) ∷ entries) m =
    load_all prefix good entries (load_entry prefix good key val m)

abbrev pub or_else : Option ℕ → Option ℕ → Option ℕ
or_else none before = before
or_else (some n) before = some n

abbrev pub read_back : (ℕ → Bool) → Option (List ℕ) → Option ℕ → Option ℕ
read_back good none before = before
read_back good (some val) before = or_else (load_count good val) before

lookup-put :
    (j id : String) (o : Option ℕ) (m : GoMap ℕ)
    → lookup id (put j o m) ≡ (if str_eq j id then or_else o (lookup id m) else lookup id m)
lookup-put j id none m = ground arith
lookup-put j id (some n) m = lookup-insert j id n m

load_entry-none :
    (prefix : String) (good : ℕ → Bool) (key : String) (val : List ℕ) (m : GoMap ℕ)
    → strip_prefix prefix key ≡ none
    → load_entry prefix good key val m ≡ m
unfolding load_entry
load_entry-none prefix good key val m e = rw (load_entry, e)

load_entry-some :
    (prefix : String) (good : ℕ → Bool) (key : String) (val : List ℕ) (j : String) (m : GoMap ℕ)
    → strip_prefix prefix key ≡ some j
    → load_entry prefix good key val m ≡ put j (load_count good val) m
unfolding load_entry
load_entry-some prefix good key val j m e = rw (load_entry, e)

pub lookup-load_all :
    (prefix : String) (good : ℕ → Bool) (id : String) (entries : GoMap (List ℕ)) (m : GoMap ℕ)
    → HasKeysOnce entries
    → lookup id (load_all prefix good entries m)
      ≡ read_back good (lookup (prepend prefix id) entries) (lookup id m)
unfolding load_all lookup
lookup-load_all prefix good id [] m h = refl
lookup-load_all prefix good id ((key, val) ∷ entries) m (fresh, h) =
    let ih = lookup-load_all prefix good id entries (load_entry prefix good key val m) h in
    elim (Option-cases (strip_prefix prefix key)) [
      | inl e ↦
          let other : str_eq key (prepend prefix id) ≡ false = ground (
            arith,
            strip_prefix-refuses prefix id key e,
            eq_iff key (prepend prefix id),
            eq_iff (prepend prefix id) key,
          ) in
          rw other (
            ih
            ∙ ap (read_back good (lookup (prepend prefix id) entries))
                (ap (lookup id) (load_entry-none prefix good key val m e)))
      | inr (j, e) ↦
          let own : str_eq key (prepend prefix id) ≡ str_eq j id = ground (
            arith,
            prepend-eq prefix id key j e,
            eq_iff key (prepend prefix id),
            eq_iff (prepend prefix id) key,
            eq_iff j id,
            eq_iff id j,
          ) in
          let here : lookup id (load_entry prefix good key val m)
              ≡ (if str_eq j id then or_else (load_count good val) (lookup id m) else lookup id m) =
            ap (lookup id) (load_entry-some prefix good key val j m e)
            ∙ lookup-put j id (load_count good val) m in
          elim (Bool-cases (str_eq j id)) [
            | inl y ↦
                let gone : lookup (prepend prefix id) entries ≡ none =
                  subst (λ k. lookup k entries ≡ none)
                    ((eq_iff key (prepend prefix id)).0 (own ∙ y)) fresh in
                rw (own, y)
                  (ih
                    ∙ ap (λ o. read_back good o (lookup id (load_entry prefix good key val m))) gone
                    ∙ here
                    ∙ rw y)
            | inr n ↦
                rw (own, n)
                  (ih ∙ ap (read_back good (lookup (prepend prefix id) entries)) (here ∙ rw n))
          ]
    ]

pub load_entries-saved :
    (entries : GoMap (List ℕ)) (c : Controller)
    → ((load_entries entries c).saved_desired
        ≡ load_all "desired-" (λ n. lt64 0 n) entries c.saved_desired)
      × ((load_entries entries c).saved_min
          ≡ load_all "min-" (λ n. not (lt64 n 0)) entries c.saved_min)
      × ((load_entries entries c).hibernated ≡ c.hibernated)
unfolding load_entries load_all
load_entries-saved [] c = (refl, refl, refl)
load_entries-saved ((key, val) ∷ entries) c = load_entries-saved entries (record c {
  saved_desired = load_entry "desired-" (λ n. lt64 0 n) key val c.saved_desired;
  saved_min = load_entry "min-" (λ n. not (lt64 n 0)) key val c.saved_min;
})
