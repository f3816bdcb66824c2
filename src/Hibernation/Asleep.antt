-- ===== src/Hibernation/Asleep.antt =====
-- What the loop of `Hibernate` does to a group, whatever the other groups are.
use katalyst.Prelude.{
  ℕ, ◌+◌, ◌≤◌, ◌<◌, String, ◌≡◌, refl, sym, ap, ◌∙◌, subst, inl, inr, true, false, none, some, List,
  [], ◌∷◌, arith, str_eq, eq_iff, ltb, if◌then◌else◌, Bool-cases, any,
}
use katalyst.Prelude.GoMap.{GoMap, lookup, HasKeysOnce}
use katalyst.Hibernation.{NodeGroup, Cloud, Progress, hibernate_group, is_excluded, hibernate_all}
use katalyst.Hibernation.Reliable.{
  IsReliable, listing, HasSizesOf, Untouched, hibernate_group-others, hibernate_group-own,
}

module _ {C : Type 0} (desired minimum : String → C → ℕ) where
  module _ (cloud : Cloud C) (registry : GoMap String)
      (ok : IsReliable desired minimum cloud registry) where
    Untouched-refl :
        (k : String) (p : Progress cloud) → Untouched desired minimum cloud registry ok k p p
    unfolding Untouched HasSizesOf
    Untouched-refl k p = (refl, refl, (refl, refl), omega arith)

    Untouched-trans :
        (k : String) (p q r : Progress cloud)
        → Untouched desired minimum cloud registry ok k p q
        → Untouched desired minimum cloud registry ok k q r
        → Untouched desired minimum cloud registry ok k p r
    unfolding Untouched HasSizesOf
    Untouched-trans k p q r (a, b, (c, d), e) (a', b', (c', d'), e') =
        (a ∙ a', b ∙ b', (c ∙ c', d ∙ d'), omega arith)

    -- One round of the loop.
    abbrev pub visit : List String → NodeGroup → Progress cloud → Progress cloud
    visit exclude g p = if is_excluded cloud exclude g then p else hibernate_group cloud g p

    visit-others :
        (exclude : List String) (g : NodeGroup) (p : Progress cloud) (k : String)
        → str_eq g.id k ≡ false
        → Untouched desired minimum cloud registry ok k (visit exclude g p) p
    unfolding Untouched HasSizesOf
    visit-others exclude g p k h = elim (Bool-cases (is_excluded cloud exclude g)) [
      | inl y ↦ rw y (refl, refl, (refl, refl), omega arith)
      | inr n ↦ rw n (hibernate_group-others desired minimum cloud registry ok g p k h)
    ]

    pub hibernate_all-others :
        (exclude : List String) (k : String) (rows : GoMap String) (start : C) (p : Progress cloud)
        → lookup k rows ≡ none
        → Untouched desired minimum cloud registry ok k
            (hibernate_all cloud exclude (listing desired minimum rows start) p)
            p
    unfolding hibernate_all listing lookup
    hibernate_all-others exclude k [] start p h = Untouched-refl k p
    hibernate_all-others exclude k ((i, n) ∷ rows) start p h =
        let g : NodeGroup = record {
          id = i;
          name = n;
          desired_count = desired i start;
          min_count = minimum i start;
        } in
        elim (Bool-cases (str_eq i k)) [
          | inl y ↦ let e : some n ≡ none = sym (rw y) ∙ h in cc
          | inr other ↦
              let deeper : lookup k rows ≡ none = sym (rw other) ∙ h in
              Untouched-trans k _ (visit exclude g p) p
                (hibernate_all-others exclude k rows start (visit exclude g p) deeper)
                (visit-others exclude g p k other)
        ]

    -- What is saved of a group that sleeps, and its sizes.
    unfoldable pub IsAsleep : String → C → Progress cloud → Type 0
    IsAsleep k start q =
        (lookup k q.desired ≡ some (desired k start))
        × (lookup k q.mins ≡ some (minimum k start))
        × (desired k q.at ≡ 1)
        × (minimum k q.at ≡ (if ltb 1 (minimum k start) then 1 else minimum k start))

    IsAsleep-Untouched :
        (k : String) (start : C) (p q : Progress cloud)
        → IsAsleep k start p
        → Untouched desired minimum cloud registry ok k q p
        → IsAsleep k start q × (p.count ≤ q.count)
    unfolding IsAsleep Untouched HasSizesOf
    IsAsleep-Untouched k start p q (a, b, c, d) (a', b', (c', d'), e) =
        ((a' ∙ a, b' ∙ b, c' ∙ c, d' ∙ d), e)

    visit-own :
        (exclude : List String) (i n : String) (start : C) (p : Progress cloud)
        → any (λ e. str_eq e n) exclude ≡ false
        → (known : String) → lookup i registry ≡ some known
        → 0 < ok.maximum i
        → minimum i p.at ≡ minimum i start
        → let q =
            visit exclude
              (record {
                id = i;
                name = n;
                desired_count = desired i start;
                min_count = minimum i start;
              })
              p in
          IsAsleep i start q × (q.count ≡ p.count + 1)
    unfolding IsAsleep
    visit-own exclude i n start p included known there room same = rw included (
        let (a, b, c, d, e) =
          hibernate_group-own desired minimum cloud registry ok
            (record {
              id = i;
              name = n;
              desired_count = desired i start;
              min_count = minimum i start;
            })
            p known there room same in
        ((a, b, c, d), e))

    pub hibernate_all-own :
        (exclude : List String) (k name : String) (rows : GoMap String) (start : C)
        (p : Progress cloud)
        → HasKeysOnce rows
        → lookup k rows ≡ some name
        → any (λ e. str_eq e name) exclude ≡ false
        → (known : String) → lookup k registry ≡ some known
        → 0 < ok.maximum k
        → minimum k p.at ≡ minimum k start
        → let q = hibernate_all cloud exclude (listing desired minimum rows start) p in
          IsAsleep k start q × (p.count < q.count)
    unfolding hibernate_all listing lookup Untouched HasSizesOf
    hibernate_all-own exclude k name [] start p once h included known there room same =
        let no_group : none ≡ some name = h in cc
    hibernate_all-own exclude k name ((i, n) ∷ rows) start p (fresh, once) h included known there
          room same =
        let g : NodeGroup = record {
          id = i;
          name = n;
          desired_count = desired i start;
          min_count = minimum i start;
        } in
        elim (Bool-cases (str_eq i k)) [
          | inr other ↦
              let (u, v, (w, least), more) = visit-others exclude g p k other in
              let (asleep, count) =
                hibernate_all-own exclude k name rows start (visit exclude g p) once
                  (sym (rw other) ∙ h) included known there room (least ∙ same) in
              (asleep, omega arith)
          | inl y ↦
              let e : i ≡ k = (eq_iff i k).0 y in
              let found : some n ≡ some name = sym (rw y) ∙ h in
              let named : n ≡ name = cc in
              let (asleep, count) =
                visit-own exclude i n start p
                  (ap (λ x. any (λ z. str_eq z x) exclude) named ∙ included) known
                  (ap (λ x. lookup x registry) e ∙ there)
                  (subst (λ x. 0 < ok.maximum x) (sym e) room)
                  (ap (λ x. minimum x p.at) e ∙ same ∙ ap (λ x. minimum x start) (sym e)) in
              let later : Untouched desired minimum cloud registry ok k _ _ =
                hibernate_all-others exclude k rows start (visit exclude g p)
                  (subst (λ x. lookup x rows ≡ none) e fresh) in
              let (still, kept) =
                IsAsleep-Untouched k start (visit exclude g p) _
                  (subst (λ x. IsAsleep x start (visit exclude g p)) e asleep) later in
              (still, omega arith)
        ]

    pub hibernate_all-excluded :
        (exclude : List String) (k name : String) (rows : GoMap String) (start : C)
        (p : Progress cloud)
        → HasKeysOnce rows
        → lookup k rows ≡ some name
        → any (λ e. str_eq e name) exclude ≡ true
        → Untouched desired minimum cloud registry ok k
            (hibernate_all cloud exclude (listing desired minimum rows start) p)
            p
    unfolding hibernate_all listing lookup
    hibernate_all-excluded exclude k name [] start p once h out =
        let no_group : none ≡ some name = h in cc
    hibernate_all-excluded exclude k name ((i, n) ∷ rows) start p (fresh, once) h out =
        let g : NodeGroup = record {
          id = i;
          name = n;
          desired_count = desired i start;
          min_count = minimum i start;
        } in
        elim (Bool-cases (str_eq i k)) [
          | inr other ↦
              Untouched-trans k _ (visit exclude g p) p
                (hibernate_all-excluded exclude k name rows start (visit exclude g p) once
                  (sym (rw other) ∙ h) out)
                (visit-others exclude g p k other)
          | inl y ↦
              let found : some n ≡ some name = sym (rw y) ∙ h in
              let named : n ≡ name = cc in
              let skipped : any (λ z. str_eq z n) exclude ≡ true =
                ap (λ x. any (λ z. str_eq z x) exclude) named ∙ out in
              let idle : p ≡ visit exclude g p = rw skipped in
              Untouched-trans k _ (visit exclude g p) p
                (hibernate_all-others exclude k rows start (visit exclude g p)
                  (subst (λ x. lookup x rows ≡ none) ((eq_iff i k).0 y) fresh))
                (subst (λ q. Untouched desired minimum cloud registry ok k q p) idle
                  (Untouched-refl k p))
        ]
