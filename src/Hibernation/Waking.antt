-- ===== src/Hibernation/Waking.antt =====
-- What the loop of `Wake` does to a group, whatever the other groups are.
use katalyst.Prelude.{
  ℕ, ◌≤◌, String, ◌≡◌, refl, sym, ap, ◌∙◌, subst, inl, inr, false, Option, none, some, [], ◌∷◌,
  arith, str_eq, eq_iff, ltb, Bool-cases, Option-cases,
}
use katalyst.Prelude.GoMap.{GoMap, lookup, HasKeysOnce}
use katalyst.Hibernation.{Controller, NodeGroup, Cloud, raise_min, wake_group, wake_all}
use katalyst.Hibernation.Reliable.{IsReliable, listing, HasSizesOf}

module _ {C : Type 0} (desired minimum : String → C → ℕ) where
  module _ (cloud : Cloud C) (registry : GoMap String)
      (ok : IsReliable desired minimum cloud registry) where
    raise_min-others :
        (g : NodeGroup) (o : Option ℕ) (at : C) (k : String)
        → str_eq g.id k ≡ false
        → HasSizesOf desired minimum k (raise_min cloud g o at) at
    unfolding HasSizesOf
    raise_min-others g none at k h = (refl, refl)
    raise_min-others g (some saved) at k h = elim (Bool-cases (ltb g.min_count saved)) [
      | inl y ↦ rw y (ok.set_min-others g.id saved at k h)
      | inr n ↦ rw n (refl, refl)
    ]

    wake_group-unsaved :
        (c : Controller) (g : NodeGroup) (at : C)
        → lookup g.id c.saved_desired ≡ none
        → wake_group cloud c g at ≡ at
    unfolding wake_group
    wake_group-unsaved c g at e = rw (wake_group, e)

    wake_group-saved :
        (c : Controller) (g : NodeGroup) (at : C) (d : ℕ)
        → lookup g.id c.saved_desired ≡ some d
        → wake_group cloud c g at
          ≡ (cloud.scale_to g.id d (raise_min cloud g (lookup g.id c.saved_min) at)).0
    unfolding wake_group
    wake_group-saved c g at d e = rw (wake_group, e)

    wake_group-others :
        (c : Controller) (g : NodeGroup) (at : C) (k : String)
        → str_eq g.id k ≡ false
        → HasSizesOf desired minimum k (wake_group cloud c g at) at
    unfolding HasSizesOf
    wake_group-others c g at k h = elim (Option-cases (lookup g.id c.saved_desired)) [
      | inl e ↦ rw (wake_group-unsaved c g at e) (refl, refl)
      | inr (d, e) ↦
          let (a, b) = raise_min-others g (lookup g.id c.saved_min) at k h in
          let (a', b') =
            ok.scale_to-others g.id d (raise_min cloud g (lookup g.id c.saved_min) at) k h in
          rw (wake_group-saved c g at d e) (a' ∙ a, b' ∙ b)
    ]

    raise_min-own :
        (g : NodeGroup) (m : ℕ) (at : C) (name : String)
        → lookup g.id registry ≡ some name
        → m ≤ ok.maximum g.id
        → minimum g.id at ≡ g.min_count
        → g.min_count ≤ m
        → minimum g.id (raise_min cloud g (some m) at) ≡ m
    raise_min-own g m at name known room h low = elim (Bool-cases (ltb g.min_count m)) [
      | inl y ↦ rw y ((ok.set_min-sets g.id name m at known room).1)
      | inr n ↦ rw n (ground (arith, h, low, n))
    ]

    wake_group-own :
        (c : Controller) (g : NodeGroup) (at : C) (d m : ℕ) (name : String)
        → lookup g.id registry ≡ some name
        → d ≤ ok.maximum g.id
        → lookup g.id c.saved_desired ≡ some d
        → lookup g.id c.saved_min ≡ some m
        → minimum g.id at ≡ g.min_count
        → g.min_count ≤ m
        → m ≤ d
        → (desired g.id (wake_group cloud c g at) ≡ d)
          × (minimum g.id (wake_group cloud c g at) ≡ m)
    wake_group-own c g at d m name known room ed em h low fits =
        let raised = raise_min-own g m at name known (omega arith) h low in
        let (done, size, least) =
          ok.scale_to-sets g.id name d (raise_min cloud g (some m) at) known
            (ground (arith, raised, fits)) room in
        rw (wake_group-saved c g at d ed, em) (size, least ∙ raised)

    -- A group that is not in the list keeps its sizes.
    wake_all-others :
        (c : Controller) (k : String) (rows : GoMap String) (start at : C)
        → lookup k rows ≡ none
        → HasSizesOf desired minimum k (wake_all cloud c (listing desired minimum rows start) at) at
    unfolding wake_all listing lookup HasSizesOf
    wake_all-others c k [] start at h = (refl, refl)
    wake_all-others c k ((i, n) ∷ rows) start at h =
        let g : NodeGroup = record {
          id = i;
          name = n;
          desired_count = desired i start;
          min_count = minimum i start;
        } in
        elim (Bool-cases (str_eq i k)) [
          | inl y ↦ let e : some n ≡ none = sym (rw y) ∙ h in cc
          | inr other ↦
              let (a, b) =
                wake_all-others c k rows start (wake_group cloud c g at) (sym (rw other) ∙ h) in
              let (a', b') = wake_group-others c g at k other in (a ∙ a', b ∙ b')
        ]

    -- Nor does a group change of which nothing is saved.
    pub wake_all-unsaved :
        (c : Controller) (k : String) (rows : GoMap String) (start at : C)
        → lookup k c.saved_desired ≡ none
        → HasSizesOf desired minimum k (wake_all cloud c (listing desired minimum rows start) at) at
    unfolding wake_all listing HasSizesOf
    wake_all-unsaved c k [] start at h = (refl, refl)
    wake_all-unsaved c k ((i, n) ∷ rows) start at h =
        let g : NodeGroup = record {
          id = i;
          name = n;
          desired_count = desired i start;
          min_count = minimum i start;
        } in
        let (a, b) = wake_all-unsaved c k rows start (wake_group cloud c g at) h in
        elim (Bool-cases (str_eq i k)) [
          | inl y ↦
              let e : i ≡ k = (eq_iff i k).0 y in
              let unsaved : lookup i c.saved_desired ≡ none =
                ap (λ x. lookup x c.saved_desired) e ∙ h in
              let idle : wake_group cloud c g at ≡ at = wake_group-unsaved c g at unsaved in
              (a ∙ ap (desired k) idle, b ∙ ap (minimum k) idle)
          | inr other ↦ let (a', b') = wake_group-others c g at k other in (a ∙ a', b ∙ b')
        ]

    pub wake_all-own :
        (c : Controller) (k name : String) (rows : GoMap String) (start at : C) (d m : ℕ)
        → HasKeysOnce rows
        → lookup k rows ≡ some name
        → (lookup k c.saved_desired ≡ some d) × (lookup k c.saved_min ≡ some m)
        → minimum k at ≡ minimum k start
        → minimum k start ≤ m
        → m ≤ d
        → (known : String) → lookup k registry ≡ some known
        → d ≤ ok.maximum k
        → let after = wake_all cloud c (listing desired minimum rows start) at in
          (desired k after ≡ d) × (minimum k after ≡ m)
    unfolding wake_all listing lookup HasSizesOf
    wake_all-own c k name [] start at d m once h saved same low fits known there room =
        let no_group : none ≡ some name = h in cc
    wake_all-own c k name ((i, n) ∷ rows) start at d m (fresh, once) h (ed, em) same low fits known
          there room =
        let g : NodeGroup = record {
          id = i;
          name = n;
          desired_count = desired i start;
          min_count = minimum i start;
        } in
        elim (Bool-cases (str_eq i k)) [
          | inr other ↦
              let (_, least) = wake_group-others c g at k other in
              wake_all-own c k name rows start (wake_group cloud c g at) d m once
                (sym (rw other) ∙ h) (ed, em) (least ∙ same) low fits known there room
          | inl y ↦
              let e : i ≡ k = (eq_iff i k).0 y in
              let back : k ≡ i = sym e in
              let (size, least) =
                wake_group-own c g at d m known (ap (λ x. lookup x registry) e ∙ there)
                  (subst (λ x. d ≤ ok.maximum x) back room)
                  (ap (λ x. lookup x c.saved_desired) e ∙ ed)
                  (ap (λ x. lookup x c.saved_min) e ∙ em)
                  (ap (λ x. minimum x at) e ∙ same ∙ ap (λ x. minimum x start) back)
                  (subst (λ x. minimum x start ≤ m) back low) fits in
              let (a, b) =
                wake_all-others c k rows start (wake_group cloud c g at)
                  (subst (λ x. lookup x rows ≡ none) e fresh) in
              (
                a ∙ ap (λ x. desired x (wake_group cloud c g at)) back ∙ size,
                b ∙ ap (λ x. minimum x (wake_group cloud c g at)) back ∙ least,
              )
        ]
