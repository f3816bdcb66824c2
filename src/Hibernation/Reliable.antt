-- ===== src/Hibernation/Reliable.antt =====
-- A cloud provider that does what it is asked, and what hibernating does to one of its groups.
use katalyst.Prelude.{
  ℕ, ◌+◌, ◌≤◌, ◌<◌, String, ◌≡◌, refl, ◌∙◌, inl, inr, true, false, some, List, [], ◌∷◌, arith,
  str_eq, eq_iff, ltb, if◌then◌else◌, Bool-cases,
}
use katalyst.Prelude.GoMap.{GoMap, lookup, lookup-insert, lookup-erase}
use katalyst.Hibernation.{NodeGroup, Cloud, Progress, lower_to_one, hibernate_group}

module _ {C : Type 0} (desired minimum : String → C → ℕ) where
  -- The groups with the sizes that they have in the cloud; the registry gives the names.
  unfoldable pub listing : GoMap String → C → List NodeGroup
  listing [] at = []
  listing ((i, n) ∷ registry) at =
      record { id = i; name = n; desired_count = desired i at; min_count = minimum i at }
      ∷ listing registry at

  unfoldable pub HasSizesOf : String → C → C → Type 0
  HasSizesOf k c d = (desired k c ≡ desired k d) × (minimum k c ≡ minimum k d)

  -- Both calls succeed on a group of the registry within its limits, and change this group only: a
  -- minimum up to the group's greatest size is accepted, and a size from the minimum to the greatest. A
  -- change of the minimum may change the desired size of the group as well. Of other groups and sizes
  -- nothing is asked but that other groups keep their sizes.
  pub record IsReliable (cloud : Cloud C) (registry : GoMap String) : Type 0 where
    pub maximum : String → ℕ
    pub discovers : (at : C) → cloud.discover at ≡ some (listing registry at)
    pub set_min-sets :
        (i name : String) (n : ℕ) (at : C)
        → lookup i registry ≡ some name
        → n ≤ maximum i
        → ((cloud.set_min i n at).1 ≡ true) × (minimum i (cloud.set_min i n at).0 ≡ n)
    pub set_min-others :
        (i : String) (n : ℕ) (at : C) (k : String)
        → str_eq i k ≡ false
        → HasSizesOf k (cloud.set_min i n at).0 at
    pub scale_to-sets :
        (i name : String) (n : ℕ) (at : C)
        → lookup i registry ≡ some name
        → minimum i at ≤ n
        → n ≤ maximum i
        → ((cloud.scale_to i n at).1 ≡ true)
          × (desired i (cloud.scale_to i n at).0 ≡ n)
          × (minimum i (cloud.scale_to i n at).0 ≡ minimum i at)
    pub scale_to-others :
        (i : String) (n : ℕ) (at : C) (k : String)
        → str_eq i k ≡ false
        → HasSizesOf k (cloud.scale_to i n at).0 at

  module _ (cloud : Cloud C) (registry : GoMap String) (ok : IsReliable cloud registry) where
    lower_to_one-others :
        (g : NodeGroup) (at : C) (k : String)
        → str_eq g.id k ≡ false
        → HasSizesOf k (lower_to_one cloud g at).0 at
    unfolding HasSizesOf
    lower_to_one-others g at k h = elim (Bool-cases (ltb 1 g.min_count)) [
      | inl y ↦ rw y (ok.set_min-others g.id 1 at k h)
      | inr n ↦ rw n (refl, refl)
    ]

    lower_to_one-own :
        (g : NodeGroup) (at : C) (name : String)
        → lookup g.id registry ≡ some name
        → 0 < ok.maximum g.id
        → minimum g.id at ≡ g.min_count
        → ((lower_to_one cloud g at).1 ≡ true)
          × (minimum g.id (lower_to_one cloud g at).0
              ≡ (if ltb 1 g.min_count then 1 else g.min_count))
    lower_to_one-own g at name known room h = elim (Bool-cases (ltb 1 g.min_count)) [
      | inl y ↦ rw y (ok.set_min-sets g.id name 1 at known (omega arith))
      | inr n ↦ rw n (refl, h)
    ]

    -- What hibernating one group leaves as it is for another.
    unfoldable pub Untouched : String → Progress cloud → Progress cloud → Type 0
    Untouched k p q =
        (lookup k p.desired ≡ lookup k q.desired)
        × (lookup k p.mins ≡ lookup k q.mins)
        × HasSizesOf k p.at q.at
        × (q.count ≤ p.count)

    pub hibernate_group-others :
        (g : NodeGroup) (p : Progress cloud) (k : String)
        → str_eq g.id k ≡ false
        → Untouched k (hibernate_group cloud g p) p
    unfolding hibernate_group Untouched HasSizesOf
    hibernate_group-others g p k h =
        let lowered = lower_to_one-others g p.at k h in
        let scaled = ok.scale_to-others g.id 1 (lower_to_one cloud g p.at).0 k h in
        let at_desired = lookup-insert g.id k g.desired_count p.desired in
        let at_mins = lookup-insert g.id k g.min_count p.mins in
        elim (Bool-cases (lower_to_one cloud g p.at).1) [
          | inr bad ↦ rw bad (
            lookup-erase g.id k _ ∙ rw h (at_desired ∙ rw h),
            lookup-erase g.id k _ ∙ rw h (at_mins ∙ rw h),
            lowered,
            omega arith,
          )
          | inl y ↦ elim (Bool-cases (cloud.scale_to g.id 1 (lower_to_one cloud g p.at).0).1) [
            | inr bad ↦
                rw (y, bad)
                  (
                    lookup-erase g.id k _ ∙ rw h (at_desired ∙ rw h),
                    lookup-erase g.id k _ ∙ rw h (at_mins ∙ rw h),
                    (scaled.0 ∙ lowered.0, scaled.1 ∙ lowered.1),
                    omega arith,
                  )
            | inl good ↦
                rw (y, good)
                  (
                    at_desired ∙ rw h,
                    at_mins ∙ rw h,
                    (scaled.0 ∙ lowered.0, scaled.1 ∙ lowered.1),
                    omega arith,
                  )
          ]
        ]

    pub hibernate_group-own :
        (g : NodeGroup) (p : Progress cloud) (name : String)
        → lookup g.id registry ≡ some name
        → 0 < ok.maximum g.id
        → minimum g.id p.at ≡ g.min_count
        → let q = hibernate_group cloud g p in
          (lookup g.id q.desired ≡ some g.desired_count)
          × (lookup g.id q.mins ≡ some g.min_count)
          × (desired g.id q.at ≡ 1)
          × (minimum g.id q.at ≡ (if ltb 1 g.min_count then 1 else g.min_count))
          × (q.count ≡ p.count + 1)
    unfolding hibernate_group
    hibernate_group-own g p name known room h =
        let (done, lowest) = lower_to_one-own g p.at name known room h in
        let small : minimum g.id (lower_to_one cloud g p.at).0 ≤ 1 = ground (arith, lowest) in
        let (scaled, size, least) =
          ok.scale_to-sets g.id name 1 (lower_to_one cloud g p.at).0 known small (omega arith) in
        let same : str_eq g.id g.id ≡ true = (eq_iff g.id g.id).1 refl in
        rw (done, scaled)
          (
            lookup-insert g.id g.id g.desired_count p.desired ∙ rw same,
            lookup-insert g.id g.id g.min_count p.mins ∙ rw same,
            size,
            least ∙ lowest,
            refl,
          )
