-- ===== src/Hibernation/Failures.antt =====
-- `Wake` when the cloud refuses.
use katalyst.Prelude.{
  ℕ, String, ◌≡◌, refl, ◌∙◌, inl, inr, true, false, Option, none, some, List, [], ◌∷◌, ltb,
  Bool-cases, Option-cases,
}
use katalyst.Prelude.GoMap.{lookup}
use katalyst.Hibernation.{
  Controller, NodeGroup, new_controller, save_state, Cloud, returns, raise_min, wake_group,
  wake_all, wake,
}

module _ {C : Type 0} (cloud : Cloud C) where
  -- Every change is an error and leaves the cloud as it is.
  abbrev pub IsRefusing : Type 0
  IsRefusing =
      ((i : String) (n : ℕ) (at : C) → cloud.set_min i n at ≡ (at, false))
      × ((i : String) (n : ℕ) (at : C) → cloud.scale_to i n at ≡ (at, false))

  raise_min-refused :
      IsRefusing → (g : NodeGroup) (o : Option ℕ) (at : C) → raise_min cloud g o at ≡ at
  raise_min-refused (no_min, _) g none at = refl
  raise_min-refused (no_min, _) g (some saved) at = elim (Bool-cases (ltb g.min_count saved)) [
    | inl y ↦ rw (y, no_min g.id saved at)
    | inr n ↦ rw n
  ]

  wake_group-refused :
      IsRefusing → (c : Controller) (g : NodeGroup) (at : C) → wake_group cloud c g at ≡ at
  unfolding wake_group
  wake_group-refused refuses c g at = elim (Option-cases (lookup g.id c.saved_desired)) [
    | inl e ↦ rw (wake_group, e)
    | inr (d, e) ↦ rw (
      wake_group,
      e,
      raise_min-refused refuses g (lookup g.id c.saved_min) at,
      refuses.1 g.id d at,
    )
  ]

  wake_all-refused :
      IsRefusing → (c : Controller) (gs : List NodeGroup) (at : C) → wake_all cloud c gs at ≡ at
  unfolding wake_all
  wake_all-refused refuses c [] at = refl
  wake_all-refused refuses c (g ∷ gs) at =
      wake_all-refused refuses c gs (wake_group cloud c g at) ∙ wake_group-refused refuses c g at

  -- When the cloud lists its groups but refuses every change, waking reports no error, leaves every
  -- group asleep, and forgets and overwrites the sizes that were saved.
  pub wake-refused :
      IsRefusing
      → (c : Controller) (groups : List NodeGroup) (at : C) → c.hibernated ≡ true
      → cloud.discover at ≡ some groups
      → wake cloud true c at ≡ returns new_controller at none (some (save_state new_controller))
  unfolding wake
  wake-refused refuses c groups at h listed =
      rw (wake, h, listed, wake_all-refused refuses c groups at)
