-- ===== src/Hibernation/Restore.antt =====
-- Hibernating and waking with a reliable cloud: every group gets its sizes back, also when the program
-- restarts in between.
use katalyst.Prelude.{
  ℕ, ◌≤◌, ◌<◌, String, ◌≡◌, refl, ◌∙◌, inl, inr, true, false, none, some, List, [], arith, str_eq,
  ltb, ◌==◌, if◌then◌else◌, Bool-cases, any,
}
use katalyst.Prelude.GoMap.{GoMap, lookup, HasKeysOnce, passing}
use katalyst.Prelude.Words.{sign64}
use katalyst.Hibernation.{
  Controller, new_controller, save_state, load_state, Cloud, Progress, returns, hibernate_all,
  hibernate_groups, wake_all, wake,
}
use katalyst.Hibernation.Persistence.{IsCount, load_state-save_state}
use katalyst.Hibernation.KeysOnce.{HasProgressKeysOnce, hibernate_all-HasProgressKeysOnce}
use katalyst.Hibernation.Reliable.{IsReliable, listing, HasSizesOf, Untouched}
use katalyst.Hibernation.Asleep.{IsAsleep, hibernate_all-own, hibernate_all-excluded}
use katalyst.Hibernation.Waking.{wake_all-own, wake_all-unsaved}

module _ {C : Type 0} (desired minimum : String → C → ℕ) (cloud : Cloud C) (registry : GoMap String)
    (ok : IsReliable desired minimum cloud registry) (exclude : List String) (at : C) where
  -- What the loop ends with when nothing is saved before, and the controller that it leaves.
  asleep_progress : Progress cloud
  asleep_progress =
      hibernate_all cloud exclude (listing desired minimum registry at)
        (record { desired = []; mins = []; at = at; count = 0 })

  asleep_controller : Controller
  unfolding asleep_progress
  asleep_controller = record {
    hibernated = true;
    saved_desired = asleep_progress.desired;
    saved_min = asleep_progress.mins;
  }

  hibernate_groups-asleep :
      (w wname : String)
      → HasKeysOnce registry
      → lookup w registry ≡ some wname
      → any (λ e. str_eq e wname) exclude ≡ false
      → 0 < ok.maximum w
      → hibernate_groups cloud exclude new_controller at
        ≡ returns asleep_controller asleep_progress.at none (some (save_state asleep_controller))
  unfolding hibernate_groups asleep_controller asleep_progress new_controller
  hibernate_groups-asleep w wname once h included room =
      let (_, more) =
        hibernate_all-own desired minimum cloud registry ok exclude w wname registry at
          (record { desired = []; mins = []; at = at; count = 0 }) once h included wname h room
          refl in
      let some_slept : asleep_progress.count == 0 ≡ false = ground (arith, more) in
      rw (hibernate_groups, ok.discovers at, some_slept)

  -- A controller that has the same saved sizes of a group.
  AgreesOn : String → Controller → Type 0
  AgreesOn k d =
      (lookup k d.saved_desired ≡ lookup k asleep_controller.saved_desired)
      × (lookup k d.saved_min ≡ lookup k asleep_controller.saved_min)

  awake : Controller → C
  unfolding asleep_progress
  awake d =
      wake_all cloud d (listing desired minimum registry asleep_progress.at) asleep_progress.at

  module _ (once : HasKeysOnce registry) (k kname : String) (known : lookup k registry ≡ some kname)
      (room : 0 < ok.maximum k) where
    asleep_progress-IsAsleep :
        any (λ e. str_eq e kname) exclude ≡ false
        → IsAsleep desired minimum cloud registry ok k at asleep_progress
    unfolding asleep_progress
    asleep_progress-IsAsleep included =
        (hibernate_all-own desired minimum cloud registry ok exclude k kname registry at
          (record { desired = []; mins = []; at = at; count = 0 }) once known included kname known
          room refl).0

    asleep_progress-Untouched :
        any (λ e. str_eq e kname) exclude ≡ true
        → Untouched desired minimum cloud registry ok k asleep_progress
            (record { desired = []; mins = []; at = at; count = 0 })
    unfolding asleep_progress
    asleep_progress-Untouched out =
        hibernate_all-excluded desired minimum cloud registry ok exclude k kname registry at
          (record { desired = []; mins = []; at = at; count = 0 }) once known out

    -- Only the groups that are not excluded sleep.
    desired-asleep :
        desired k asleep_progress.at
        ≡ (if any (λ e. str_eq e kname) exclude then desired k at else 1)
    unfolding IsAsleep Untouched HasSizesOf
    desired-asleep = elim (Bool-cases (any (λ e. str_eq e kname) exclude)) [
      | inl out ↦ let (_, _, (size, _), _) = asleep_progress-Untouched out in rw out size
      | inr included ↦ let (_, _, size, _) = asleep_progress-IsAsleep included in rw included size
    ]

    awake-restored :
        (d : Controller)
        → AgreesOn k d
        → minimum k at ≤ desired k at
        → desired k at ≤ ok.maximum k
        → (desired k (awake d) ≡ desired k at) × (minimum k (awake d) ≡ minimum k at)
    unfolding awake AgreesOn asleep_controller IsAsleep Untouched HasSizesOf lookup
    awake-restored d (ed, em) fits limit = elim (Bool-cases (any (λ e. str_eq e kname) exclude)) [
      | inl out ↦
          let (unsaved, _, (size, least), _) = asleep_progress-Untouched out in
          let (a, b) =
            wake_all-unsaved desired minimum cloud registry ok d k registry asleep_progress.at
              asleep_progress.at (ed ∙ unsaved) in
          (a ∙ size, b ∙ least)
      | inr included ↦
          let (saved, saved_least, _, least) = asleep_progress-IsAsleep included in
          wake_all-own desired minimum cloud registry ok d k kname registry asleep_progress.at
            asleep_progress.at (desired k at) (minimum k at) once known
            (ed ∙ saved, em ∙ saved_least) refl (ground (arith, least)) fits kname known limit
    ]

    -- What is saved of a group with at least one node can be written and read back.
    asleep-counts :
        minimum k at ≤ desired k at
        → 0 < desired k at
        → desired k at < sign64
        → IsCount (lookup k asleep_progress.desired)
          × IsCount (lookup k asleep_progress.mins)
          × (passing (ltb 0) (lookup k asleep_progress.desired) ≡ lookup k asleep_progress.desired)
    unfolding IsAsleep Untouched lookup
    asleep-counts fits more few = elim (Bool-cases (any (λ e. str_eq e kname) exclude)) [
      | inl out ↦
          let (unsaved, unsaved_least, _, _) = asleep_progress-Untouched out in
          rw (unsaved, unsaved_least) (tt, tt, refl)
      | inr included ↦
          let (saved, saved_least, _, _) = asleep_progress-IsAsleep included in
          let positive : ltb 0 (desired k at) ≡ true = ground arith in
          rw (saved, saved_least, positive) (few, omega arith, refl)
    ]

  wake-awake :
      (d : Controller)
      → d.hibernated ≡ true
      → wake cloud true d asleep_progress.at
        ≡ returns new_controller (awake d) none (some (save_state new_controller))
  unfolding wake awake
  wake-awake d h = rw (wake, h, ok.discovers asleep_progress.at)

  asleep_controller-HasKeysOnce :
      HasKeysOnce asleep_controller.saved_desired × HasKeysOnce asleep_controller.saved_min
  unfolding asleep_controller asleep_progress HasProgressKeysOnce
  asleep_controller-HasKeysOnce =
      hibernate_all-HasProgressKeysOnce cloud exclude (listing desired minimum registry at)
        (record { desired = []; mins = []; at = at; count = 0 }) (tt, tt)

  -- With nothing saved before and past the guards, if some group is not excluded, hibernating succeeds
  -- and brings every group that is not excluded to one node, not to zero; waking in active mode then gives
  -- each group the desired size and the minimum that it had. The cloud is reliable and names each group
  -- once; the group may have a node, and before it has a size between its limits.
  pub hibernate-wake :
      (w wname k kname : String)
      → HasKeysOnce registry
      → lookup w registry ≡ some wname
      → any (λ e. str_eq e wname) exclude ≡ false
      → 0 < ok.maximum w
      → lookup k registry ≡ some kname
      → 0 < ok.maximum k
      → minimum k at ≤ desired k at
      → desired k at ≤ ok.maximum k
      → (asleep : Controller) × (slept : C) × (woken : C) × (hibernate_groups cloud exclude
            new_controller at
          ≡ returns asleep slept none (some (save_state asleep)))
        × (wake cloud true asleep slept
            ≡ returns new_controller woken none (some (save_state new_controller)))
        × (desired k slept ≡ (if any (λ e. str_eq e kname) exclude then desired k at else 1))
        × (desired k woken ≡ desired k at)
        × (minimum k woken ≡ minimum k at)
  unfolding AgreesOn asleep_controller
  hibernate-wake w wname k kname once h included w_room known room fits limit =
      let (size, least) =
        awake-restored once k kname known room asleep_controller (refl, refl) fits limit in
      (
        asleep_controller,
        asleep_progress.at,
        awake asleep_controller,
        hibernate_groups-asleep w wname once h included w_room,
        wake-awake asleep_controller refl,
        desired-asleep once k kname known room,
        size,
        least,
      )

  -- With nothing saved before and past the guards, if some group is not excluded, hibernating succeeds
  -- and brings every group that is not excluded to one node; when the program restarts while the groups
  -- sleep and reads back what it saved, waking in active mode gives each group the desired size and the
  -- minimum that it had. The cloud is reliable and names each group once; the group has a size between its
  -- limits before, with at least one node and fewer than 2 ^ 63.
  pub hibernate-load_state :
      (w wname k kname : String)
      → HasKeysOnce registry
      → lookup w registry ≡ some wname
      → any (λ e. str_eq e wname) exclude ≡ false
      → 0 < ok.maximum w
      → lookup k registry ≡ some kname
      → 0 < desired k at
      → minimum k at ≤ desired k at
      → desired k at ≤ ok.maximum k
      → desired k at < sign64
      → (asleep : Controller) × (slept : C) × (woken : C) × (hibernate_groups cloud exclude
            new_controller at
          ≡ returns asleep slept none (some (save_state asleep)))
        × (wake cloud true (load_state (save_state asleep) new_controller) slept
            ≡ returns new_controller woken none (some (save_state new_controller)))
        × (desired k slept ≡ (if any (λ e. str_eq e kname) exclude then desired k at else 1))
        × (desired k woken ≡ desired k at)
        × (minimum k woken ≡ minimum k at)
  unfolding AgreesOn asleep_controller
  hibernate-load_state w wname k kname once h included w_room known more fits limit few =
      let room : 0 < ok.maximum k = omega arith in
      let (few_desired, few_least, kept) = asleep-counts once k kname known room fits more few in
      let (flag, read_desired, read_min) =
        load_state-save_state asleep_controller k asleep_controller-HasKeysOnce
          (few_desired, few_least) in
      let reloaded : Controller = load_state (save_state asleep_controller) new_controller in
      let (size, least) =
        awake-restored once k kname known room reloaded (read_desired ∙ kept, read_min) fits
          limit in
      (
        asleep_controller,
        asleep_progress.at,
        awake reloaded,
        hibernate_groups-asleep w wname once h included w_room,
        wake-awake reloaded flag,
        desired-asleep once k kname known room,
        size,
        least,
      )
