-- ===== src/Hibernation/KeysOnce.antt =====
-- The saved maps have each group once, whatever the cloud answers.
use katalyst.Prelude.{String, inl, inr, List, [], ◌∷◌, Bool-cases}
use katalyst.Prelude.GoMap.{insert, erase, insert-HasKeysOnce, erase-HasKeysOnce, HasKeysOnce}
use katalyst.Hibernation.{
  NodeGroup, Cloud, Progress, lower_to_one, is_excluded, hibernate_group, hibernate_all,
}

module _ {C : Type 0} (cloud : Cloud C) where
  unfoldable pub HasProgressKeysOnce : Progress cloud → Type 0
  HasProgressKeysOnce p = HasKeysOnce p.desired × HasKeysOnce p.mins

  hibernate_group-HasProgressKeysOnce :
      (g : NodeGroup) (p : Progress cloud)
      → HasProgressKeysOnce p
      → HasProgressKeysOnce (hibernate_group cloud g p)
  unfolding hibernate_group HasProgressKeysOnce
  hibernate_group-HasProgressKeysOnce g p (a, b) =
      let a' = insert-HasKeysOnce g.id g.desired_count p.desired a in
      let b' = insert-HasKeysOnce g.id g.min_count p.mins b in
      let undone : HasKeysOnce (erase g.id (insert g.id g.desired_count p.desired))
          × HasKeysOnce (erase g.id (insert g.id g.min_count p.mins)) =
        (erase-HasKeysOnce g.id _ a', erase-HasKeysOnce g.id _ b') in
      elim (Bool-cases (lower_to_one cloud g p.at).1) [
        | inr bad ↦ rw bad undone
        | inl y ↦ elim (Bool-cases (cloud.scale_to g.id 1 (lower_to_one cloud g p.at).0).1) [
          | inr bad ↦ rw (y, bad) undone
          | inl good ↦ rw (y, good) (a', b')
        ]
      ]

  pub hibernate_all-HasProgressKeysOnce :
      (exclude : List String) (gs : List NodeGroup) (p : Progress cloud)
      → HasProgressKeysOnce p
      → HasProgressKeysOnce (hibernate_all cloud exclude gs p)
  unfolding hibernate_all
  hibernate_all-HasProgressKeysOnce exclude [] p h = h
  hibernate_all-HasProgressKeysOnce exclude (g ∷ gs) p h =
      elim (Bool-cases (is_excluded cloud exclude g)) [
        | inl y ↦ rw y (hibernate_all-HasProgressKeysOnce exclude gs p h)
        | inr n ↦ rw n (
            hibernate_all-HasProgressKeysOnce exclude gs (hibernate_group cloud g p)
              (hibernate_group-HasProgressKeysOnce g p h))
      ]
