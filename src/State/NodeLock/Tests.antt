-- ===== src/State/NodeLock/Tests.antt =====
-- Runs of the node locks, and the theorems at concrete inputs.
use katalyst.Prelude.{ℕ, ◌≡◌, refl, true, false, List, [], ◌∷◌, arith, eq_iff}
use katalyst.Prelude.GoMap.{lookup, insert, erase, retain}
use katalyst.State.NodeLock.{
  NodeLock, entry_for, is_locked, Call, try_locks, refreshes, expires, unlocks, run, step,
}
use katalyst.State.NodeLock.Expiry.{IsTable}
use katalyst.State.NodeLock.Exclusion.{run-owner_kept}

-- The evictor holds "n1" since time 10.
abbrev drained : NodeLock
drained = record { locks = ("n1", entry_for "evictor" 10) ∷ [] }

abbrev history : List (ℕ × Call)
history =
    (11, try_locks "n1" "rebalancer")
    ∷ (12, try_locks "n2" "rebalancer")
    ∷ (13, unlocks "n1" "rebalancer")
    ∷ (14, refreshes "n2" "rebalancer")
    ∷ (15, expires 5)
    ∷ []

history_runs : is_locked "n2" (run drained history) ≡ (true, "rebalancer")
unfolding run step is_locked lookup insert erase retain
history_runs = refl

late_expiry : is_locked "n1" (run drained ((16, expires 5) ∷ [])) ≡ (false, "")
unfolding run step is_locked lookup insert erase retain
late_expiry = refl

drained-IsTable : IsTable drained
unfolding lookup
drained-IsTable = (refl, tt)

run-owner_kept_example : is_locked "n1" (run drained history) ≡ (true, "evictor")
unfolding lookup
run-owner_kept_example =
    run-owner_kept "n1" (entry_for "evictor" 10) drained history drained-IsTable refl (
      tt,
      (
        tt,
        (
          (λ e c. ground (arith, eq_iff "rebalancer" "evictor")),
          ((λ e c. ground (arith, eq_iff "rebalancer" "evictor")), (omega arith, tt)),
        ),
      ),
    )
