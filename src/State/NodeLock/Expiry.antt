-- ===== src/State/NodeLock/Expiry.antt =====
-- Which locks `ExpireStale` and `PruneDeleted` drop, and that the table stays a map.
use katalyst.Prelude.{ℕ, ◌+◌, String, ◌≡◌, Bool, not, List, [], ◌∷◌, arith, ltb}
use katalyst.Prelude.GoMap.{
  GoMap, lookup, HasKeysOnce, insert-HasKeysOnce, erase-HasKeysOnce, retain-HasKeysOnce, passing,
  lookup-retain,
}
use katalyst.State.NodeLock.{
  NodeLock, entry_for, try_lock, unlock, refresh, expire_stale, prune_deleted, is_set, Call,
  try_locks, unlocks, refreshes, expires, prunes, step, run,
}

-- The table holds each node once.
abbrev pub IsTable : NodeLock → Type 0
IsTable nl = HasKeysOnce nl.locks

try_lock-IsTable :
    (node c : String) (now : ℕ) (nl : NodeLock) → IsTable nl → IsTable (try_lock node c now nl).0
unfolding try_lock
try_lock-IsTable node c now nl h =
    ground (arith, insert-HasKeysOnce node (entry_for c now) nl.locks)

unlock-IsTable : (node c : String) (nl : NodeLock) → IsTable nl → IsTable (unlock node c nl)
unfolding unlock
unlock-IsTable node c nl h = ground (arith, erase-HasKeysOnce node nl.locks)

refresh-IsTable :
    (node c : String) (now : ℕ) (nl : NodeLock) → IsTable nl → IsTable (refresh node c now nl)
unfolding refresh
refresh-IsTable node c now nl h = ground (arith, insert-HasKeysOnce node (entry_for c now) nl.locks)

pub step-IsTable : (nl : NodeLock) (call : ℕ × Call) → IsTable nl → IsTable (step nl call)
unfolding step
step-IsTable nl (now, try_locks node c) h = try_lock-IsTable node c now nl h
step-IsTable nl (now, unlocks node c) h = unlock-IsTable node c nl h
step-IsTable nl (now, refreshes node c) h = refresh-IsTable node c now nl h
step-IsTable nl (now, expires max_age) h = retain-HasKeysOnce _ nl.locks h
step-IsTable nl (now, prunes current) h = retain-HasKeysOnce _ nl.locks h

-- Every table that the calls reach from a new one holds each node once.
pub run-IsTable : (nl : NodeLock) (cs : List (ℕ × Call)) → IsTable nl → IsTable (run nl cs)
unfolding run
run-IsTable nl [] h = h
run-IsTable nl (c ∷ cs) h = run-IsTable (step nl c) cs (step-IsTable nl c h)

-- In a table that holds each node once, `ExpireStale` drops the entry of a node if it is older
-- than the age given, and changes no other entry.
pub expire_stale-lookup :
    (max_age now : ℕ) (node : String) (nl : NodeLock)
    → IsTable nl
    → lookup node (expire_stale max_age now nl).locks
      ≡ passing (λ e. not (ltb (e.acquired_at + max_age) now)) (lookup node nl.locks)
unfolding expire_stale
expire_stale-lookup max_age now node nl h = lookup-retain _ node nl.locks h

-- In a table that holds each node once, `PruneDeleted` keeps exactly the entries of the nodes that
-- the map of current nodes has as true.
pub prune_deleted-lookup :
    (current : GoMap Bool) (node : String) (nl : NodeLock)
    → IsTable nl
    → lookup node (prune_deleted current nl).locks
      ≡ passing (λ e. is_set (lookup node current)) (lookup node nl.locks)
unfolding prune_deleted
prune_deleted-lookup current node nl h = lookup-retain _ node nl.locks h
