-- ===== src/State/NodeLock/Exclusion.antt =====
-- A node has one owner at a time, and keeps it until the owner lets go or lets the lock age.
use katalyst.Prelude.{
  ℕ, ◌+◌, ◌≤◌, String, ◌≡◌, ◌≢◌, true, false, none, some, List, [], ◌∷◌, arith, str_eq, eq_iff, All,
  Bool-cases, is_some, Option-cases, ◌⊎◌, inl, inr,
}
use katalyst.Prelude.GoMap.{lookup, lookup-insert, lookup-erase}
use katalyst.State.NodeLock.{
  NodeLock, LockEntry, entry_for, try_lock, unlock, is_locked, refresh, expire_stale, is_set, Call,
  try_locks, unlocks, refreshes, expires, prunes, step, run,
}
use katalyst.State.NodeLock.Expiry.{
  IsTable, step-IsTable, expire_stale-lookup, prune_deleted-lookup,
}

-- `TryLock` either succeeds, and then the caller is the owner that `IsLocked` reports; or another
-- controller holds the node, and then it fails and changes nothing.
pub try_lock-is_locked :
    (node c : String) (now : ℕ) (nl : NodeLock)
    → (((try_lock node c now nl).1 ≡ none)
        × (is_locked node (try_lock node c now nl).0 ≡ (true, c)))
      ⊎ ((other : String) × (other ≢ c)
          × (is_locked node nl ≡ (true, other))
          × (is_some (try_lock node c now nl).1 ≡ true)
          × ((try_lock node c now nl).0 ≡ nl))
unfolding try_lock is_locked
try_lock-is_locked node c now nl = elim (Option-cases (lookup node nl.locks)) [
  | inl e ↦
      inl (ground (arith, lookup-insert node node (entry_for c now) nl.locks, eq_iff node node))
  | inr (x, e) ↦ elim (Bool-cases (str_eq x.controller c)) [
    | inl same ↦ inl (ground (arith, eq_iff x.controller c))
    | inr other ↦ inr (
      x.controller,
      ground (arith, eq_iff x.controller c),
      ground arith,
      ground arith,
      ground arith,
    )
  ]
]

-- A call that leaves the entry `e` of a node alone: a lock attempt by anyone; a release or a
-- heartbeat on another node or by a controller that does not own this one; an expiry at which `e`
-- is young enough; a pruning that knows the node.
abbrev pub Spares : String → LockEntry → ℕ × Call → Type 0
Spares node e (now, try_locks m c) = Unit
Spares node e (now, unlocks m c) = m ≡ node → c ≢ e.controller
Spares node e (now, refreshes m c) = m ≡ node → c ≢ e.controller
Spares node e (now, expires max_age) = now ≤ e.acquired_at + max_age
Spares node e (now, prunes current) = is_set (lookup node current) ≡ true

try_lock-keeps :
    (node m c : String) (e : LockEntry) (now : ℕ) (nl : NodeLock)
    → lookup node nl.locks ≡ some e
    → lookup node (try_lock m c now nl).0.locks ≡ some e
unfolding try_lock
try_lock-keeps node m c e now nl h =
    ground (arith, eq_iff m node, lookup-insert m node (entry_for c now) nl.locks)

unlock-keeps :
    (node m c : String) (e : LockEntry) (nl : NodeLock)
    → lookup node nl.locks ≡ some e
    → (m ≡ node → c ≢ e.controller)
    → lookup node (unlock m c nl).locks ≡ some e
unfolding unlock
unlock-keeps node m c e nl h other = elim (Bool-cases (str_eq m node)) [
  | inl same ↦
      let eq : m ≡ node = (eq_iff m node).0 same in
      let ne : c ≢ e.controller = other eq in
      let hm : lookup m nl.locks ≡ some e = rw eq h in ground (arith, eq_iff e.controller c)
  | inr apart ↦ ground (arith, lookup-erase m node nl.locks)
]

refresh-keeps :
    (node m c : String) (e : LockEntry) (now : ℕ) (nl : NodeLock)
    → lookup node nl.locks ≡ some e
    → (m ≡ node → c ≢ e.controller)
    → lookup node (refresh m c now nl).locks ≡ some e
unfolding refresh
refresh-keeps node m c e now nl h other = elim (Bool-cases (str_eq m node)) [
  | inl same ↦
      let eq : m ≡ node = (eq_iff m node).0 same in
      let ne : c ≢ e.controller = other eq in
      let hm : lookup m nl.locks ≡ some e = rw eq h in ground (arith, eq_iff e.controller c)
  | inr apart ↦ ground (arith, lookup-insert m node (entry_for c now) nl.locks)
]

step-Spares :
    (node : String) (e : LockEntry) (nl : NodeLock) (call : ℕ × Call)
    → IsTable nl
    → lookup node nl.locks ≡ some e
    → Spares node e call
    → lookup node (step nl call).locks ≡ some e
unfolding step
step-Spares node e nl (now, try_locks m c) t h s = try_lock-keeps node m c e now nl h
step-Spares node e nl (now, unlocks m c) t h s = unlock-keeps node m c e nl h s
step-Spares node e nl (now, refreshes m c) t h s = refresh-keeps node m c e now nl h s
step-Spares node e nl (now, expires max_age) t h s =
    ground (arith, expire_stale-lookup max_age now node nl t)
step-Spares node e nl (now, prunes current) t h s =
    ground (arith, prune_deleted-lookup current node nl t)

-- In a table that holds each node once, a node that is locked stays with its owner through any
-- sequence of calls that spare the entry: attempts by any controllers, releases and heartbeats by others,
-- expiries at which the lock is young enough, prunings that know the node.
pub run-owner_kept :
    (node : String) (e : LockEntry) (nl : NodeLock) (cs : List (ℕ × Call))
    → IsTable nl
    → lookup node nl.locks ≡ some e
    → All (Spares node e) cs
    → is_locked node (run nl cs) ≡ (true, e.controller)
unfolding run is_locked
run-owner_kept node e nl [] t h s = ground arith
run-owner_kept node e nl (c ∷ cs) t h s =
    run-owner_kept node e (step nl c) cs (step-IsTable nl c t) (step-Spares node e nl c t h s.0) s.1

-- `Unlock` by the owner frees the node, so that any controller can take it next; by anyone else it
-- changes nothing.
pub unlock-is_locked :
    (node c : String) (nl : NodeLock)
    → ((is_locked node nl ≡ (true, c)) → is_locked node (unlock node c nl) ≡ (false, ""))
      × ((is_locked node nl ≢ (true, c)) → unlock node c nl ≡ nl)
unfolding unlock is_locked
unlock-is_locked node c nl = elim (Option-cases (lookup node nl.locks)) [
  | inl e ↦ ground arith
  | inr (x, e) ↦
      ground (arith, eq_iff x.controller c, eq_iff node node, lookup-erase node node nl.locks)
]

refresh-entry :
    (node c : String) (t : ℕ) (nl : NodeLock)
    → is_locked node nl ≡ (true, c)
    → lookup node (refresh node c t nl).locks ≡ some (entry_for c t)
unfolding refresh is_locked
refresh-entry node c t nl own = elim (Option-cases (lookup node nl.locks)) [
  | inl e ↦ ground arith
  | inr (x, e) ↦ ground (
    arith,
    eq_iff x.controller c,
    eq_iff node node,
    lookup-insert node node (entry_for c t) nl.locks,
  )
]

-- A heartbeat protects the lock in a table that holds each node once: after `Refresh` by the owner at a time `t`, an `ExpireStale` that
-- runs no later than `t` plus its age leaves the node with that owner.
pub refresh-expire_stale :
    (node c : String) (t now max_age : ℕ) (nl : NodeLock)
    → IsTable nl
    → is_locked node nl ≡ (true, c)
    → now ≤ t + max_age
    → is_locked node (expire_stale max_age now (refresh node c t nl)) ≡ (true, c)
unfolding is_locked step
refresh-expire_stale node c t now max_age nl table own young =
    let entry = refresh-entry node c t nl own in
    ground (
      arith,
      expire_stale-lookup max_age now node (refresh node c t nl)
          (step-IsTable nl (t, refreshes node c) table),
    )
