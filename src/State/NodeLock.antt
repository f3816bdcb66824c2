-- ===== src/State/NodeLock.antt =====
-- internal/state/nodelock.go. Every method runs under the mutex, so a method is one step. Time is
-- in nanoseconds; `time.Now()` is the argument `now` of the call. Log lines are left out.
pub mod Exclusion
pub mod Expiry
mod Tests
use katalyst.Prelude.{
  ℕ, ◌+◌, String, ◌≡◌, ◌≢◌, Bool, true, false, ◌&&◌, not, Option, none, some, List, [], ◌∷◌, str_eq,
  ltb, if◌then◌else◌,
}
use katalyst.Prelude.GoMap.{GoMap, lookup, insert, erase, retain}

pub record LockEntry : Type 0 where
  pub controller : String
  pub acquired_at : ℕ

pub record NodeLock : Type 0 where
  pub locks : GoMap LockEntry

unfoldable pub new_node_lock : NodeLock
new_node_lock = record { locks = [] }

-- "node %s is locked by %s since %s"
pub data LockError : Type 0 where
  locked_by : String → String → ℕ → LockError

abbrev pub entry_for : String → ℕ → LockEntry
entry_for c now = record { controller = c; acquired_at = now }

unfoldable pub try_lock : String → String → ℕ → NodeLock → NodeLock × Option LockError
try_lock node c now nl = elim (lookup node nl.locks) [
  | some e ↦
      if str_eq e.controller c
      then (nl, none)
      else (nl, some (locked_by node e.controller e.acquired_at))
  | none ↦ (record { locks = insert node (entry_for c now) nl.locks }, none)
]

-- `ok && entry.Controller == controller`
abbrev pub owned_by : String → Option LockEntry → Bool
owned_by c none = false
owned_by c (some e) = str_eq e.controller c

unfoldable pub unlock : String → String → NodeLock → NodeLock
unlock node c nl =
    if owned_by c (lookup node nl.locks) then record { locks = erase node nl.locks } else nl

unfoldable pub is_locked : String → NodeLock → Bool × String
is_locked node nl = elim (lookup node nl.locks) [
  | some e ↦ (true, e.controller)
  | none ↦ (false, "")
]

unfoldable pub refresh : String → String → ℕ → NodeLock → NodeLock
refresh node c now nl =
    if owned_by c (lookup node nl.locks)
    then record { locks = insert node (entry_for c now) nl.locks }
    else nl

-- `AcquiredAt.Before(now - maxAge)`, with the age on the other side.
abbrev pub is_stale : ℕ → ℕ → LockEntry → Bool
is_stale max_age now e = ltb (e.acquired_at + max_age) now

unfoldable pub expire_stale : ℕ → ℕ → NodeLock → NodeLock
expire_stale max_age now nl = record {
  locks = retain (λ node e. not (is_stale max_age now e)) nl.locks;
}

-- A missing key of a `map[string]bool` reads false.
abbrev pub is_set : Option Bool → Bool
is_set none = false
is_set (some b) = b

unfoldable pub prune_deleted : GoMap Bool → NodeLock → NodeLock
prune_deleted current nl = record {
  locks = retain (λ node e. is_set (lookup node current)) nl.locks;
}

-- The calls that change the table.
pub data Call : Type 0 where
  try_locks unlocks refreshes : String → String → Call
  expires : ℕ → Call
  prunes : GoMap Bool → Call

unfoldable pub step : NodeLock → ℕ × Call → NodeLock
unfolding try_lock unlock refresh expire_stale prune_deleted
step nl (now, try_locks node c) = (try_lock node c now nl).0
step nl (now, unlocks node c) = unlock node c nl
step nl (now, refreshes node c) = refresh node c now nl
step nl (now, expires max_age) = expire_stale max_age now nl
step nl (now, prunes current) = prune_deleted current nl

unfoldable pub run : NodeLock → List (ℕ × Call) → NodeLock
unfolding step
run nl [] = nl
run nl (c ∷ cs) = run (step nl c) cs
