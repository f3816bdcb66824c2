-- ===== src/State/AuditLog.antt =====
-- internal/state/audit.go: the buffer of audit events in memory. What `Record` hands to the
-- asynchronous writer is kept as the list `handed_over`; the rows that SQLite returns to `GetAll`
-- are its argument. Instants are in nanoseconds.
pub mod Buffer
mod Tests
use katalyst.Prelude.{
  ℕ, zero, suc, ◌+◌, ◌-◌, ◌*◌, ◌/◌, ◌%◌, ◌^◌, ◌≤◌, ◌<◌, String, ◌≡◌, refl, sym, ap, ◌∙◌, subst, ◌≢◌,
  ◌↔◌, ◌⊎◌, inl, inr, Bool, true, false, ◌&&◌, ◌||◌, not, Option, none, some, List, [], ◌∷◌, ◌++◌,
  map, reverse, arith, str_eq, eq_iff, ltb, leb, ◌==◌, if◌then◌else◌, ltb→lt, lt→ltb, leb→le,
  le→leb, ==_iff, tests, Bool-cases, Option-cases, is_some, &&_iff, not_iff, length, take, drop,
  get_elem?, set, all, any, keep, length-append, length-keep-le, length-take, length-drop, drop-set,
  take-set, length-set, get_elem?-drop, drop-length, drop-drop, drop-append, length-reverse,
  get_elem?-reverse, All, Any, all_iff, any_iff,
}
use katalyst.Prelude.Words.{lt64}

pub record AuditEvent : Type 0 where
  pub timestamp : ℕ
  pub action : String
  pub target : String
  pub user : String
  pub details : String

pub record AuditLog : Type 0 where
  pub events : List AuditEvent
  pub max_events : ℕ
  pub has_writer : Bool
  pub handed_over : List AuditEvent

unfoldable pub new_audit_log : ℕ → Bool → AuditLog
new_audit_log max_events has_writer = record {
  events = [];
  max_events = max_events;
  has_writer = has_writer;
  handed_over = [];
}

-- `copy(dst, src)` writes the elements of `src` over those of `dst`, as far as both reach.
abbrev pub copy : List AuditEvent → List AuditEvent → List AuditEvent
copy [] src = []
copy (d ∷ dst) [] = d ∷ dst
copy (d ∷ dst) (s ∷ src) = s ∷ copy dst src

-- The events after `Record`; `none` is the panic of `a.events[1:]` on an empty slice.
unfoldable pub make_room : ℕ → AuditEvent → List AuditEvent → Option (List AuditEvent)
make_room max_events e [] = if leb max_events 0 then none else some (e ∷ [])
make_room max_events e (x ∷ xs) =
    let n = length (x ∷ xs) in
    if leb max_events n then some (set (copy (x ∷ xs) xs) (n - 1) e) else some ((x ∷ xs) ++ e ∷ [])

unfoldable pub record_event : AuditEvent → AuditLog → Option AuditLog
record_event e a = elim (make_room a.max_events e a.events) [
  | none ↦ none
  | some events ↦ some (record a {
    events = events;
    handed_over = if a.has_writer then a.handed_over ++ e ∷ [] else a.handed_over;
  })
]

unfoldable pub record_all : List AuditEvent → AuditLog → Option AuditLog
record_all [] a = some a
record_all (e ∷ es) a = elim (record_event e a) [ none ↦ none | some b ↦ record_all es b ]

-- `result[i] = a.events[count-1-i]`, for the `rounds` values of `i` from the one given.
unfoldable pub recent_loop : List AuditEvent → ℕ → ℕ → List AuditEvent
recent_loop events zero i = []
recent_loop events (suc rounds) i =
    let rest = recent_loop events rounds (suc i) in
    elim (get_elem? events (length events - 1 - i)) [ none ↦ rest | some e ↦ e ∷ rest ]

-- `n` is an `int64`; `make` panics on a negative length, which `none` stands for.
unfoldable pub get_recent : ℕ → AuditLog → Option (List AuditEvent)
unfolding recent_loop
get_recent n a =
    if lt64 n 0
    then none
    else let count = length a.events in
      some (recent_loop a.events (if lt64 count n then count else n) 0)

-- `GetAll`, given the rows of `queryAll`, or `none` where there is no database or the query failed.
unfoldable pub get_all : Option (List AuditEvent) → AuditLog → Option (List AuditEvent)
get_all (some rows) a = some rows
get_all none a = get_recent (length a.events) a
