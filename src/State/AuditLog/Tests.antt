-- ===== src/State/AuditLog/Tests.antt =====
-- Runs of the audit log, and the theorem at a concrete history.
use katalyst.Prelude.{
  ℕ, ◌≡◌, refl, true, false, none, some, List, [], ◌∷◌, reverse, arith, if◌then◌else◌, take,
}
use katalyst.State.AuditLog.{
  AuditEvent, AuditLog, new_audit_log, record_all, get_recent, get_all, make_room, record_event,
}
use katalyst.Prelude.Words.{lt64}
use katalyst.State.AuditLog.Buffer.{newest, history-get_recent}

abbrev event : ℕ → AuditEvent
event n = record { timestamp = n; action = "drain"; target = "n1"; user = "admin"; details = "" }

abbrev history : List AuditEvent
history = event 1 ∷ event 2 ∷ event 3 ∷ event 4 ∷ []

recent_two :
    elim (record_all history (new_audit_log 3 false)) [ none ↦ none | some a ↦ get_recent 2 a ]
    ≡ some (event 4 ∷ event 3 ∷ [])
unfolding record_all record_event make_room get_recent new_audit_log lt64
recent_two = refl

no_room_panics : record_all history (new_audit_log 0 false) ≡ none
unfolding record_all record_event make_room new_audit_log
no_room_panics = refl

history-get_recent_example :
    (b : AuditLog) × (record_all history (new_audit_log 3 true) ≡ some b)
    × (get_recent 2 b ≡ some (take 2 (reverse (newest 3 history))))
    × (get_all none b ≡ some (reverse (newest 3 history)))
    × (b.handed_over ≡ (if true then history else []))
history-get_recent_example =
    history-get_recent 3 2 true history (omega arith) (omega arith) (omega arith)
