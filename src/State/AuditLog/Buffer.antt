-- ===== src/State/AuditLog/Buffer.antt =====
-- The buffer against the history of all events: it holds the newest ones, oldest first.
use mathlib.Core.List.{append-nil, append_assoc}
use katalyst.Prelude.{
  ℕ, zero, suc, ◌+◌, ◌-◌, ◌≤◌, ◌<◌, ◌≡◌, refl, sym, ap, ◌∙◌, inl, inr, Bool, false, none, some,
  List, [], ◌∷◌, ◌++◌, reverse, arith, ltb, leb, if◌then◌else◌, Bool-cases, length, take, drop,
  get_elem?, set, length-append, length-drop, get_elem?-drop, drop-drop, drop-append,
  length-reverse, get_elem?-reverse,
}
use katalyst.Prelude.Words.{lt64_exact, sign64}
use katalyst.State.AuditLog.{
  AuditEvent, AuditLog, new_audit_log, copy, make_room, record_event, record_all, recent_loop,
  get_recent, get_all,
}

-- The newest events of a history, at most so many.
abbrev pub newest : ℕ → List AuditEvent → List AuditEvent
newest max_events history = drop (length history - max_events) history

-- Copying a list's own tail over it moves each event one place to the left, and leaves the last
-- place for the new one.
set-copy_tail :
    (x : AuditEvent) (xs : List AuditEvent) (e : AuditEvent)
    → set (copy (x ∷ xs) xs) (length xs) e ≡ xs ++ e ∷ []
set-copy_tail x [] e = refl
set-copy_tail x (y ∷ ys) e = ap (◌∷◌ y) (set-copy_tail y ys e)

make_room-newest :
    (max_events : ℕ) (e : AuditEvent) (events : List AuditEvent)
    → 0 < max_events
    → length events ≤ max_events
    → make_room max_events e events ≡ some (newest max_events (events ++ e ∷ []))
unfolding make_room
make_room-newest max_events e [] h b =
    let empty : leb max_events 0 ≡ false = ground arith in
    let none_over : 1 - max_events ≡ 0 = omega arith in rw (empty, none_over)
make_room-newest max_events e (x ∷ xs) h b = elim (Bool-cases (leb max_events (length (x ∷ xs)))) [
  | inl full ↦
      let last : suc (length xs) - 1 ≡ length xs = omega arith in
      let one_over : suc (length (xs ++ e ∷ [])) - max_events ≡ 1 =
        ground (arith, length-append xs (e ∷ [])) in
      rw (full, last, one_over) (ap some (set-copy_tail x xs e))
  | inr room ↦
      let none_over : suc (length (xs ++ e ∷ [])) - max_events ≡ 0 =
        ground (arith, length-append xs (e ∷ [])) in
      rw (room, none_over)
]

length-newest-le :
    (max_events : ℕ) (history : List AuditEvent) → length (newest max_events history) ≤ max_events
length-newest-le max_events history =
    omega (arith, length-drop (length history - max_events) history)

-- Dropping what is too old may wait: only the newest events of the whole history are left.
newest-append :
    (max_events : ℕ) (xs ys : List AuditEvent)
    → newest max_events (newest max_events xs ++ ys) ≡ newest max_events (xs ++ ys)
newest-append max_events xs ys =
    let k : ℕ = length xs - max_events in
    let within : k ≤ length xs = omega arith in
    let joined : newest max_events xs ++ ys ≡ drop k (xs ++ ys) =
      sym (drop-append k xs ys within) in
    let count : length (xs ++ ys) ≡ length xs + length ys = length-append xs ys in
    let left : length (drop k (xs ++ ys)) ≡ length (xs ++ ys) - k = length-drop k (xs ++ ys) in
    rw (joined, left, drop-drop (length (xs ++ ys) - k - max_events) k (xs ++ ys))
      (ap (λ n. drop n (xs ++ ys)) (omega arith))

-- The buffer and what the writer was handed, after a history of events.
pub record Holds (a b : AuditLog) (es : List AuditEvent) : Type 0 where
  pub buffered : b.events ≡ newest a.max_events (a.events ++ es)
  pub handed : b.handed_over ≡ (if a.has_writer then a.handed_over ++ es else a.handed_over)
  pub same_max : b.max_events ≡ a.max_events
  pub same_writer : b.has_writer ≡ a.has_writer

record_event-Holds :
    (e : AuditEvent) (a : AuditLog)
    → 0 < a.max_events
    → length a.events ≤ a.max_events
    → (b : AuditLog) × (record_event e a ≡ some b) × Holds a b (e ∷ [])
unfolding record_event
record_event-Holds e a h k =
    let room = make_room-newest a.max_events e a.events h k in
    (
      record a {
        events = newest a.max_events (a.events ++ e ∷ []);
        handed_over = if a.has_writer then a.handed_over ++ e ∷ [] else a.handed_over;
      },
      rw (room, record_event),
      record { buffered = refl; handed = refl; same_max = refl; same_writer = refl },
    )

Holds-nil : (a : AuditLog) → length a.events ≤ a.max_events → Holds a a []
Holds-nil a k =
    let none_over : length a.events - a.max_events ≡ 0 = omega arith in
    record {
      buffered = rw (append-nil a.events, none_over);
      handed = rw (append-nil a.handed_over) (ground arith);
      same_max = refl;
      same_writer = refl;
    }

Holds-append :
    (a b c : AuditLog) (xs ys : List AuditEvent)
    → Holds a b xs
    → Holds b c ys
    → Holds a c (xs ++ ys)
Holds-append a b c xs ys hb hc = record {
  buffered =
      hc.buffered
      ∙ rw (hb.buffered, hb.same_max, ← append_assoc a.events xs ys)
          (newest-append a.max_events (a.events ++ xs) ys);
  handed = ground (arith, append_assoc a.handed_over xs ys);
  same_max = hc.same_max ∙ hb.same_max;
  same_writer = hc.same_writer ∙ hb.same_writer;
}

pub record_all-Holds :
    (es : List AuditEvent) (a : AuditLog)
    → 0 < a.max_events
    → length a.events ≤ a.max_events
    → (b : AuditLog) × (record_all es a ≡ some b) × Holds a b es
unfolding record_all
record_all-Holds [] a h k = (a, refl, Holds-nil a k)
record_all-Holds (e ∷ es) a h k =
    let (b, one, hb) = record_event-Holds e a h k in
    let small : length b.events ≤ b.max_events =
      rw (hb.buffered, hb.same_max) (length-newest-le a.max_events (a.events ++ e ∷ [])) in
    let (c, rest, hc) = record_all-Holds es b (rw hb.same_max h) small in
    (c, rw (one, record_all) rest, Holds-append a b c (e ∷ []) es hb hc)

take-length_le : (n : ℕ) (xs : List AuditEvent) → length xs ≤ n → take n xs ≡ xs
take-length_le zero [] h = refl
take-length_le zero (x ∷ xs) h = absurd (omega arith)
take-length_le (suc n) [] h = refl
take-length_le (suc n) (x ∷ xs) h = ap (◌∷◌ x) (take-length_le n xs (omega arith))

recent_loop-reverse :
    (events : List AuditEvent) (rounds i : ℕ)
    → i + rounds ≤ length events
    → recent_loop events rounds i ≡ take rounds (drop i (reverse events))
unfolding recent_loop
recent_loop-reverse events zero i h = refl
recent_loop-reverse events (suc rounds) i h =
    let (x, here, split) =
      get_elem?-drop (reverse events) i (omega (arith, length-reverse events)) in
    let read : get_elem? events (length events - 1 - i) ≡ some x =
      sym (get_elem?-reverse events i (omega arith)) ∙ here in
    rw (recent_loop, read, split)
      (ap (◌∷◌ x) (recent_loop-reverse events rounds (suc i) (omega arith)))

-- `GetRecent` lists the newest `n` of the buffer, or all of it if it holds fewer, newest first.
pub get_recent-reverse :
    (n : ℕ) (a : AuditLog)
    → n < sign64
    → length a.events < sign64
    → get_recent n a ≡ some (take n (reverse a.events))
unfolding get_recent
get_recent-reverse n a hn hc =
    let nonneg : ltb n 0 ≡ false = ground arith in
    let count : length (reverse a.events) ≡ length a.events = length-reverse a.events in
    elim (Bool-cases (ltb (length a.events) n)) [
      | inl fewer ↦
          rw (lt64_exact n 0 hn (omega arith), lt64_exact (length a.events) n hc hn, fewer, nonneg)
            (ap some (
              recent_loop-reverse a.events (length a.events) 0 (omega arith)
              ∙ take-length_le (length a.events) (reverse a.events) (omega arith)
              ∙ sym (take-length_le n (reverse a.events) (ground arith))))
      | inr enough ↦
          rw (lt64_exact n 0 hn (omega arith), lt64_exact (length a.events) n hc hn, enough, nonneg)
            (ap some (recent_loop-reverse a.events n 0 (ground arith)))
    ]

-- A new log with room for at least one event, given any history, panics nowhere. It then holds the
-- newest events: `GetRecent n` returns the newest `n` of those, newest first, `GetAll` without a
-- database all of them; and the writer, if there is one, was handed every event in order.
pub history-get_recent :
    (max_events n : ℕ) (has_writer : Bool) (history : List AuditEvent)
    → 0 < max_events
    → max_events < sign64
    → n < sign64
    → (b : AuditLog) × (record_all history (new_audit_log max_events has_writer) ≡ some b)
      × (get_recent n b ≡ some (take n (reverse (newest max_events history))))
      × (get_all none b ≡ some (reverse (newest max_events history)))
      × (b.handed_over ≡ (if has_writer then history else []))
unfolding get_all new_audit_log
history-get_recent max_events n has_writer history pos small hn =
    let a = new_audit_log max_events has_writer in
    let (b, ran, holds) = record_all-Holds history a pos (omega arith) in
    let bound : length b.events < sign64 =
      rw holds.buffered (omega (arith, length-newest-le max_events history)) in
    let whole : get_recent (length b.events) b ≡ some (reverse b.events) =
      get_recent-reverse (length b.events) b bound bound
      ∙ ap some (
          take-length_le (length b.events) (reverse b.events)
            (omega (arith, length-reverse b.events))) in
    (
      b,
      ran,
      rw (← holds.buffered) (get_recent-reverse n b hn bound),
      rw (← holds.buffered) whole,
      holds.handed,
    )
