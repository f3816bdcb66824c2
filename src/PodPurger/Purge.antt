-- ===== src/PodPurger/Purge.antt =====
-- What a round over the pods deletes.
use katalyst.Prelude.{
  ℕ, ◌+◌, ◌<◌, String, ◌≡◌, refl, sym, ap, ◌∙◌, inl, inr, Bool, true, false, ◌&&◌, not, some, List,
  [], ◌∷◌, ◌++◌, arith, ltb, leb, if◌then◌else◌, Bool-cases, Option-cases, is_some, length, keep,
}
use mathlib.Core.List.{append_assoc, append-nil}
use katalyst.Prelude.Float64.{Float64}
use katalyst.State.AuditLog.{AuditEvent, AuditLog, make_room, record_event}
use katalyst.PodPurger.{
  Pod, bad_status_set, system_namespaces, contains, compute_pod_status, is_own, event, World,
  record_result, audited, delete_pod, purge_pod, purge_all,
}

-- A pod in an error state for long enough, of no system namespace and not the program's own.
unfoldable pub is_purgeable : ℕ → ℕ → Pod → Bool
is_purgeable min_age now p =
    not (contains system_namespaces p.namespace)
    && (not (is_own p)
        && (contains bad_status_set (compute_pod_status p) && leb (p.creation + min_age) now))

make_room-some :
    (max_events : ℕ) (e : AuditEvent) (es : List AuditEvent)
    → 0 < max_events
    → is_some (make_room max_events e es) ≡ true
unfolding make_room
make_room-some max_events e [] h = let room : leb max_events 0 ≡ false = ground arith in rw room
make_room-some max_events e (x ∷ xs) h = elim (Bool-cases (leb max_events (length (x ∷ xs)))) [
  | inl y ↦ rw y
  | inr n ↦ rw n
]

-- An event is recorded whenever the buffer has a size.
record_event-some :
    (e : AuditEvent) (a : AuditLog)
    → 0 < a.max_events
    → (b : AuditLog) × (record_event e a ≡ some b)
      × (b.max_events ≡ a.max_events)
      × (b.has_writer ≡ a.has_writer)
      × (b.handed_over ≡ (if a.has_writer then a.handed_over ++ e ∷ [] else a.handed_over))
unfolding record_event
record_event-some e a h = elim (Option-cases (make_room a.max_events e a.events)) [
  | inl n ↦
      let clash : false ≡ true = sym (ap is_some n) ∙ make_room-some a.max_events e a.events h in cc
  | inr (es, y) ↦ (
    record a {
      events = es;
      handed_over = if a.has_writer then a.handed_over ++ e ∷ [] else a.handed_over;
    },
    rw (record_event, y),
    refl,
    refl,
    refl,
  )
]

-- The four guards, as one.
guards {ℓ} :
    {X : Type ℓ} (system own bad young : Bool) (x y : X)
    → (if system then x else if own then x else if not bad then x else if young then x else y)
      ≡ (if not system && (not own && (bad && not young)) then y else x)
guards true own bad young x y = refl
guards false true bad young x y = refl
guards false false false young x y = refl
guards false false true true x y = refl
guards false false true false x y = refl

module _ (Fl : Float64) {C : Type 0} (delete : String → String → C → C × Bool)
    (describe : Pod → Bool → String) where
  -- The cluster after the deletion of some pods, one after the other.
  unfoldable pub delete_all : List Pod → C → C
  delete_all [] c = c
  delete_all (p ∷ pods) c = delete_all pods (delete p.namespace p.name c).0

  purge_pod-delete_pod :
      (min_age now : ℕ) (p : Pod) (w : World Fl delete describe)
      → purge_pod Fl delete describe min_age now p w
        ≡ (if is_purgeable min_age now p then delete_pod Fl delete describe now p w else some w)
  unfolding purge_pod is_purgeable
  purge_pod-delete_pod min_age now p w =
      let age : leb (p.creation + min_age) now ≡ not (ltb now (p.creation + min_age)) =
        ground arith in
      rw age (
        guards (contains system_namespaces p.namespace) (is_own p)
          (contains bad_status_set (compute_pod_status p)) (ltb now (p.creation + min_age)) (some w)
          (delete_pod Fl delete describe now p w))

  -- The events of the deletions of some pods, one after the other: whether each succeeds depends on those
  -- before it.
  unfoldable pub deletion_events : ℕ → List Pod → C → List AuditEvent
  deletion_events now [] c = []
  deletion_events now (p ∷ pods) c =
      event Fl delete describe now p (delete p.namespace p.name c).1
      ∷ deletion_events now pods (delete p.namespace p.name c).0

  -- A world whose audit log records every event.
  abbrev pub Records : World Fl delete describe → Type 0
  Records w = (0 < w.audit.max_events) × (w.audit.has_writer ≡ true)

  delete_pod-some :
      (now : ℕ) (p : Pod) (w : World Fl delete describe)
      → Records w
      → (v : World Fl delete describe) × (delete_pod Fl delete describe now p w ≡ some v)
        × (v.cluster ≡ (delete p.namespace p.name w.cluster).0)
        × Records v
        × (v.audit.handed_over
            ≡ w.audit.handed_over
              ++ event Fl delete describe now p (delete p.namespace p.name w.cluster).1 ∷ [])
  unfolding delete_pod
  delete_pod-some now p w (size, writes) =
      let deleted : C × Bool = delete p.namespace p.name w.cluster in
      let e : AuditEvent = event Fl delete describe now p deleted.1 in
      let (a, recorded, same_size, same_writer, over) = record_event-some e w.audit size in
      let handed : a.handed_over ≡ w.audit.handed_over ++ e ∷ [] = over ∙ rw writes in
      (
        record {
          cluster = deleted.0;
          audit = a;
          breaker = record_result Fl delete describe now deleted.1 w.breaker;
        },
        ap
            (audited Fl delete describe w deleted.0
              (record_result Fl delete describe now deleted.1 w.breaker))
            recorded,
        refl,
        (omega (arith, same_size), same_writer ∙ writes),
        handed,
      )

  pub purge_all-keep :
      (min_age now : ℕ) (pods : List Pod) (w : World Fl delete describe)
      → Records w
      → (v : World Fl delete describe) × (purge_all Fl delete describe min_age now pods w ≡ some v)
        × (v.cluster ≡ delete_all (keep (is_purgeable min_age now) pods) w.cluster)
        × Records v
        × (v.audit.handed_over
            ≡ w.audit.handed_over
              ++ deletion_events now (keep (is_purgeable min_age now) pods) w.cluster)
  unfolding purge_all delete_all deletion_events
  purge_all-keep min_age now [] w r = (w, refl, refl, r, sym (append-nil w.audit.handed_over))
  purge_all-keep min_age now (p ∷ pods) w r = elim (Bool-cases (is_purgeable min_age now p)) [
    | inr kept ↦
        let here : purge_pod Fl delete describe min_age now p w ≡ some w =
          purge_pod-delete_pod min_age now p w ∙ rw kept in
        rw (here, kept) (purge_all-keep min_age now pods w r)
    | inl gone ↦
        let (u, done, cluster, records, events) = delete_pod-some now p w r in
        let here : purge_pod Fl delete describe min_age now p w ≡ some u =
          purge_pod-delete_pod min_age now p w ∙ rw gone done in
        let (v, rest, later, still, more) = purge_all-keep min_age now pods u records in
        let purged : List Pod = keep (is_purgeable min_age now) pods in
        let first : AuditEvent =
          event Fl delete describe now p (delete p.namespace p.name w.cluster).1 in
        rw (here, gone)
          (
            v,
            rest,
            later ∙ ap (delete_all purged) cluster,
            still,
            more
                ∙ ap (λ l. l ++ deletion_events now purged u.cluster) events
                ∙ append_assoc w.audit.handed_over (first ∷ [])
                    (deletion_events now purged u.cluster)
                ∙ ap (λ c. w.audit.handed_over ++ first ∷ deletion_events now purged c) cluster,
          )
  ]
