-- ===== src/Store/Writer/Drain.antt =====
-- What `Drain` promises, and where it does not keep it.
use mathlib.Core.List.{append-nil}
use katalyst.Prelude.{
  ℕ, ◌<◌, ◌≡◌, refl, sym, ap, ◌∙◌, ◌≢◌, inl, true, false, some, List, [], ◌∷◌, ◌++◌, arith, lt→ltb,
  length,
}
use katalyst.Store.Writer.{
  Writer, not_started, draining, finished, new_writer, enqueue, Step, enqueues, starts, cancels,
  receives, ends, notices, flushes, gives_up, marks, closes, Reach, here, next, HasDrained,
}
use katalyst.Store.Writer.Order.{Inv, reachable-Inv}

module _ {A : Type 0} where
  -- Without a cancellation the worker ends only on the closed and empty channel.
  record Quits (w : Writer A) : Type 0 where
    not_draining : w.cancelled ≡ false → w.worker ≢ draining
    at_end : w.cancelled ≡ false → w.worker ≡ finished → (w.queue ≡ []) × (w.channel_closed ≡ true)

  new_writer-Quits : (buf_size : ℕ) → Quits (new_writer buf_size)
  unfolding new_writer
  new_writer-Quits buf_size = record { not_draining = λ _ e. cc; at_end = λ _ e. cc }

  Step-Quits : {w u : Writer A} → Inv w → Quits w → Step w u → Quits u
  unfolding enqueue
  Step-Quits {w} {u} i q (enqueues x e) = ground arith
  Step-Quits {w} {u} i q (starts h e) = ground arith
  Step-Quits {w} {u} i q (cancels e) = ground arith
  Step-Quits {w} {u} i q (receives x rest h k e) = ground arith
  Step-Quits {w} {u} i q (ends h k c e) = ground arith
  Step-Quits {w} {u} i q (notices h c e) = ground arith
  Step-Quits {w} {u} i q (flushes x rest h k e) = ground arith
  Step-Quits {w} {u} i q (gives_up h k e) = ground arith
  Step-Quits {w} {u} i q (marks e) = ground arith
  Step-Quits {w} {u} i q (closes c e) = ground arith

  Reach-Quits : (buf_size : ℕ) {u : Writer A} → Reach (new_writer buf_size) u → Quits u
  Reach-Quits buf_size here = new_writer-Quits buf_size
  Reach-Quits buf_size (next {u} r s) =
      Step-Quits (reachable-Inv buf_size u r) (Reach-Quits buf_size r) s

  -- If the context is not cancelled and the worker was started, then once `Drain` has returned
  -- every accepted write has been executed, in the order of acceptance, and none waits.
  pub HasDrained-executed :
      (buf_size : ℕ) (w : Writer A)
      → Reach (new_writer buf_size) w
      → HasDrained w
      → w.cancelled ≡ false
      → w.worker ≢ not_started
      → (w.queue ≡ []) × (w.executed ≡ w.accepted)
  HasDrained-executed buf_size w r d c s =
      let i = reachable-Inv buf_size w r in
      let q = Reach-Quits buf_size r in
      let stopped : w.worker ≡ finished = ground (arith, d.no_worker) in
      let empty : w.queue ≡ [] = (q.at_end c stopped).0 in
      (empty, sym (append-nil w.executed) ∙ ap (◌++◌ w.executed) (sym empty) ∙ i.in_order)

  -- A worker that has returned stays so, and what was executed stays as it is.
  record IsStopped (executed : List A) (w : Writer A) : Type 0 where
    stopped : w.worker ≡ finished
    same : w.executed ≡ executed

  Step-IsStopped : {es : List A} {w u : Writer A} → IsStopped es w → Step w u → IsStopped es u
  unfolding enqueue
  Step-IsStopped {es} {w} {u} i (enqueues x e) = ground arith
  Step-IsStopped {es} {w} {u} i (starts h e) = ground arith
  Step-IsStopped {es} {w} {u} i (cancels e) = ground arith
  Step-IsStopped {es} {w} {u} i (receives x rest h k e) = ground arith
  Step-IsStopped {es} {w} {u} i (ends h k c e) = ground arith
  Step-IsStopped {es} {w} {u} i (notices h c e) = ground arith
  Step-IsStopped {es} {w} {u} i (flushes x rest h k e) = ground arith
  Step-IsStopped {es} {w} {u} i (gives_up h k e) = ground arith
  Step-IsStopped {es} {w} {u} i (marks e) = ground arith
  Step-IsStopped {es} {w} {u} i (closes c e) = ground arith

  Reach-IsStopped : {es : List A} {w u : Writer A} → IsStopped es w → Reach w u → IsStopped es u
  Reach-IsStopped i here = i
  Reach-IsStopped i (next r s) = Step-IsStopped (Reach-IsStopped i r) s

  -- After a cancellation the promise fails: whenever the worker has returned and the writer is not
  -- closed, a write for which there is room is accepted, `Drain` can then return, and in no
  -- continuation is anything more executed.
  pub enqueue-lost :
      (x : A) (w : Writer A)
      → w.worker ≡ finished
      → w.closed ≡ false
      → w.channel_closed ≡ false
      → length w.queue < w.capacity
      → (u : Writer A) × Reach w u
        × HasDrained u
        × (u.accepted ≡ w.accepted ++ x ∷ [])
        × (u.queue ≡ w.queue ++ x ∷ [])
        × ((v : Writer A) → Reach u v → v.executed ≡ w.executed)
  unfolding enqueue
  enqueue-lost x w h c k room =
      let a : Writer A = record w { queue = w.queue ++ x ∷ []; accepted = w.accepted ++ x ∷ [] } in
      let accepts : enqueue x w ≡ some a = rw (c, k, lt→ltb _ _ room) in
      let b : Writer A = record a { closed = true } in
      let u : Writer A = record b { channel_closed = true } in
      (
        u,
        next (next (next here (enqueues x accepts)) (marks refl)) (closes refl refl),
        record { is_closed = refl; no_worker = inl h },
        refl,
        refl,
        λ v r. (Reach-IsStopped (record { stopped = h; same = refl }) r).same,
      )
