-- ===== src/Store/Writer/Order.antt =====
-- What holds of the writer in every interleaving.
use mathlib.Core.List.{append_assoc}
use katalyst.Prelude.{
  ℕ, ◌+◌, ◌%◌, ◌≤◌, ◌<◌, ◌≡◌, refl, ◌⊎◌, inl, inr, true, false, some, List, [], ◌∷◌, ◌++◌, arith,
  ltb, ltb→lt, Bool-cases, length, length-append,
}
use katalyst.Store.Writer.{
  Writer, new_writer, enqueue, execute, Step, enqueues, starts, cancels, receives, ends, notices,
  flushes, gives_up, marks, closes, Reach, here, next,
}
use katalyst.Prelude.Words.{mod64}

module _ {A : Type 0} where
  pub record Inv (w : Writer A) : Type 0 where
    pub in_order : w.executed ++ w.queue ≡ w.accepted
    pub bounded : length w.queue ≤ w.capacity
    pub flag_first : w.channel_closed ≡ true → w.closed ≡ true

  new_writer-Inv : (buf_size : ℕ) → Inv (new_writer buf_size)
  unfolding new_writer
  new_writer-Inv buf_size = ground arith

  enqueue-Inv : (x : A) (w u : Writer A) → Inv w → enqueue x w ≡ some u → Inv u
  unfolding enqueue
  enqueue-Inv x w u i e =
      ground (arith, append_assoc w.executed w.queue (x ∷ []), length-append w.queue (x ∷ []))

  execute-Inv :
      (x : A) (rest : List A) (w : Writer A) → Inv w → w.queue ≡ x ∷ rest → Inv (execute x rest w)
  execute-Inv x rest w i e = ground (arith, append_assoc w.executed (x ∷ []) rest)

  pub Step-Inv : {w u : Writer A} → Inv w → Step w u → Inv u
  Step-Inv {w} {u} i (enqueues x e) = enqueue-Inv x w u i e
  Step-Inv {w} {u} i (starts h e) = ground arith
  Step-Inv {w} {u} i (cancels e) = ground arith
  Step-Inv {w} {u} i (receives x rest h q e) = rw e (execute-Inv x rest w i q)
  Step-Inv {w} {u} i (ends h q c e) = ground arith
  Step-Inv {w} {u} i (notices h c e) = ground arith
  Step-Inv {w} {u} i (flushes x rest h q e) = rw e (execute-Inv x rest w i q)
  Step-Inv {w} {u} i (gives_up h q e) = ground arith
  Step-Inv {w} {u} i (marks e) = ground arith
  Step-Inv {w} {u} i (closes c e) = ground arith

  Reach-Inv : {w u : Writer A} → Inv w → Reach w u → Inv u
  Reach-Inv i here = i
  Reach-Inv i (next r s) = Step-Inv (Reach-Inv i r) s

  -- In every interleaving of callers, worker, cancellation and `Drain`: the writes that were
  -- executed, followed by those that still wait, are those that were accepted, in that order; no
  -- more wait than the buffer holds; and a channel is closed only behind the flag.
  pub reachable-Inv : (buf_size : ℕ) (w : Writer A) → Reach (new_writer buf_size) w → Inv w
  reachable-Inv buf_size w r = Reach-Inv (new_writer-Inv buf_size) r

  -- `Enqueue` never sends on the closed channel, and when the buffer is full or the writer closed
  -- it leaves the queue as it is.
  pub reachable-enqueue :
      (buf_size : ℕ) (x : A) (w : Writer A)
      → Reach (new_writer buf_size) w
      → (u : Writer A) × (enqueue x w ≡ some u)
        × (((w.closed ≡ false) × (length w.queue < w.capacity) × (u.queue ≡ w.queue ++ x ∷ []))
            ⊎ (((w.closed ≡ true) ⊎ (w.capacity ≤ length w.queue)) × (u.queue ≡ w.queue)))
  unfolding enqueue
  reachable-enqueue buf_size x w r =
      let i = reachable-Inv buf_size w r in
      elim (Bool-cases w.closed) [
        | inl shut ↦ (w, rw shut, inr (inl shut, refl))
        | inr live ↦
            let live_channel : w.channel_closed ≡ false = ground (arith, i.flag_first) in
            elim (Bool-cases (ltb (length w.queue) w.capacity)) [
              | inl room ↦ (
                record w { queue = w.queue ++ x ∷ []; accepted = w.accepted ++ x ∷ [] },
                rw (live, live_channel, room),
                inl (live, ltb→lt _ _ room, refl),
              )
              | inr full ↦ (
                record w { dropped = (w.dropped + 1) % mod64 },
                rw (live, live_channel, full),
                inr (inr (ground arith), refl),
              )
            ]
      ]
