-- ===== src/Store/Writer/Progress.antt =====
-- Once `Drain` has closed the channel, a started worker returns.
use Prim.Native.Nat.{ℕ, suc, ◌+◌, ◌≤◌}
use katalyst.Prelude.{
  ◌≡◌, refl, ◌≢◌, ◌⊎◌, inl, inr, Bool, true, false, List, [], ◌∷◌, arith, length,
}
use katalyst.Store.Writer.{
  Worker, Writer, not_started, running, draining, finished, execute, enqueue, Step, enqueues,
  starts, cancels, receives, ends, notices, flushes, gives_up, marks, closes, HasDrained,
}

-- The steps that a worker has before it at most, besides its queue.
abbrev pub stage : Worker → ℕ
stage not_started = 3
stage running = 2
stage draining = 1
stage finished = 0

stage_le : (k : Worker) → k ≢ not_started → stage k ≤ 2
stage_le not_started h = absurd (h refl)
stage_le running h = omega arith
stage_le draining h = omega arith
stage_le finished h = omega arith

abbrev pub spent : Bool → ℕ
spent true = 1
spent false = 0

module _ {A : Type 0} where
  -- Whether a step is the worker's.
  abbrev pub by_worker : {w u : Writer A} → Step w u → Bool
  by_worker (enqueues x e) = false
  by_worker (starts h e) = false
  by_worker (cancels e) = false
  by_worker (receives x rest h k e) = true
  by_worker (ends h k c e) = true
  by_worker (notices h c e) = true
  by_worker (flushes x rest h k e) = true
  by_worker (gives_up h k e) = true
  by_worker (marks e) = false
  by_worker (closes c e) = false

  -- A run with a number of steps of the worker, and any others between them.
  pub data Run (w : Writer A) : ℕ → Writer A → Type 0 where
    starts_here : Run w 0 w
    works :
        {n : ℕ} {u v : Writer A} → Run w n u → (s : Step u v) → by_worker s ≡ true → Run w (suc n) v
    others : {n : ℕ} {u v : Writer A} → Run w n u → (s : Step u v) → by_worker s ≡ false → Run w n v

  -- `Drain` has closed the channel, and the worker was started.
  pub record IsClosing (w : Writer A) : Type 0 where
    pub marked : w.closed ≡ true
    pub no_more : w.channel_closed ≡ true
    pub started : w.worker ≢ not_started

  abbrev pub left : Writer A → ℕ
  left w = length w.queue + stage w.worker

  Step-IsClosing : {w u : Writer A} → IsClosing w → Step w u → IsClosing u
  unfolding enqueue
  Step-IsClosing {w} {u} i (enqueues x e) = ground arith
  Step-IsClosing {w} {u} i (starts h e) = ground arith
  Step-IsClosing {w} {u} i (cancels e) = ground arith
  Step-IsClosing {w} {u} i (receives x rest h k e) = ground arith
  Step-IsClosing {w} {u} i (ends h k c e) = ground arith
  Step-IsClosing {w} {u} i (notices h c e) = ground arith
  Step-IsClosing {w} {u} i (flushes x rest h k e) = ground arith
  Step-IsClosing {w} {u} i (gives_up h k e) = ground arith
  Step-IsClosing {w} {u} i (marks e) = ground arith
  Step-IsClosing {w} {u} i (closes c e) = ground arith

  -- A step of the worker takes something away, and no other step adds anything.
  Step-left :
      {w u : Writer A} → IsClosing w → (s : Step w u) → spent (by_worker s) + left u ≤ left w
  unfolding enqueue
  Step-left {w} {u} i (enqueues x e) = ground arith
  Step-left {w} {u} i (starts h e) = absurd (i.started h)
  Step-left {w} {u} i (cancels e) = ground arith
  Step-left {w} {u} i (receives x rest h k e) = ground arith
  Step-left {w} {u} i (ends h k c e) = ground arith
  Step-left {w} {u} i (notices h c e) = ground arith
  Step-left {w} {u} i (flushes x rest h k e) = ground arith
  Step-left {w} {u} i (gives_up h k e) = ground arith
  Step-left {w} {u} i (marks e) = ground arith
  Step-left {w} {u} i (closes c e) = ground arith

  Run-left :
      {w : Writer A} {n : ℕ} {u : Writer A}
      → IsClosing w
      → Run w n u
      → IsClosing u × (n + left u ≤ left w)
  Run-left i starts_here = (i, omega arith)
  Run-left i (works r s e) =
      let (j, before) = Run-left i r in
      let one = Step-left j s in (Step-IsClosing j s, ground (arith, before, one, e))
  Run-left i (others r s e) =
      let (j, before) = Run-left i r in
      let none_spent = Step-left j s in (Step-IsClosing j s, ground (arith, before, none_spent, e))

  -- A step that the worker can take.
  abbrev pub CanWork : Writer A → Type 0
  CanWork w = (u : Writer A) × (s : Step w u) × (by_worker s ≡ true)

  started-CanWork :
      (w : Writer A) (k : Worker) (q : List A)
      → IsClosing w
      → w.worker ≡ k
      → w.queue ≡ q
      → HasDrained w ⊎ CanWork w
  started-CanWork w not_started q i h e = absurd (i.started h)
  started-CanWork w finished q i h e = inl (record { is_closed = i.no_more; no_worker = inl h })
  started-CanWork w running [] i h e =
      inr (record w { worker = finished }, ends h e i.no_more refl, refl)
  started-CanWork w running (x ∷ rest) i h e =
      inr (execute x rest w, receives x rest h e refl, refl)
  started-CanWork w draining [] i h e =
      inr (record w { worker = finished }, gives_up h e refl, refl)
  started-CanWork w draining (x ∷ rest) i h e =
      inr (execute x rest w, flushes x rest h e refl, refl)

  -- When the channel is closed and the worker was started, then in whatever order steps follow, `Drain`
  -- has returned or the worker can take a step, and the worker takes at most two more steps than
  -- writes are waiting: so `Drain` returns, provided that the worker goes on.
  pub Run-HasDrained :
      (w : Writer A) (n : ℕ) (u : Writer A)
      → IsClosing w
      → Run w n u
      → (HasDrained u ⊎ CanWork u) × (n ≤ length w.queue + 2)
  Run-HasDrained w n u i r =
      let (j, few) = Run-left i r in
      (
        started-CanWork u u.worker u.queue j refl refl,
        omega (arith, few, stage_le w.worker i.started),
      )
