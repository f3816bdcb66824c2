-- ===== src/Store/Writer/Tests.antt =====
-- Runs of the writer, and the theorems at concrete states.
use katalyst.Prelude.{ℕ, ◌+◌, ◌≤◌, ◌≡◌, refl, ◌⊎◌, inl, true, false, [], ◌∷◌, arith, length}
use katalyst.Prelude.Words.{lt64}
use katalyst.Store.Writer.{
  Writer, running, finished, new_writer, enqueue, enqueues, starts, cancels, receives, ends,
  notices, gives_up, marks, closes, Reach, here, next, HasDrained,
}
use katalyst.Store.Writer.Order.{Inv, reachable-Inv}
use katalyst.Store.Writer.Progress.{starts_here, works, CanWork, Run-HasDrained}
use katalyst.Store.Writer.Drain.{HasDrained-executed, enqueue-lost}

abbrev started : Writer ℕ
started = record {
  queue = [];
  capacity = 1;
  closed = false;
  channel_closed = false;
  cancelled = false;
  worker = running;
  dropped = 0;
  executed = [];
  accepted = [];
}

abbrev holding : Writer ℕ
holding = record started { queue = 7 ∷ []; accepted = 7 ∷ [] }

start_reachable : Reach (new_writer 1) started
unfolding new_writer lt64
start_reachable = next here (starts refl refl)

holding_reachable : Reach (new_writer 1) holding
unfolding enqueue
holding_reachable = next start_reachable (enqueues 7 refl)

-- The run of `holding` to its end: the write is executed, then the channel is closed.
abbrev done : Writer ℕ
done = record started {
  closed = true;
  channel_closed = true;
  worker = finished;
  executed = 7 ∷ [];
  accepted = 7 ∷ [];
}

done_reachable : Reach (new_writer 1) done
done_reachable =
    next
      (next (next (next holding_reachable (receives 7 [] refl refl refl)) (marks refl))
        (closes refl refl))
      (ends refl refl refl refl)

abbrev left : Writer ℕ
left = record started { cancelled = true; worker = finished }

-- The worker leaves after a cancellation.
left_reachable : Reach (new_writer 1) left
left_reachable =
    next (next (next start_reachable (cancels refl)) (notices refl refl refl))
      (gives_up refl refl refl)

reachable-Inv_example : Inv holding
reachable-Inv_example = reachable-Inv 1 holding holding_reachable

HasDrained-executed_example : (done.queue ≡ []) × (done.executed ≡ done.accepted)
HasDrained-executed_example =
    HasDrained-executed 1 done done_reachable (record { is_closed = refl; no_worker = inl refl })
      refl (λ e. cc)

enqueue-lost_example :
    (u : Writer ℕ) × Reach left u
    × HasDrained u
    × (u.accepted ≡ 9 ∷ [])
    × (u.queue ≡ 9 ∷ [])
    × ((v : Writer ℕ) → Reach u v → v.executed ≡ [])
enqueue-lost_example = enqueue-lost 9 left refl refl refl (omega arith)

-- One write waits when the channel is closed; the worker runs it.
abbrev closing : Writer ℕ
closing = record holding { closed = true; channel_closed = true }

abbrev emptied : Writer ℕ
emptied = record closing { queue = []; executed = 7 ∷ [] }

Run-HasDrained_example : (HasDrained emptied ⊎ CanWork emptied) × (1 ≤ length closing.queue + 2)
Run-HasDrained_example =
    Run-HasDrained closing 1 emptied (record { marked = refl; no_more = refl; started = λ e. cc })
      (works starts_here (receives 7 [] refl refl refl) refl)
