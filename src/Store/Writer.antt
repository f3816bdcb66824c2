-- ===== src/Store/Writer.antt =====
-- internal/store/writer.go: a bounded channel between any number of `Enqueue` callers, one worker
-- goroutine and `Drain`. A step of the relation is what happens without interruption: `Enqueue`
-- under the mutex, one round of the worker's `select`, the parts of `Drain`. A write is a value of
-- an arbitrary type, and `executed` is what the worker has run. `accepted` is a history variable:
-- the writes that `Enqueue` has sent.
pub mod Order
pub mod Drain
pub mod Progress
mod Tests
use katalyst.Prelude.{
  ℕ, zero, suc, ◌+◌, ◌-◌, ◌*◌, ◌/◌, ◌%◌, ◌^◌, ◌≤◌, ◌<◌, String, ◌≡◌, refl, sym, ap, ◌∙◌, subst, ◌≢◌,
  ◌↔◌, ◌⊎◌, inl, inr, Bool, true, false, ◌&&◌, ◌||◌, not, Option, none, some, List, [], ◌∷◌, ◌++◌,
  map, reverse, arith, str_eq, eq_iff, ltb, leb, ◌==◌, if◌then◌else◌, ltb→lt, lt→ltb, leb→le,
  le→leb, ==_iff, tests, Bool-cases, Option-cases, is_some, &&_iff, not_iff, length, take, drop,
  get_elem?, set, all, any, keep, length-append, length-keep-le, length-take, length-drop, drop-set,
  take-set, length-set, get_elem?-drop, drop-length, drop-drop, drop-append, length-reverse,
  get_elem?-reverse, All, Any, all_iff, any_iff,
}
use katalyst.Prelude.Words.{lt64, mod64}

-- Before `Run`; at the outer `select`; in the inner loop after `ctx.Done()`; returned.
pub data Worker : Type 0 where
  not_started running draining finished : Worker

pub record Writer (A : Type 0) : Type 0 where
  pub queue : List A
  pub capacity : ℕ
  pub closed : Bool
  pub channel_closed : Bool
  pub cancelled : Bool
  pub worker : Worker
  pub dropped : ℕ
  pub executed : List A
  pub accepted : List A

module _ {A : Type 0} where
  -- `bufSize` is an `int64`.
  unfoldable pub new_writer : ℕ → Writer A
  new_writer buf_size = record {
    queue = [];
    capacity = if lt64 0 buf_size then buf_size else 4096;
    closed = false;
    channel_closed = false;
    cancelled = false;
    worker = not_started;
    dropped = 0;
    executed = [];
    accepted = [];
  }

  -- The non-blocking send. `none` is the panic of a send on a closed channel.
  unfoldable pub send : A → Writer A → Option (Writer A)
  send x w =
      if w.channel_closed
      then none
      else if ltb (length w.queue) w.capacity
      then some (record w { queue = w.queue ++ x ∷ []; accepted = w.accepted ++ x ∷ [] })
      else some (record w { dropped = (w.dropped + 1) % mod64 })

  unfoldable pub enqueue : A → Writer A → Option (Writer A)
  unfolding send
  enqueue x w = if w.closed then some w else send x w

  -- One receive of the worker, which runs the write.
  abbrev pub execute : A → List A → Writer A → Writer A
  execute x rest w = record w { queue = rest; executed = w.executed ++ x ∷ [] }

  pub data Step (w u : Writer A) : Type 0 where
    enqueues : (x : A) → enqueue x w ≡ some u → Step w u
    starts : w.worker ≡ not_started → u ≡ record w { worker = running } → Step w u
    cancels : u ≡ record w { cancelled = true } → Step w u
    -- The outer `select`.
    receives :
        (x : A) (rest : List A)
        → w.worker ≡ running
        → w.queue ≡ x ∷ rest
        → u ≡ execute x rest w
        → Step w u
    ends :
        w.worker ≡ running
        → w.queue ≡ []
        → w.channel_closed ≡ true
        → u ≡ record w { worker = finished }
        → Step w u
    notices :
        w.worker ≡ running → w.cancelled ≡ true → u ≡ record w { worker = draining } → Step w u
    -- The inner loop; its `default` and its receive from a closed channel both return.
    flushes :
        (x : A) (rest : List A)
        → w.worker ≡ draining
        → w.queue ≡ x ∷ rest
        → u ≡ execute x rest w
        → Step w u
    gives_up : w.worker ≡ draining → w.queue ≡ [] → u ≡ record w { worker = finished } → Step w u
    -- `Drain`, once: the flag under the mutex, then the channel.
    marks : u ≡ record w { closed = true } → Step w u
    closes : w.closed ≡ true → u ≡ record w { channel_closed = true } → Step w u

  pub data Reach (w : Writer A) : Writer A → Type 0 where
    here : Reach w w
    next : {u v : Writer A} → Reach w u → Step u v → Reach w v

  -- `Drain` has returned: the channel is closed and no worker is left to wait for.
  pub record HasDrained (w : Writer A) : Type 0 where
    pub is_closed : w.channel_closed ≡ true
    pub no_worker : (w.worker ≡ finished) ⊎ (w.worker ≡ not_started)
