-- ===== src/Rt/Awaited.antt =====
-- src/rt.rs, `into_future` with `Start`, `Done`, `Slot` and `CancelOnDrop`: a Python awaitable run
-- as a task on its loop for a Rust future. The loop and the Rust side may act in any order.
pub mod Invariant
use zmux_python.Prelude.{
  ℕ, ◌+◌, Bool, true, false, not, ◌&&◌, Option, none, some, List, [], ◌∷◌, if◌then◌else◌,
}

-- Where the sender of the result is: in `Start`, in `Done`, used or dropped.
pub data Sender : Type 0 where
  in_start in_done used lost : Sender

-- The awaitable: not touched, dropped with a `Start` that never ran, closed, left alone because it
-- cannot be closed, refused by `ensure_future`, run as a task, a task that ended and whose `Done`
-- was called, or a task whose `Done` was dropped before it was called.
pub data Coroutine : Type 0 where
  fresh unstarted closed left refused running ended abandoned : Coroutine

-- The Rust future of the results `R`: awaited, ready with a result or with `CancelledError` because
-- the sender was dropped, or dropped before.
pub data Rust (R : Type 0) : Type 0 where
  awaiting : Rust R
  returned : R → Rust R
  orphaned : Rust R
  dropped : Rust R

pub record Bridge (R : Type 0) : Type 0 where
  pub awaitable : Bool  -- `Start.awaitable`
  pub tx : Sender
  pub task : Bool  -- `Slot.task`
  pub slot_dropped : Bool  -- `Slot.dropped`
  pub coroutine : Coroutine
  pub cancels : ℕ  -- how often the task's `cancel` was scheduled
  pub received : Option R  -- what is in the oneshot channel
  pub rust : Rust R

abbrev pub initial : {R : Type 0} → Bridge R
initial = record {
  awaitable = true;
  tx = in_start;
  task = false;
  slot_dropped = false;
  coroutine = fresh;
  cancels = 0;
  received = none;
  rust = awaiting;
}

-- What happens next: the loop runs `Start`, where the awaitable may have `close` and
-- `ensure_future` may raise; a task ends with a result and its callback `Done` runs; a `Start` is
-- dropped, after it has run or, where the loop is closed, without; a `Done` is dropped, with the
-- loop or the task, before it is called; the Rust side polls the future or drops it.
pub data Event (R : Type 0) : Type 0 where
  start : (has_close raises : Bool) → Event R
  done : R → Event R
  start_collected : Event R
  done_collected : Event R
  poll : Event R
  drop : Event R

module _ {R : Type 0} where
  -- `Start.__call__`
  pub start_call : Bool → Bool → Bridge R → Bridge R
  start_call has_close raises b =
      if not b.awaitable
      then b
      else if b.slot_dropped
      then record b { awaitable = false; coroutine = if has_close then closed else left }
      else if raises
      then record b { awaitable = false; coroutine = refused }
      else record b { awaitable = false; coroutine = running; tx = in_done; task = true }

  -- `Done.__call__`, which the task calls once, when it ends.
  pub done_at : Coroutine → Sender → R → Bridge R → Bridge R
  done_at running in_done r b = record b { coroutine = ended; tx = used; received = some r }
  done_at running tx r b = record b { coroutine = ended }
  done_at c tx r b = b

  -- The oneshot's sender goes with `Start` where `Start` still has it, and so does the awaitable.
  pub collect_at : Bool → Sender → Bridge R → Bridge R
  collect_at false in_start b = record b { tx = lost }
  collect_at true in_start b = record b { awaitable = false; coroutine = unstarted; tx = lost }
  collect_at awaitable tx b = b

  -- The sender goes with a `Done` that still has it.
  pub collect_done_at : Sender → Bridge R → Bridge R
  collect_done_at in_done b = record b { coroutine = abandoned; tx = lost }
  collect_done_at tx b = b

  -- A poll: `rx.await`, then `armed = false`.
  pub poll_at : Rust R → Option R → Sender → Bridge R → Bridge R
  poll_at awaiting (some r) tx b = record b { rust = returned r }
  poll_at awaiting none lost b = record b { rust = orphaned }
  poll_at rust received tx b = b

  -- `CancelOnDrop::drop`; a future that returned is disarmed.
  pub drop_at : Rust R → Bridge R → Bridge R
  drop_at awaiting b = record b {
    rust = dropped;
    slot_dropped = true;
    task = false;
    cancels = if b.task then b.cancels + 1 else b.cancels;
  }
  drop_at rust b = b

  unfoldable pub step : Event R → Bridge R → Bridge R
  unfolding start_call done_at collect_at collect_done_at poll_at drop_at
  step (start has_close raises) b = start_call has_close raises b
  step (done r) b = done_at b.coroutine b.tx r b
  step start_collected b = collect_at b.awaitable b.tx b
  step done_collected b = collect_done_at b.tx b
  step poll b = poll_at b.rust b.received b.tx b
  step drop b = drop_at b.rust b

  unfoldable pub run : List (Event R) → Bridge R → Bridge R
  unfolding step
  run [] b = b
  run (e ∷ es) b = run es (step e b)
