-- ===== src/Rt/Completion.antt =====
-- src/rt.rs, `future_into_py` with `OnCancel` and `Complete`: a Rust future run on the runtime for
-- an asyncio future. The loop, the application and the runtime may act in any order.
pub mod Invariant
use zmux_python.Prelude.{
  Bool, true, false, not, ◌&&◌, ◌||◌, Option, none, some, List, [], ◌∷◌, if◌then◌else◌,
}

-- The asyncio future `target`.
pub data Target (R : Type 0) : Type 0 where
  pending cancelled : Target R
  resolved : R → Target R

-- The spawned task: its future runs; it has a result to hand over; `Complete` is scheduled; all is
-- over; `cancel_rx` came first and the future was dropped.
pub data Task (R : Type 0) : Type 0 where
  running : Task R
  finished scheduled : R → Task R
  over : Task R
  aborted : Task R

-- The sender in `OnCancel`.
pub data Sender : Type 0 where
  held used collected : Sender

pub record Bridge (R : Type 0) : Type 0 where
  pub target : Target R
  pub awaited : Bool  -- the application has a reference to `target`
  pub cancel_tx : Sender
  pub task : Task R
  pub produced : Option R  -- what the Rust future ended with

abbrev pub initial : {R : Type 0} → Bridge R
initial = record {
  target = pending;
  awaited = true;
  cancel_tx = held;
  task = running;
  produced = none;
}

-- `target.cancel()`; the callback `OnCancel` runs; the application forgets `target`; the
-- interpreter collects it; the runtime polls, with what the future gives; the result goes to the
-- loop, which may be closed; the loop runs `Complete`.
pub data Event (R : Type 0) : Type 0 where
  cancel callback forget collect : Event R
  poll : Option R → Event R
  hand_over : (loop_open : Bool) → Event R
  complete : Event R

module _ {R : Type 0} where
  -- The spawned block owns `fut_py`, a reference to `target`, until its result is handed over; so
  -- does `call_soon_threadsafe` until `Complete` has run.
  abbrev pub refers : Task R → Bool
  refers running = true
  refers (finished r) = true
  refers (scheduled r) = true
  refers over = false
  refers aborted = false

  pub cancel_at : Target R → Bridge R → Bridge R
  cancel_at pending b = record b { target = cancelled }
  cancel_at target b = b

  -- `OnCancel.__call__`
  pub callback_at : Target R → Sender → Bridge R → Bridge R
  callback_at cancelled held b = record b { cancel_tx = used }
  callback_at target tx b = b

  pub collect_at : Bool → Sender → Bridge R → Bridge R
  collect_at true held b = record b { cancel_tx = collected }
  collect_at free tx b = b

  -- The biased `select!`: `cancel_rx` is asked first, and is ready once its sender is gone.
  pub poll_at : Task R → Sender → Option R → Bridge R → Bridge R
  poll_at running held none b = b
  poll_at running held (some r) b = record b { task = finished r; produced = some r }
  poll_at running tx ready b = record b { task = aborted }
  poll_at task tx ready b = b

  pub hand_over_at : Task R → Bool → Bridge R → Bridge R
  hand_over_at (finished r) true b = record b { task = scheduled r }
  hand_over_at (finished r) false b = record b { task = over }
  hand_over_at task loop_open b = b

  -- `Complete.__call__`
  pub complete_at : Task R → Target R → Bridge R → Bridge R
  complete_at (scheduled r) pending b = record b { target = resolved r; task = over }
  complete_at (scheduled r) target b = record b { task = over }
  complete_at task target b = b

  unfoldable pub step : Event R → Bridge R → Bridge R
  unfolding cancel_at callback_at collect_at poll_at hand_over_at complete_at
  step cancel b = cancel_at b.target b
  step callback b = callback_at b.target b.cancel_tx b
  step forget b = record b { awaited = false }
  step collect b = collect_at (not b.awaited && not (refers b.task)) b.cancel_tx b
  step (poll ready) b = poll_at b.task b.cancel_tx ready b
  step (hand_over loop_open) b = hand_over_at b.task loop_open b
  step complete b = complete_at b.task b.target b

  unfoldable pub run : List (Event R) → Bridge R → Bridge R
  unfolding step
  run [] b = b
  run (e ∷ es) b = run es (step e b)
