-- ===== src/Handles/PipeIo.antt =====
-- src/lib.rs, `PipeIo` and `PipeReservation`: objects that are used once, and the calls that use
-- them, in the order in which each call converts its arguments and takes them.
pub mod Once
use zmux_python.Prelude.{
  ℕ, ◌^◌, ◌<◌, String, Bool, true, false, Option, none, some, PyErr, runtime_error, value_error,
  PyResult, ok, err, ltb, if◌then◌else◌,
}
use zmux_python.Prelude.Stateful.{Call, pure, lift, ◌>>=◌, ◌>>◌}

-- A signed integer that Python gives; `negsuc n` is -(n + 1).
pub data ℤ : Type 0 where
  pos : ℕ → ℤ
  negsuc : ℕ → ℤ

-- `u16::try_from`
pub try_u16 : ℤ → PyErr → PyResult ℕ
try_u16 (pos n) e = if ltb n (2 ^ 16) then ok n else err e
try_u16 (negsuc n) e = err e

-- The cells of a `PipeIo` and of a `PipeReservation`: what is in the mutex.
pub record Cells (Io Res : Type 0) : Type 0 where
  pub pipe : Option Io
  pub reservation : Option Res

-- What a call does with the carrier that it took.
pub data Use (Kind Config Options Hint : Type 0) : Type 0 where
  with_carrier : PyResult Kind → Use Kind Config Options Hint
  with_unsent : Use Kind Config Options Hint
  with_write_overhead : ℤ → Use Kind Config Options Hint
  into_stream : Use Kind Config Options Hint
  wrap_layer : (locals : PyResult (Unit {0})) → Use Kind Config Options Hint
  start : PyResult Config → Use Kind Config Options Hint
  add_pipe : PyResult Options → Use Kind Config Options Hint
  handle_pipe : (peer source : PyResult Hint) → Use Kind Config Options Hint
  attach : Use Kind Config Options Hint

module _ {Io Res : Type 0} where
  pub take_pipe_at : Option Io → Call (Cells Io Res) Io
  take_pipe_at none s = (err (runtime_error "pipe already used"), s)
  take_pipe_at (some io) s = (ok io, record s { pipe = none })

  -- `PipeIo::take`
  pub take_pipe : Call (Cells Io Res) Io
  unfolding take_pipe_at
  take_pipe s = take_pipe_at s.pipe s

  pub take_reservation_at : Option Res → Call (Cells Io Res) Res
  take_reservation_at none s = (err (runtime_error "reservation already used"), s)
  take_reservation_at (some r) s = (ok r, record s { reservation = none })

  -- `PipeReservation::take`
  pub take_reservation : Call (Cells Io Res) Res
  unfolding take_reservation_at
  take_reservation s = take_reservation_at s.reservation s

  -- `PipeReservation::with`, for `id`, `frame` and `header`
  pub with_reservation : {A : Type 0} → (Res → A) → Call (Cells Io Res) A
  with_reservation f s = elim s.reservation [
    | none ↦ (err (runtime_error "reservation already used"), s)
    | some r ↦ (ok (f r), s)
  ]

  -- `PipeReservation::cancel`
  pub cancel : Call (Cells Io Res) (Unit {0})
  unfolding take_reservation
  cancel = do take_reservation; pure tt

  -- `PipeIo::carrier`
  pub carrier : {A : Type 0} → (Io → A) → Call (Cells Io Res) A
  carrier f s = elim s.pipe [
    | none ↦ (err (runtime_error "pipe already used"), s)
    | some io ↦ (ok (f io), s)
  ]

  -- Each call up to the point where it hands the carrier on: to a new handle, a stream, a layer, a
  -- session, a listener or the reservation.
  pub use_pipe :
      {Kind Config Options Hint : Type 0} → Use Kind Config Options Hint → Call (Cells Io Res) Io
  unfolding take_pipe take_reservation try_u16
  use_pipe (with_carrier kind) = do lift kind; take_pipe
  use_pipe with_unsent = take_pipe
  use_pipe (with_write_overhead n) = do
    lift (try_u16 n (value_error "write_overhead is between 0 and 65535"))
    take_pipe
  use_pipe into_stream = take_pipe
  use_pipe (wrap_layer locals) = do lift locals; take_pipe
  use_pipe (start config) = do io ← take_pipe; lift config; pure io
  use_pipe (add_pipe options) = do lift options; take_pipe
  use_pipe (handle_pipe peer source) = do lift peer; lift source; take_pipe
  use_pipe attach = do io ← take_pipe; take_reservation; pure io
