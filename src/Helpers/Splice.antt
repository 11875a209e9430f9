-- ===== src/Helpers/Splice.antt =====
-- src/helpers.rs, `splice` and the dial of a rejoin: what a call takes of the handles given to it.
pub mod Taking
use zmux_python.Prelude.{
  ℕ, Bool, true, false, ◌||◌, String, Option, none, some, PyErr, value_error, PyResult, ok, err,
  raise_if, not, type_error, ◌==◌, if◌then◌else◌,
}
use zmux_python.Prelude.Stateful.{Call, pure, lift, ◌>>=◌, ◌>>◌}
use zmux_python.Handles.Parts.{Halves, pair}
use zmux_python.Handles.PipeIo.{Cells, take_pipe}

-- The two bidirectional streams of a splice, each as its two handles.
pub record Ends (S R : Type 0) : Type 0 where
  pub a : Halves S R
  pub b : Halves S R

abbrev pub no_chunk : PyErr
no_chunk = value_error "chunk is at least 1"

abbrev pub into_itself : PyErr
into_itself = value_error "a stream cannot be spliced into itself"

-- The arguments of `splice` that are not handles: the chunk, whether the sending handles and the
-- receiving handles are the same objects, whether a limiter is given, and the loop's locals.
pub record Arguments : Type 0 where
  pub chunk : ℕ
  pub same_send : Bool
  pub same_recv : Bool
  pub limited : Bool
  pub locals : PyResult (Unit {0})

module _ {S R : Type 0} (send_id : S → Option ℕ) (recv_id : R → Option ℕ) where
  abbrev pub pair_a : Call (Ends S R) (S × R)
  pair_a e = let (r, h) = pair send_id recv_id e.a in (r, record { a = h; b = e.b })

  abbrev pub pair_b : Call (Ends S R) (S × R)
  pair_b e = let (r, h) = pair send_id recv_id e.b in (r, record { a = e.a; b = h })

  -- `splice` up to where it hands the parts on to the crate.
  unfoldable pub splice : Arguments → Call (Ends S R) ((S × R) × (S × R))
  splice args = do
    lift (raise_if (args.chunk == 0) no_chunk)
    lift (raise_if (args.same_send || args.same_recv) into_itself)
    lift (if args.limited then args.locals else ok tt)
    sa ← pair_a
    sb ← pair_b
    pure (sa, sb)

-- The dial that a rejoin makes: the coroutine of the application's function, the object that it
-- gives, whether that is a `PipeIo`, and the carrier taken out of it.
module _ {Io Res : Type 0} where
  unfoldable pub rejoin_dial : PyResult (Unit {0}) → PyResult Bool → Call (Cells Io Res) Io
  rejoin_dial called gave = do
    lift called
    is_pipe ← lift gave
    lift (raise_if (not is_pipe) (type_error "a PipeIo"))
    take_pipe
