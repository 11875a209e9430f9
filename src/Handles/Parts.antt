-- ===== src/Handles/Parts.antt =====
-- src/lib.rs, `Part` with `held`, `held_now` and `take_now`, and src/helpers.rs, `pair`: stream
-- parts that a Python handle holds until a call consumes them.
pub mod Pair
use zmux_python.Prelude.{
  ℕ, String, Bool, true, false, not, ◌&&◌, Option, none, some, PyErr, runtime_error, value_error,
  raised, PyResult, ok, err, ◌==◌, if◌then◌else◌,
}
use zmux_python.Prelude.Stateful.{Call}

-- A tokio mutex around what is left of the part: whether an operation is in progress, and the part.
pub record Part (A : Type 0) : Type 0 where
  pub busy : Bool
  pub part : Option A

abbrev pub busy_err : PyErr
busy_err = runtime_error "another operation on this stream is in progress"

-- `stream_err(StreamError::ClosedLocally)`
abbrev pub taken : PyErr
taken = raised "StreamError"

module _ {A : Type 0} where
  -- `held_now`, and `held` once the operation in progress has ended
  pub held_now : Part A → PyResult A
  held_now p = if p.busy then err busy_err else elim p.part [ none ↦ err taken | some a ↦ ok a ]

  pub held : Part A → PyResult A
  held p = elim p.part [ none ↦ err taken | some a ↦ ok a ]

  unfoldable pub take_at : Bool → Option A → Call (Part A) A
  take_at true part p = (err busy_err, p)
  take_at false none p = (err taken, p)
  take_at false (some a) p = (ok a, record p { part = none })

  unfoldable pub take_now : Call (Part A) A
  unfolding take_at
  take_now p = take_at p.busy p.part p

-- The two handles of a bidirectional stream; a part knows its stream's id once it has one.
pub record Halves (S R : Type 0) : Type 0 where
  pub send : Part S
  pub recv : Part R

-- Two ids that are both known and are not the same.
abbrev pub differ : Option ℕ → Option ℕ → Bool
differ (some x) (some y) = not (x == y)
differ a b = false

module _ {S R : Type 0} (send_id : S → Option ℕ) (recv_id : R → Option ℕ) where
  -- With both locks taken: the test of the ids, then both parts are taken out.
  pub take_both : Option S → Option R → Call (Halves S R) (S × R)
  take_both (some a) (some b) h =
      if differ (send_id a) (recv_id b)
      then (err (value_error "the parts of two different streams"), h)
      else (
        ok (a, b),
        record {
          send = record { busy = h.send.busy; part = none };
          recv = record { busy = h.recv.busy; part = none };
        },
      )
  take_both a b h = (err taken, h)

  -- `pair`: first the lock of the sending part, then that of the receiving one.
  pub pair : Call (Halves S R) (S × R)
  unfolding take_both
  pair h =
      if h.send.busy
      then (err busy_err, h)
      else if h.recv.busy
      then (err busy_err, h)
      else take_both h.send.part h.recv.part h
