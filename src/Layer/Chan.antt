-- ===== src/Layer/Chan.antt =====
-- src/layer.rs, `ChanIo` and `LayerEnd`: the two sides of the stream that a Python layer returns,
-- joined by a channel each way.
pub mod Read
pub mod Write
use zmux_python.Prelude.{
  ℕ, zero, suc, ◌+◌, Bool, true, false, Option, none, some, List, [], ◌∷◌, ◌++◌, length, take, drop,
  min, PyErr, PyResult,
}
use zmux_python.Layer.Channel.{Poll, ready, pending, Bytes, Channel}

module _ (ch : Channel) where
  open ch use {Chan, poll_recv, send}

  -- The loop of `poll_read`, which skips empty messages; `none` means that the fuel ran out. With
  -- `some`, the poll that ended it: bytes in the buffer, the end of the stream, or pending.
  pub fill : ℕ → Chan → Bytes → Option (Poll Bool × Chan × Bytes)
  fill zero rx buf = none
  fill (suc f) rx (b ∷ buf) = some (ready true, rx, b ∷ buf)
  fill (suc f) rx [] = elim (poll_recv rx).0 [
    | ready m ↦ elim m [
      | some b ↦ fill f (poll_recv rx).1 b
      | none ↦ some (ready false, (poll_recv rx).1, [])
    ]
    | pending ↦ some (pending, (poll_recv rx).1, [])
  ]

  -- The state of the reading half: `rx` and `buf`.
  pub record Reader : Type 0 where
    pub rx : Chan
    pub buf : Bytes

  pub hand_over : ℕ → Poll Bool × Chan × Bytes → Poll Bytes × Reader
  hand_over remaining (ready true, rx, buf) =
      let n = min (length buf) remaining in
      (ready (take n buf), record { rx = rx; buf = drop n buf })
  hand_over remaining (ready false, rx, buf) = (ready [], record { rx = rx; buf = buf })
  hand_over remaining (pending, rx, buf) = (pending, record { rx = rx; buf = buf })

  -- `poll_read` into a buffer with `remaining` bytes left: the bytes put into it.
  pub poll_read : ℕ → ℕ → Reader → Option (Poll Bytes × Reader)
  unfolding fill hand_over
  poll_read fuel remaining r = elim (fill fuel r.rx r.buf) [
    | none ↦ none
    | some f ↦ some (hand_over remaining f)
  ]
