-- ===== src/Sessions/Opening.antt =====
-- src/lib.rs, `Prios` and the calls `open_bi`, `try_open_bi`, `open_uni` and `open_pipe_stream`.
pub mod Opens
use zmux_python.Prelude.{
  ℕ, Bool, true, false, Option, none, some, List, PyErr, value_error, PyResult, ok, err, ok_or,
  traverse,
}
use zmux_python.Prelude.Stateful.{Call, pure, lift, ◌>>=◌, ◌>>◌}
use zmux_python.Streams.{CrateResult, done, failed, map_err}
use zmux_python.Sessions.Preamble.{Bytes, Tlv, Builder, preamble}

-- The crate's session, and the two parts of a stream: opening one changes the session, setting a
-- priority the part. `open` waits or not, as the call does.
pub record Crate (b : Builder) : Type 1 where
  pub Session : Type 0
  pub Send : Type 0
  pub Recv : Type 0
  pub Err : Type 0
  pub Priority : Type 0
  pub open_bi : Option b.Preamble → Session → CrateResult Err (Send × Recv) × Session
  pub open_uni : Option b.Preamble → Session → CrateResult Err Send × Session
  pub open_pipe : b.Preamble → Session → CrateResult Err Send × Session
  pub set_priority : Priority → Send → CrateResult Err (Unit {0}) × Send
  pub set_peer_priority : Priority → Recv → CrateResult Err (Unit {0}) × Recv
  pub new_priority : ℕ → Bool → Option Priority
  pub open_err : Err → PyErr
  pub stream_err : Err → PyErr

-- An urgency and whether the stream is incremental
abbrev pub Prio : Type 0
Prio = ℕ × Bool

abbrev pub no_urgency : PyErr
no_urgency = value_error "urgency out of range"

module _ (b : Builder) (z : Crate b) where
  open z use {
    Session, Send, Recv, Err, Priority, open_bi, open_uni, open_pipe, set_priority,
    set_peer_priority, new_priority, open_err, stream_err,
  }

  -- `priority`
  abbrev pub priority : Prio → PyResult Priority
  priority (u, i) = ok_or (new_priority u i) no_urgency

  -- `Prios::new`
  unfoldable pub new_prios :
      Option Prio → Option Prio → Call Session (Option Priority × Option Priority)
  new_prios local peer = do
    p ← lift (traverse priority local)
    q ← lift (traverse priority peer)
    pure (p, q)

  abbrev set_part : {P : Type 0} → CrateResult Err (Unit {0}) × P → PyResult P
  set_part (done u, part) = ok part
  set_part (failed e, part) = err (stream_err e)

  -- A part with its priority set, where one is given: `Prios::apply` for one part.
  abbrev pub prioritized :
      {P : Type 0}
      → (Priority → P → CrateResult Err (Unit {0}) × P)
      → Option Priority
      → P
      → PyResult P
  prioritized set none part = ok part
  prioritized set (some p) part = set_part (set p part)

  -- A call of the session with `map_err(open_err)`
  abbrev pub opened : {A : Type 0} → (Session → CrateResult Err A × Session) → Call Session A
  opened m s = (map_err open_err (m s).0, (m s).1)

  -- `open_bi` and `try_open_bi`
  unfoldable pub open_pair :
      Option Bytes
      → Option (List Tlv)
      → Bool
      → Option Prio
      → Option Prio
      → Call Session (Send × Recv)
  unfolding new_prios preamble
  open_pair info tlvs carrier local peer = do
    prios ← new_prios local peer
    parts ← opened (open_bi (preamble b info tlvs carrier))
    send ← lift (prioritized set_priority prios.0 parts.0)
    recv ← lift (prioritized set_peer_priority prios.1 parts.1)
    pure (send, recv)

  -- `open_uni`
  unfoldable pub open_one : Option Bytes → Option (List Tlv) → Option Prio → Call Session Send
  unfolding preamble
  open_one info tlvs local = do
    prio ← lift (traverse priority local)
    part ← opened (open_uni (preamble b info tlvs false))
    lift (prioritized set_priority prio part)

  abbrev or_new : Option b.Preamble → b.Preamble
  or_new none = b.new
  or_new (some p) = p

  -- `open_pipe_stream`
  unfoldable pub open_carrier : Option (List Tlv) → Call Session Send
  unfolding preamble
  open_carrier tlvs = opened (open_pipe (or_new (preamble b none tlvs false)))
