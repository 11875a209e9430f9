-- ===== src/Streams/Receiving.antt =====
-- src/lib.rs, `RecvStream`: the guards of each call in their order, and what becomes of the part.
use zmux_python.Prelude.{
  ◌≡◌, refl, Bool, true, false, Option, none, some, [], PyErr, raised, PyResult, ok, err,
}
use mathlib.Core.Path.{subst}
use zmux_python.Prelude.Stateful.{lift, ◌>>◌}
use zmux_python.Handles.Parts.{Part, busy_err, taken}
use zmux_python.Streams.{
  map_err, on_held, on_now_with, Answer, truth, chunk, RecvCall, Zmux, do_recv, payload, next_chunk,
  varint, new_priority_at,
}
use zmux_python.Streams.Steps.{
  part_of, Steps, Guarded, call_of, on_held-Guarded, on_now-Guarded, on_now_with-Guarded,
  lift-Steps,
}
use zmux_python.Streams.Sending.{refused, code_refused, urgency_refused}

-- The calls that wait for an operation in progress.
abbrev pub recv_waits : RecvCall → Bool
recv_waits RecvCall.read = true
recv_waits RecvCall.read_chunk = true
recv_waits RecvCall.read_exact = true
recv_waits RecvCall.read_to_end = true
recv_waits (RecvCall.stop code) = true
recv_waits RecvCall.read_datagram = true
recv_waits RecvCall.anext = true
recv_waits c = false

-- At the end of the stream a read gives empty bytes, and the iteration stops, as it does on an empty
-- chunk.
abbrev pub or_empty : PyResult Answer → PyResult Answer
or_empty (ok (chunk none)) = ok (chunk (some []))
or_empty r = r

abbrev pub or_stop : PyResult Answer → PyResult Answer
or_stop (ok (chunk none)) = err (raised "StopAsyncIteration")
or_stop (ok (chunk (some []))) = err (raised "StopAsyncIteration")
or_stop r = r

module _ (z : Zmux) where
  open z use {Send, Recv, Err, recv, stop_part, reject_part, to_py, from_u64, new_priority}

  abbrev pub recv_early : RecvCall → Option PyErr
  recv_early (RecvCall.stop code) = refused (from_u64 code) "code exceeds 2**62-1"
  recv_early c = none

  abbrev pub recv_late : RecvCall → Option PyErr
  recv_late (RecvCall.set_peer_priority u) = refused (new_priority u) "urgency out of range"
  recv_late c = none

  -- The call's own call of the crate, with its answer.
  abbrev pub recv_call : RecvCall → Recv → PyResult Answer × Recv
  recv_call RecvCall.read r =
      (or_empty (map_err to_py (recv RecvCall.read r).0), (recv RecvCall.read r).1)
  recv_call RecvCall.read_chunk r =
      (or_empty (map_err to_py (recv RecvCall.read_chunk r).0), (recv RecvCall.read_chunk r).1)
  recv_call RecvCall.anext r =
      (or_stop (map_err to_py (recv RecvCall.read_chunk r).0), (recv RecvCall.read_chunk r).1)
  recv_call c r = call_of to_py (recv c) r

  abbrev pub Stops : Bool → Bool → Option Recv → PyResult Answer × Part Recv → Type 0
  Stops false busy (some s) x = x ≡ (ok (truth false), part_of busy (some (stop_part 0 s).1))
  Stops normal busy part x = x ≡ (ok (truth false), part_of busy part)

  abbrev pub Rejects : Bool → Option Recv → PyResult Answer × Part Recv → Type 0
  Rejects true part x = x ≡ (err busy_err, part_of true part)
  Rejects false none x = x ≡ (err taken, part_of false none)
  Rejects false (some s) x = x ≡ (map_err to_py (reject_part s), part_of false none)

  abbrev pub Receives : RecvCall → Bool → Option Recv → PyResult Answer × Part Recv → Type 0
  Receives (RecvCall.aexit normal) busy part x = Stops normal busy part x
  Receives RecvCall.reject busy part x = Rejects busy part x
  Receives c busy part x =
      Steps (recv_early c) (recv_waits c) (recv_late c) (recv_call c) busy part x

  payload_eq : (x : PyResult Answer × Part Recv) → payload z x ≡ (or_empty x.0, x.1)
  unfolding payload
  payload_eq (ok (chunk none), t) = refl
  payload_eq (r, t) = refl

  next_chunk_eq : (x : PyResult Answer × Part Recv) → next_chunk z x ≡ (or_stop x.0, x.1)
  unfolding next_chunk
  next_chunk_eq (ok (chunk none), t) = refl
  next_chunk_eq (ok (chunk (some [])), t) = refl
  next_chunk_eq (r, t) = refl

  -- A call that waits, whose answer is read another way, which leaves errors as they are.
  read_another_way :
      (c : RecvCall) (g : PyResult Answer → PyResult Answer) (busy : Bool) (part : Option Recv)
      → ((e : PyErr) → g (err e) ≡ err e)
      → let x = on_held to_py (recv c) (part_of busy part) in
        Guarded true none
          (λ r. (g (map_err to_py (recv c r).0), (recv c r).1))
          busy
          part
          (g x.0, x.1)
  unfolding on_held
  read_another_way c g busy none h = rw (h taken) refl
  read_another_way c g busy (some r) h = refl

  do_recv-Receives_at :
      (c : RecvCall) (busy : Bool) (part : Option Recv)
      → Receives c busy part (do_recv z c (part_of busy part))
  unfolding do_recv
  do_recv-Receives_at (RecvCall.aexit true) busy part = refl
  do_recv-Receives_at (RecvCall.aexit false) busy none = refl
  do_recv-Receives_at (RecvCall.aexit false) busy (some r) = refl
  do_recv-Receives_at RecvCall.reject true part = refl
  do_recv-Receives_at RecvCall.reject false none = refl
  do_recv-Receives_at RecvCall.reject false (some r) = refl
  do_recv-Receives_at RecvCall.read busy part =
      rw (payload_eq (on_held to_py (recv RecvCall.read) (part_of busy part)))
        (read_another_way RecvCall.read or_empty busy part λ e. refl)
  do_recv-Receives_at RecvCall.read_chunk busy part =
      rw (payload_eq (on_held to_py (recv RecvCall.read_chunk) (part_of busy part)))
        (read_another_way RecvCall.read_chunk or_empty busy part λ e. refl)
  do_recv-Receives_at RecvCall.anext busy part =
      rw (next_chunk_eq (on_held to_py (recv RecvCall.read_chunk) (part_of busy part)))
        (read_another_way RecvCall.read_chunk or_stop busy part λ e. refl)
  do_recv-Receives_at RecvCall.read_exact busy part =
      on_held-Guarded to_py (recv RecvCall.read_exact) busy part
  do_recv-Receives_at RecvCall.read_to_end busy part =
      on_held-Guarded to_py (recv RecvCall.read_to_end) busy part
  do_recv-Receives_at RecvCall.read_datagram busy part =
      on_held-Guarded to_py (recv RecvCall.read_datagram) busy part
  do_recv-Receives_at (RecvCall.stop code) busy part =
      let m = recv (RecvCall.stop code) in
      subst
        (λ early.
          Steps early true none (call_of to_py m) busy part
            ((lift (varint z code) >> on_held to_py m) (part_of busy part)))
        (code_refused z code)
        (lift-Steps (varint z code) (on_held to_py m) true none (call_of to_py m) busy part
          (on_held-Guarded to_py m busy part))
  do_recv-Receives_at (RecvCall.set_peer_priority u) busy part =
      let m = recv (RecvCall.set_peer_priority u) in
      subst
        (λ late.
          Guarded false late (call_of to_py m) busy part
            (on_now_with (new_priority_at z u) to_py (λ _. m) (part_of busy part)))
        (urgency_refused z u) (on_now_with-Guarded to_py m (new_priority_at z u) busy part)
  do_recv-Receives_at c busy part = on_now-Guarded to_py (recv c) busy part

  -- Each call is stopped, with the exception of the guard and the part untouched, by a code that is
  -- refused, by an operation in progress unless it waits for that, by a part that is not there, or
  -- by an urgency out of range, in that order; else it makes its own call of the crate once and gives
  -- its answer or its error, where a read gives empty bytes at the end and the iteration stops there
  -- and on an empty chunk. `reject` alone uses up the part, unless an operation is in progress or the
  -- part is not there. Leaving an `async with` on an exception stops a part that is there, and else
  -- does nothing; it never raises.
  pub do_recv-Receives : (c : RecvCall) (p : Part Recv) → Receives c p.busy p.part (do_recv z c p)
  do_recv-Receives c p = do_recv-Receives_at c p.busy p.part
