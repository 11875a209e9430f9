-- ===== src/Streams.antt =====
-- src/lib.rs, `SendStream` and `RecvStream`: what each call does to the part that its handle holds.
pub mod Steps
pub mod Sending
pub mod Receiving
mod Tests
use zmux_python.Prelude.{
  ℕ, Bool, true, false, Option, none, some, String, List, [], ◌∷◌, ◌==◌, if◌then◌else◌, PyErr,
  value_error, raised, PyResult, ok, err, raise_if,
}
use zmux_python.Prelude.Stateful.{Call, lift, ◌>>=◌, ◌>>◌}
use zmux_python.Handles.Parts.{Part, busy_err, taken, take_at, take_now}

-- A result with the crate's own errors
pub data CrateResult (E A : Type 0) : Type 0 where
  done : A → CrateResult E A
  failed : E → CrateResult E A

-- A call of the crate on a part: what it gives or the error it ends with, and the part after it.
abbrev pub Crate : Type 0 → Type 0 → Type 0 → Type 0
Crate S E A = S → CrateResult E A × S

-- `map_err`
abbrev pub map_err : {E A : Type 0} → (E → PyErr) → CrateResult E A → PyResult A
map_err f (done a) = ok a
map_err f (failed e) = err (f e)

module _ {S : Type 0} where
  pub on_part : {E A : Type 0} → Option S → (E → PyErr) → Crate S E A → Call (Part S) A
  on_part none f m p = (err taken, p)
  on_part (some s) f m p = (map_err f (m s).0, record p { part = some (m s).1 })

  -- `held(&s).await?` and a call, once the operation in progress has ended
  pub on_held : {E A : Type 0} → (E → PyErr) → Crate S E A → Call (Part S) A
  unfolding on_part
  on_held f m p = on_part p.part f m p

  -- `held_now(&self.0)?` and a call
  pub on_now : {E A : Type 0} → (E → PyErr) → Crate S E A → Call (Part S) A
  unfolding on_part
  on_now f m p = if p.busy then (err busy_err, p) else on_part p.part f m p

  -- `held_now(&self.0)?` and a call whose argument is converted after that
  pub on_now_with :
      {E A B : Type 0} → PyResult B → (E → PyErr) → (B → Crate S E A) → Call (Part S) A
  unfolding on_now on_part
  on_now_with (ok b) f m p = on_now f (m b) p
  on_now_with (err e) f m p =
      if p.busy
      then (err busy_err, p)
      else elim p.part [ none ↦ (err taken, p) | some s ↦ (err e, p) ]

-- How the calls give their answer: nothing, a truth value, a number, what is left to read (`none`
-- at the end of the stream), or an object made of those.
pub data Answer : Type 0 where
  nothing : Answer
  chunk : Option (List ℕ) → Answer
  truth : Bool → Answer
  value : ℕ → Answer

-- The calls on a `SendStream`, with their arguments as far as the binding looks at them: whether
-- the buffer can be lent, the code, the urgency, the least capacity, the policy's name.
pub data SendCall : Type 0 where
  write finish set_reliable_boundary priority send_capacity set_send_buffer set_redundant : SendCall
  send_datagram stats stopped id : SendCall
  write_chunk : (lent : PyResult (Unit {0})) → SendCall
  reset : (code : ℕ) → SendCall
  set_priority : (urgency : ℕ) → SendCall
  wait_send_capacity : (least : ℕ) → SendCall
  set_scheduler : (scheduler : Option String) → SendCall
  aexit : (normal : Bool) → SendCall

-- The calls on a `RecvStream`.
pub data RecvCall : Type 0 where
  read read_chunk read_exact read_to_end set_receive_window read_datagram stats : RecvCall
  preamble is_replayable id anext : RecvCall
  stop : (code : ℕ) → RecvCall
  reject : RecvCall
  set_peer_priority : (urgency : ℕ) → RecvCall
  aexit : (normal : Bool) → RecvCall

-- The crate, and the two conversions of lib.rs that stand on it: `varint` and `priority` raise on a
-- number out of range, `policy` on an unknown name. `Err` are the crate's errors.
pub record Zmux : Type 1 where
  pub Send : Type 0
  pub Recv : Type 0
  pub Err : Type 0
  pub send : SendCall → Crate Send Err Answer
  pub recv : RecvCall → Crate Recv Err Answer
  pub finish_part : Crate Send Err (Unit {0})
  pub reset_part : ℕ → Crate Send Err (Unit {0})
  pub stop_part : ℕ → Crate Recv Err (Unit {0})
  pub reject_part : Recv → CrateResult Err Answer
  pub is_closed_locally : Err → Bool  -- `kind_of(&e) == "ClosedLocally"`
  pub to_py : Err → PyErr  -- `stream_err`, or the exception of the call's own error
  pub from_u64 : ℕ → Option ℕ  -- `VarInt::from_u64`
  pub new_priority : ℕ → Option ℕ  -- `Priority::new`
  pub find_policy : String → PyResult ℕ  -- `policy`

module _ (z : Zmux) where
  open z use {
    Send, Recv, Err, send, recv, finish_part, reset_part, stop_part, reject_part, is_closed_locally,
    to_py, from_u64, new_priority, find_policy,
  }

  pub varint : ℕ → PyResult ℕ
  varint n = elim (from_u64 n) [ none ↦ err (value_error "code exceeds 2**62-1") | some v ↦ ok v ]

  pub new_priority_at : ℕ → PyResult ℕ
  new_priority_at u = elim (new_priority u) [
    | none ↦ err (value_error "urgency out of range")
    | some p ↦ ok p
  ]

  pub find_scheduler : Option String → PyResult (Option ℕ)
  find_scheduler none = ok none
  find_scheduler (some s) = elim (find_policy s) [ ok p ↦ ok (some p) | err e ↦ err e ]

  pub finished : CrateResult Err (Unit {0}) → PyResult Answer
  finished (done u) = ok (truth false)
  finished (failed e) = if is_closed_locally e then ok (truth false) else err (to_py e)

  -- `SendStream.__aexit__`, with what is left of the part
  pub send_aexit : Bool → Option Send → Call (Part Send) Answer
  unfolding finished
  send_aexit normal none p = (ok (truth false), p)
  send_aexit false (some s) p = (ok (truth false), record p { part = some (reset_part 0 s).1 })
  send_aexit true (some s) p =
      (finished (finish_part s).0, record p { part = some (finish_part s).1 })

  pub recv_aexit : Bool → Option Recv → Call (Part Recv) Answer
  recv_aexit true part p = (ok (truth false), p)
  recv_aexit false none p = (ok (truth false), p)
  recv_aexit false (some r) p = (ok (truth false), record p { part = some (stop_part 0 r).1 })

  pub do_send : SendCall → Call (Part Send) Answer
  unfolding on_held on_now on_now_with varint new_priority_at find_scheduler send_aexit
  do_send write p = on_held to_py (send write) p
  do_send (write_chunk lent) p = (do lift lent; on_held to_py (send (write_chunk lent))) p
  do_send finish p = on_held to_py (send finish) p
  do_send (reset code) p = (do lift (varint code); on_held to_py (send (reset code))) p
  do_send (set_priority u) p = on_now_with (new_priority_at u) to_py (λ _. send (set_priority u)) p
  do_send (wait_send_capacity least) p =
      (do
        lift (raise_if (least == 0) (value_error "min is at least 1"))
        on_held to_py (send (wait_send_capacity least)))
        p
  do_send (set_scheduler s) p =
      (do lift (find_scheduler s); on_now to_py (send (set_scheduler s))) p
  do_send (aexit normal) p = send_aexit normal p.part p
  do_send stopped p = on_held to_py (send stopped) p
  do_send c p = on_now to_py (send c) p

  -- `reject`: the part is taken out first.
  pub reject_at : PyResult Recv × Part Recv → PyResult Answer × Part Recv
  reject_at (ok r, p) = (map_err to_py (reject_part r), p)
  reject_at (err e, p) = (err e, p)

  -- `read` and `read_chunk` give empty bytes at the end.
  pub payload : PyResult Answer × Part Recv → PyResult Answer × Part Recv
  payload (ok (chunk none), p) = (ok (chunk (some [])), p)
  payload (r, p) = (r, p)

  -- `__anext__`: an empty chunk and the end stop the iteration.
  pub next_chunk : PyResult Answer × Part Recv → PyResult Answer × Part Recv
  next_chunk (ok (chunk none), p) = (err (raised "StopAsyncIteration"), p)
  next_chunk (ok (chunk (some [])), p) = (err (raised "StopAsyncIteration"), p)
  next_chunk (r, p) = (r, p)

  pub do_recv : RecvCall → Call (Part Recv) Answer
  unfolding on_held on_now on_now_with varint new_priority_at recv_aexit reject_at payload
      next_chunk take_now
  do_recv read p = payload (on_held to_py (recv read) p)
  do_recv read_chunk p = payload (on_held to_py (recv read_chunk) p)
  do_recv read_exact p = on_held to_py (recv read_exact) p
  do_recv read_to_end p = on_held to_py (recv read_to_end) p
  do_recv (stop code) p = (do lift (varint code); on_held to_py (recv (stop code))) p
  do_recv reject p = reject_at (take_now p)
  do_recv (set_peer_priority u) p =
      on_now_with (new_priority_at u) to_py (λ _. recv (set_peer_priority u)) p
  do_recv read_datagram p = on_held to_py (recv read_datagram) p
  do_recv anext p = next_chunk (on_held to_py (recv read_chunk) p)
  do_recv (aexit normal) p = recv_aexit normal p.part p
  do_recv c p = on_now to_py (recv c) p
