-- ===== src/Sessions/Opening/Opens.antt =====
-- src/lib.rs, `open_bi`: what a call that opens a stream leaves behind, on every way out of it.
use zmux_python.Prelude.{
  ◌≡◌, refl, ap, ◌⊎◌, inl, inr, Bool, Option, none, some, List, PyErr, PyResult, ok, err, traverse,
}
use zmux_python.Prelude.Stateful.{Call, pure, lift, bind_result, ◌>>=◌}
use zmux_python.Streams.{CrateResult, done, failed, map_err}
use zmux_python.Sessions.Preamble.{Bytes, Tlv, Builder, preamble}
use zmux_python.Sessions.Opening.{
  Crate, Prio, priority, new_prios, set_part, prioritized, opened, open_pair,
}

module _ (b : Builder) (z : Crate b) where
  open z use {
    Session, Send, Recv, Err, Priority, open_bi, set_priority, set_peer_priority, new_priority,
    open_err, stream_err,
  }

  abbrev Priorities : Type 0
  Priorities = PyResult (Option Priority) × PyResult (Option Priority)

  -- The priority of a part that the call gives, or the error with which it was not set.
  abbrev Sets :
      {P : Type 0}
      → (Priority → P → CrateResult Err (Unit {0}) × P)
      → Option Priority
      → P
      → P
      → Type 0
  Sets set none before part = part ≡ before
  Sets set (some p) before part = set p before ≡ (done tt, part)

  abbrev Fails :
      {P : Type 0}
      → (Priority → P → CrateResult Err (Unit {0}) × P)
      → Option Priority
      → P
      → PyErr
      → Type 0
  Fails set none before x = ⊥
  Fails set (some p) before x = (e : Err) × ((set p before).0 ≡ failed e) × (x ≡ stream_err e)

  -- The two parts of a stream that was opened, and what the call makes of them.
  abbrev Finishes :
      Option Priority → Option Priority → Send × Recv → PyResult (Send × Recv) → Type 0
  Finishes p q (send, recv) (ok (s, r)) =
      Sets set_priority p send s × Sets set_peer_priority q recv r
  Finishes p q (send, recv) (err x) = Fails set_priority p send x ⊎ Fails set_peer_priority q recv x

  -- What the crate's open gave, what the call gives, and the session after them.
  abbrev Follows :
      Option Priority
      → Option Priority
      → CrateResult Err (Send × Recv) × Session
      → PyResult (Send × Recv) × Session
      → Type 0
  Follows p q (failed e, t) (r, s) = (r ≡ err (open_err e)) × (s ≡ t)
  Follows p q (done parts, t) (r, s) = Finishes p q parts r × (s ≡ t)

  abbrev pub Opens :
      PyResult (Option Priority)
      → PyResult (Option Priority)
      → (opened : CrateResult Err (Send × Recv) × Session) → Session
      → PyResult (Send × Recv) × Session
      → Type 0
  Opens (err x) q o s r = r ≡ (err x, s)
  Opens (ok p) (err x) o s r = r ≡ (err x, s)
  Opens (ok p) (ok q) o s r = Follows p q o r

  recv_at :
      (p q : Option Priority) (parts : Send × Recv) (send : Send) (t : Session)
      → Sets set_priority p parts.0 send
      → Follows p q
          (done parts, t)
          (bind_result (prioritized b z set_peer_priority q parts.1) t λ recv. pure (send, recv))
  recv_at p none parts send t h = ((h, refl), refl)
  recv_at p (some q) parts send t h = recv_set (set_peer_priority q parts.1) refl
    where
      recv_set :
          (r : CrateResult Err (Unit {0}) × Recv)
          → set_peer_priority q parts.1 ≡ r
          → Follows p
              (some q)
              (done parts, t)
              (bind_result (set_part b z r) t λ recv. pure (send, recv))
      recv_set (done u, recv) e = ((h, e), refl)
      recv_set (failed x, recv) e = (inr (x, ap (λ m. m.0) e, refl), refl)

  send_at :
      (p q : Option Priority) (parts : Send × Recv) (t : Session)
      → Follows p q
          (done parts, t)
          (bind_result (prioritized b z set_priority p parts.0) t λ send.
            lift (prioritized b z set_peer_priority q parts.1) >>= λ recv. pure (send, recv))
  send_at none q parts t = recv_at none q parts parts.0 t refl
  send_at (some p) q parts t = send_set (set_priority p parts.0) refl
    where
      send_set :
          (r : CrateResult Err (Unit {0}) × Send)
          → set_priority p parts.0 ≡ r
          → Follows
              (some p)
              q
              (done parts, t)
              (bind_result (set_part b z r) t λ send.
                lift (prioritized b z set_peer_priority q parts.1) >>= λ recv. pure (send, recv))
      send_set (done u, send) e = recv_at (some p) q parts send t e
      send_set (failed x, send) e = (inl (x, ap (λ m. m.0) e, refl), refl)

  parts_at :
      (p q : Option Priority) (o : CrateResult Err (Send × Recv) × Session)
      → Follows p q o (
          bind_result (map_err open_err o.0) o.1 λ parts.
            lift (prioritized b z set_priority p parts.0) >>= λ send.
            lift (prioritized b z set_peer_priority q parts.1) >>= λ recv. pure (send, recv))
  parts_at p q (failed e, t) = (refl, refl)
  parts_at p q (done parts, t) = send_at p q parts t

  abbrev both :
      PyResult (Option Priority)
      → PyResult (Option Priority)
      → Call Session (Option Priority × Option Priority)
  both p q = lift p >>= λ x. lift q >>= λ y. pure (x, y)

  abbrev rest :
      (Session → CrateResult Err (Send × Recv) × Session)
      → Option Priority × Option Priority
      → Call Session (Send × Recv)
  rest o prios = opened b z o >>= λ parts.
      lift (prioritized b z set_priority prios.0 parts.0) >>= λ send.
      lift (prioritized b z set_peer_priority prios.1 parts.1) >>= λ recv. pure (send, recv)

  prios_at :
      (p q : PyResult (Option Priority)) (o : Session → CrateResult Err (Send × Recv) × Session)
      (s : Session)
      → Opens p q (o s) s (bind_result (both p q s).0 (both p q s).1 (rest o))
  prios_at (err x) q o s = refl
  prios_at (ok p) (err x) o s = refl
  prios_at (ok p) (ok q) o s = parts_at p q (o s)

  -- A call with an urgency out of range opens no stream. Else the stream is opened once, with the
  -- preamble where the arguments say anything, and the session is left as that leaves it; the parts
  -- that the call gives have their priorities set, where they are given. Where a priority is refused, the call raises
  -- although the stream was opened.
  pub open_pair-Opens :
      (info : Option Bytes) (tlvs : Option (List Tlv)) (carrier : Bool) (local peer : Option Prio)
      (s : Session)
      → Opens
          (traverse (priority b z) local)
          (traverse (priority b z) peer)
          (open_bi (preamble b info tlvs carrier) s)
          s
          (open_pair b z info tlvs carrier local peer s)
  unfolding open_pair new_prios
  open_pair-Opens info tlvs carrier local peer s =
      prios_at (traverse (priority b z) local) (traverse (priority b z) peer)
        (open_bi (preamble b info tlvs carrier)) s
