-- ===== src/Layer/Chan/Write.antt =====
-- src/layer.rs, `ChanIo`'s `AsyncWrite` and `LayerEnd`: the writing sides of the two channels.
use mathlib.Core.List.{append_assoc, append-nil}
use zmux_python.Prelude.{
  ℕ, ◌≡◌, refl, sym, ap, ◌∙◌, ◌≢◌, Bool, true, false, ◌&&◌, List, [], ◌∷◌, ◌++◌, length, All,
  All-append, concat, concat-append, ◌↔◌, if◌then◌else◌, runtime_error, PyResult, ok, err,
}
use zmux_python.Layer.Channel.{Poll, ready, pending, Bytes}

-- `io::Result<usize>`, whose one error here is `io::ErrorKind::BrokenPipe`
pub data IoResult : Type 0 where
  done : ℕ → IoResult
  broken_pipe : IoResult

-- What a poll of `reserve_owned` gives: a place in the channel, or that the receiver is gone.
pub data Reserved : Type 0 where
  not_yet permit gone : Reserved

-- The writing half of `ChanIo`: whether `tx` and `reserve` are set, and what went into the channel.
pub record Writer : Type 0 where
  pub tx : Bool
  pub reserve : Bool
  pub messages : List Bytes

-- `poll_write`, by whether `tx` is set and by the poll of the reservation.
pub write_at : Bool → Reserved → Bytes → Writer → Poll IoResult × Writer
write_at false polled bytes w = (ready broken_pipe, w)
write_at true not_yet bytes w = (pending, record w { reserve = true })
write_at true permit bytes w =
    (ready (done (length bytes)), record w { reserve = false; messages = w.messages ++ bytes ∷ [] })
write_at true gone bytes w = (ready broken_pipe, record w { reserve = false })

-- `get_or_insert_with`: a reservation that is under way is polled again, else a new one is made.
abbrev pub polled_of : Bool → Reserved → Reserved → Reserved
polled_of true fresh kept = kept
polled_of false fresh kept = fresh

-- `fresh` is what the poll of a new reservation gives, `kept` what one gives that is under way.
pub poll_write : Reserved → Reserved → Bytes → Writer → Poll IoResult × Writer
unfolding write_at
poll_write fresh kept bytes w = write_at w.tx (polled_of w.reserve fresh kept) bytes w

pub poll_flush : Writer → Poll IoResult × Writer
poll_flush w = (ready (done 0), w)

pub poll_shutdown : Writer → Poll IoResult × Writer
poll_shutdown w = (ready (done 0), record w { tx = false; reserve = false })

-- The Python side: whether `tx` is still there, and what went into the channel.
pub record End : Type 0 where
  pub tx : Bool
  pub messages : List Bytes

-- `LayerEnd.write`, by whether `tx` is set; `alive` says whether the carrier still has its reader.
pub end_write_at : Bool → Bool → Bytes → End → PyResult (Unit {0}) × End
end_write_at false alive bytes e = (err (runtime_error "layer end closed"), e)
end_write_at true alive [] e = (ok tt, e)
end_write_at true true (b ∷ bs) e = (ok tt, record e { messages = e.messages ++ (b ∷ bs) ∷ [] })
end_write_at true false (b ∷ bs) e = (ok tt, e)

pub write : Bool → Bytes → End → PyResult (Unit {0}) × End
unfolding end_write_at
write alive bytes e = end_write_at e.tx alive bytes e

pub close : End → End
close e = record e { tx = false }

-- The calls on the writing half of `ChanIo`, each write with what the poll of a new reservation gives
-- and what that of one under way gives.
pub data Call : Type 0 where
  write_call : (fresh kept : Reserved) → Bytes → Call
  flush_call shutdown_call : Call

pub do_call : Call → Writer → Poll IoResult × Writer
unfolding poll_write poll_flush poll_shutdown
do_call (write_call fresh kept b) w = poll_write fresh kept b w
do_call flush_call w = poll_flush w
do_call shutdown_call w = poll_shutdown w

pub calls : List Call → Writer → List (Poll IoResult) × Writer
unfolding do_call
calls [] w = ([], w)
calls (c ∷ cs) w = let (r, w') = do_call c w in let (rs, w'') = calls cs w' in (r ∷ rs, w'')

-- The writes that found a place before the half was shut down; `waits` says whether a reservation is
-- under way, from a write that was pending to the next one that is not.
abbrev pub accepted : (open_ waits : Bool) → List Call → List Bytes
accepted open_ waits [] = []
accepted false waits (c ∷ cs) = accepted false waits cs
accepted true waits (flush_call ∷ cs) = accepted true waits cs
accepted true waits (shutdown_call ∷ cs) = accepted false false cs
accepted true false (write_call permit kept b ∷ cs) = b ∷ accepted true false cs
accepted true false (write_call not_yet kept b ∷ cs) = accepted true true cs
accepted true false (write_call gone kept b ∷ cs) = accepted true false cs
accepted true true (write_call fresh permit b ∷ cs) = b ∷ accepted true false cs
accepted true true (write_call fresh not_yet b ∷ cs) = accepted true true cs
accepted true true (write_call fresh gone b ∷ cs) = accepted true false cs

-- The answers that the calls are due.
abbrev pub answers : (open_ waits : Bool) → List Call → List (Poll IoResult)
answers open_ waits [] = []
answers false waits (write_call fresh kept b ∷ cs) = ready broken_pipe ∷ answers false waits cs
answers open_ waits (flush_call ∷ cs) = ready (done 0) ∷ answers open_ waits cs
answers open_ waits (shutdown_call ∷ cs) = ready (done 0) ∷ answers false false cs
answers true false (write_call permit kept b ∷ cs) = ready (done (length b)) ∷ answers true false cs
answers true false (write_call not_yet kept b ∷ cs) = pending ∷ answers true true cs
answers true false (write_call gone kept b ∷ cs) = ready broken_pipe ∷ answers true false cs
answers true true (write_call fresh permit b ∷ cs) = ready (done (length b)) ∷ answers true false cs
answers true true (write_call fresh not_yet b ∷ cs) = pending ∷ answers true true cs
answers true true (write_call fresh gone b ∷ cs) = ready broken_pipe ∷ answers true false cs

abbrev writer : Bool → Bool → List Bytes → Writer
writer tx reserve messages = record { tx = tx; reserve = reserve; messages = messages }

abbrev Sends : Bool → Bool → List Bytes → List Call → List (Poll IoResult) × Writer → Type 0
Sends tx reserve ms cs r =
    (r.1.messages ≡ ms ++ accepted tx reserve cs) × (r.0 ≡ answers tx reserve cs)

-- Once the half is shut down nothing is sent, whatever the reservation.
accepted-shut : (cs : List Call) (waits : Bool) → accepted false waits cs ≡ []
accepted-shut [] waits = refl
accepted-shut (c ∷ cs) waits = accepted-shut cs waits

calls-Sends :
    (cs : List Call) (tx reserve : Bool) (ms : List Bytes)
    → Sends tx reserve ms cs (calls cs (writer tx reserve ms))
unfolding calls
calls-Sends [] true reserve ms = (sym (append-nil ms), refl)
calls-Sends [] false reserve ms = (sym (append-nil ms), refl)
calls-Sends (write_call permit kept b ∷ cs) true false ms =
    let (m, a) = calls-Sends cs true false (ms ++ b ∷ []) in
    (m ∙ append_assoc ms (b ∷ []) (accepted true false cs), ap (λ l. ready (done (length b)) ∷ l) a)
calls-Sends (write_call not_yet kept b ∷ cs) true false ms =
    let (m, a) = calls-Sends cs true true ms in (m, ap (λ l. pending ∷ l) a)
calls-Sends (write_call gone kept b ∷ cs) true false ms =
    let (m, a) = calls-Sends cs true false ms in (m, ap (λ l. ready broken_pipe ∷ l) a)
calls-Sends (write_call fresh permit b ∷ cs) true true ms =
    let (m, a) = calls-Sends cs true false (ms ++ b ∷ []) in
    (m ∙ append_assoc ms (b ∷ []) (accepted true false cs), ap (λ l. ready (done (length b)) ∷ l) a)
calls-Sends (write_call fresh not_yet b ∷ cs) true true ms =
    let (m, a) = calls-Sends cs true true ms in (m, ap (λ l. pending ∷ l) a)
calls-Sends (write_call fresh gone b ∷ cs) true true ms =
    let (m, a) = calls-Sends cs true false ms in (m, ap (λ l. ready broken_pipe ∷ l) a)
calls-Sends (write_call fresh kept b ∷ cs) false reserve ms =
    let (m, a) = calls-Sends cs false reserve ms in (m, ap (λ l. ready broken_pipe ∷ l) a)
calls-Sends (flush_call ∷ cs) true true ms =
    let (m, a) = calls-Sends cs true true ms in (m, ap (λ l. ready (done 0) ∷ l) a)
calls-Sends (flush_call ∷ cs) true false ms =
    let (m, a) = calls-Sends cs true false ms in (m, ap (λ l. ready (done 0) ∷ l) a)
calls-Sends (flush_call ∷ cs) false reserve ms =
    let (m, a) = calls-Sends cs false reserve ms in (m, ap (λ l. ready (done 0) ∷ l) a)
calls-Sends (shutdown_call ∷ cs) true reserve ms =
    let (m, a) = calls-Sends cs false false ms in (m, ap (λ l. ready (done 0) ∷ l) a)
calls-Sends (shutdown_call ∷ cs) false reserve ms =
    let (m, a) = calls-Sends cs false false ms in
    (
      m ∙ ap (λ l. ms ++ l) (accepted-shut cs false ∙ sym (accepted-shut cs reserve)),
      ap (λ l. ready (done 0) ∷ l) a,
    )

-- Each carrier write that is accepted is exactly one message with all of its bytes, in the order of
-- the writes; nothing is sent for one that is pending or refused, and nothing after the shutdown,
-- where every write is refused. A write that follows a pending one goes by the reservation that is
-- under way, any other by a new one.
pub calls_lem :
    (cs : List Call) (w : Writer)
    → ((calls cs w).1.messages ≡ w.messages ++ accepted w.tx w.reserve cs)
      × ((calls cs w).0 ≡ answers w.tx w.reserve cs)
calls_lem cs w = calls-Sends cs w.tx w.reserve w.messages

abbrev pub IsMessage : Bytes → Type 0
IsMessage m = m ≢ []

abbrev pub Writes : Bool → Bool → Bytes → End → PyResult (Unit {0}) × End → Type 0
Writes tx alive bytes e (r, e') =
    All IsMessage e'.messages
    × (concat e'.messages ≡ concat e.messages ++ (if tx && alive then bytes else []))
    × ((r ≡ ok tt) ↔ (tx ≡ true))

end_write_at-Writes :
    (tx alive : Bool) (bytes : Bytes) (e : End)
    → All IsMessage e.messages
    → Writes tx alive bytes e (end_write_at tx alive bytes e)
unfolding end_write_at
end_write_at-Writes false alive bytes e h =
    (h, sym (append-nil (concat e.messages)), (λ x. cc, λ x. cc))
end_write_at-Writes true true [] e h =
    (h, sym (append-nil (concat e.messages)), (λ x. refl, λ x. refl))
end_write_at-Writes true false [] e h =
    (h, sym (append-nil (concat e.messages)), (λ x. refl, λ x. refl))
end_write_at-Writes true false (b ∷ bs) e h =
    (h, sym (append-nil (concat e.messages)), (λ x. refl, λ x. refl))
end_write_at-Writes true true (b ∷ bs) e h = (
  All-append IsMessage e.messages ((b ∷ bs) ∷ []) h ((λ x. cc), tt),
  concat-append e.messages ((b ∷ bs) ∷ []) ∙ ap (λ l. concat e.messages ++ (b ∷ l)) (append-nil bs),
  (λ x. refl, λ x. refl),
)

-- A write of the layer's end raises exactly when the end is closed; else it passes the bytes on as
-- one message while the carrier reads, but never an empty one, which a reader would take for the
-- end of the stream. After `close` every write raises.
pub write_lem :
    (alive : Bool) (bytes : Bytes) (e : End)
    → All IsMessage e.messages
    → Writes e.tx alive bytes e (write alive bytes e)
      × ((write alive bytes (close e)).0 ≡ err (runtime_error "layer end closed"))
unfolding write close
write_lem alive bytes e h = (end_write_at-Writes e.tx alive bytes e h, refl)
