-- ===== src/Layer/Chan/Read.antt =====
-- src/layer.rs, `ChanIo::poll_read`: the reads give the messages' bytes in order, each once.
use mathlib.Core.List.{append_assoc, append-nil}
use mathlib.Core.Path.{ap₂}
use zmux_python.Prelude.{
  ℕ, zero, suc, ◌≤◌, ◌<◌, ◌≡◌, refl, sym, ap, ◌∙◌, ◌≢◌, ◌⊎◌, inl, inr, Bool, true, false, Option,
  none, some, List, [], ◌∷◌, ◌++◌, arith, length, take, drop, min, concat, concat-append,
  take-append-drop, length-take,
}
use zmux_python.Layer.Channel.{Poll, ready, pending, Bytes, Channel}
use zmux_python.Layer.Chan.{fill, Reader, hand_over, poll_read}

-- What happens to the reading half: the layer's end sends a message, or the carrier reads.
pub data ReadEvent : Type 0 where
  sent : Bytes → ReadEvent
  read : (remaining : ℕ) → ReadEvent

abbrev pub sent_by : List ReadEvent → Bytes
sent_by [] = []
sent_by (sent b ∷ es) = b ++ sent_by es
sent_by (read n ∷ es) = sent_by es

module _ (ch : Channel) where
  open ch use {Chan, queued, poll_recv, send, queued-send, poll_some, poll_none, poll_pending}

  -- How a poll of the buffer may end.
  abbrev Ended : Poll Bool → Chan → Bytes → Type 0
  Ended (ready true) rx buf = buf ≢ []
  Ended (ready false) rx buf = (buf ≡ []) × (queued rx ≡ [])
  Ended pending rx buf = buf ≡ []

  -- What `fill` leaves: enough fuel was given, no byte was lost, and the end of its loop.
  abbrev Fills : Chan → Bytes → Option (Poll Bool × Chan × Bytes) → Type 0
  Fills rx buf none = ⊥
  Fills rx buf (some (p, rx', buf')) =
      (buf ++ concat (queued rx) ≡ buf' ++ concat (queued rx')) × Ended p rx' buf'

  Fills-from :
      (rx rx' : Chan) (b : Bytes) (r : Option (Poll Bool × Chan × Bytes))
      → concat (queued rx) ≡ b ++ concat (queued rx')
      → Fills rx' b r
      → Fills rx [] r
  Fills-from rx rx' b none e h = h
  Fills-from rx rx' b (some (p, rx'', buf)) e (kept, ended) = (e ∙ kept, ended)

  fill-Fills :
      (f : ℕ) (rx : Chan) (buf : Bytes) → length (queued rx) < f → Fills rx buf (fill ch f rx buf)
  unfolding fill
  fill-Fills zero rx buf h = absurd (omega arith)
  fill-Fills (suc f) rx (b ∷ buf) h = (refl, λ e. cc)
  fill-Fills (suc f) rx [] h = go (λ rx' b lt. fill-Fills f rx' b lt) (poll_recv rx).0 refl
    where
      go :
          ((rx' : Chan) (b : Bytes) → length (queued rx') < f → Fills rx' b (fill ch f rx' b))
          → (p : Poll (Option Bytes)) → (poll_recv rx).0 ≡ p
          → Fills rx [] (fill ch (suc f) rx [])
      go ih (ready (some b)) e =
          rw (e, fill)
            (Fills-from rx (poll_recv rx).1 b (fill ch f (poll_recv rx).1 b)
              (ap concat (poll_some b rx e))
              (ih (poll_recv rx).1 b (omega (arith, ap length (poll_some b rx e)))))
      go ih (ready none) e =
          let (all, left) = poll_none rx e in
          rw (e, fill) (ap concat (all ∙ sym left), (refl, left))
      go ih pending e = rw (e, fill) (ap concat (sym (poll_pending rx e)), refl)

  -- The bytes that the carrier's reads have still to give, of the messages sent so far.
  abbrev pub unread : Reader ch → Bytes
  unread r = r.buf ++ concat (queued r.rx)

  abbrev pub got : Poll Bytes → Bytes
  got (ready b) = b
  got pending = []

  -- What one read does: it gives the next bytes, no more than there is room for; and no bytes, with
  -- room for some, only at the end, when all that was sent has been read.
  abbrev pub Reads : ℕ → Reader ch → Option (Poll Bytes × Reader ch) → Type 0
  Reads remaining r none = ⊥
  Reads remaining r (some (p, r')) =
      (unread r ≡ got p ++ unread r')
      × (length (got p) ≤ remaining)
      × (p ≡ ready [] → (remaining ≡ 0) ⊎ (unread r ≡ []))

  hand_over-Reads :
      (remaining : ℕ) (r : Reader ch) (f : Poll Bool × Chan × Bytes)
      → Fills r.rx r.buf (some f)
      → Reads remaining r (some (hand_over ch remaining f))
  unfolding hand_over
  hand_over-Reads remaining r (ready true, rx, []) (kept, full) = absurd (full refl)
  hand_over-Reads remaining r (ready true, rx, b ∷ buf) (kept, full) = (
    kept
        ∙ ap (λ l. l ++ concat (queued rx)) (sym (take-append-drop n (b ∷ buf)))
        ∙ append_assoc (take n (b ∷ buf)) (drop n (b ∷ buf)) (concat (queued rx)),
    omega (arith, length-take n (b ∷ buf)),
    λ e. inl (omega (arith, length-take n (b ∷ buf), ap (λ p. length (got p)) e)),
  )
    where
      n : ℕ
      n = min (length (b ∷ buf)) remaining
  hand_over-Reads remaining r (ready false, rx, buf) (kept, (empty, ended)) =
      (kept, omega arith, λ e. inr (kept ∙ ap₂ (λ l q. l ++ concat q) empty ended))
  hand_over-Reads remaining r (pending, rx, buf) (kept, empty) = (kept, omega arith, λ e. cc)

  -- `poll_read`, with fuel for the messages that are queued: the loop ends, the bytes come in the
  -- order in which they were sent, none is lost, and an empty read means the end.
  pub poll_read-Reads :
      (fuel remaining : ℕ) (r : Reader ch)
      → length (queued r.rx) < fuel
      → Reads remaining r (poll_read ch fuel remaining r)
  unfolding poll_read
  poll_read-Reads fuel remaining r h = go (fill ch fuel r.rx r.buf) (fill-Fills fuel r.rx r.buf h)
    where
      go :
          (o : Option (Poll Bool × Chan × Bytes))
          → Fills r.rx r.buf o
          → Reads remaining r (elim o [ none ↦ none | some f ↦ some (hand_over ch remaining f) ])
      go none h = h
      go (some f) h = hand_over-Reads remaining r f h

  pub arrive : Bytes → Reader ch → Reader ch
  arrive b r = record r { rx = send b r.rx }

  abbrev pub InOrder : List ReadEvent → Reader ch → Option (Bytes × Reader ch) → Type 0
  InOrder es r none = ⊥
  InOrder es r (some (out, r')) = out ++ unread r' ≡ unread r ++ sent_by es

  unread-arrive : (b : Bytes) (r : Reader ch) → unread (arrive b r) ≡ unread r ++ b
  unfolding arrive
  unread-arrive b r =
      ap (λ q. r.buf ++ concat q) (queued-send b r.rx)
      ∙ ap (λ l. r.buf ++ l) (concat-append (queued r.rx) (b ∷ []))
      ∙ simp (append_assoc, append-nil)

  after_read : Bytes → Option (Bytes × Reader ch) → Option (Bytes × Reader ch)
  after_read b none = none
  after_read b (some (out, r)) = some (b ++ out, r)

  -- The events in turn, each read with the fuel that it takes; the bytes read, and what is left.
  pub reads : List ReadEvent → Reader ch → Option (Bytes × Reader ch)
  unfolding arrive after_read
  reads [] r = some ([], r)
  reads (sent b ∷ es) r = reads es (arrive b r)
  reads (read n ∷ es) r = elim (poll_read ch (suc (length (queued r.rx))) n r) [
    | none ↦ none
    | some x ↦ after_read (got x.0) (reads es x.1)
  ]

  read-InOrder :
      (n : ℕ) (es : List ReadEvent) (r r' : Reader ch) (p : Poll Bytes)
      (o : Option (Bytes × Reader ch))
      → unread r ≡ got p ++ unread r'
      → InOrder es r' o
      → InOrder (read n ∷ es) r (after_read (got p) o)
  unfolding after_read
  read-InOrder n es r r' p none kept ih = ih
  read-InOrder n es r r' p (some (out, r'')) kept ih =
      append_assoc (got p) out (unread r'')
      ∙ ap (λ l. got p ++ l) ih
      ∙ sym (append_assoc (got p) (unread r') (sent_by es))
      ∙ ap (λ l. l ++ sent_by es) (sym kept)

  sent-InOrder :
      (b : Bytes) (es : List ReadEvent) (r r' : Reader ch) (o : Option (Bytes × Reader ch))
      → unread r' ≡ unread r ++ b
      → InOrder es r' o
      → InOrder (sent b ∷ es) r o
  sent-InOrder b es r r' none e ih = ih
  sent-InOrder b es r r' (some (out, r'')) e ih =
      ih ∙ ap (λ l. l ++ sent_by es) e ∙ append_assoc (unread r) b (sent_by es)

  -- Over any sequence of messages and reads: what was read, followed by what is unread, is what
  -- was unread at the start followed by what was sent since. Every read ends.
  pub reads-InOrder : (es : List ReadEvent) (r : Reader ch) → InOrder es r (reads es r)
  unfolding reads
  reads-InOrder [] r = sym (append-nil (unread r))
  reads-InOrder (sent b ∷ es) r =
      sent-InOrder b es r (arrive b r) (reads es (arrive b r)) (unread-arrive b r)
        (reads-InOrder es (arrive b r))
  reads-InOrder (read n ∷ es) r =
      go (λ r'. reads-InOrder es r') (poll_read ch (suc (length (queued r.rx))) n r)
        (poll_read-Reads (suc (length (queued r.rx))) n r (omega arith))
    where
      go :
          ((r' : Reader ch) → InOrder es r' (reads es r'))
          → (o : Option (Poll Bytes × Reader ch)) → Reads n r o
          → InOrder
              (read n ∷ es)
              r
              (elim o [ none ↦ none | some x ↦ after_read (got x.0) (reads es x.1) ])
      go ih none h = h
      go ih (some (p, r')) h = read-InOrder n es r r' p (reads es r') h.0 (ih r')
