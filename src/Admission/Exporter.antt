-- ===== src/Admission/Exporter.antt =====
-- src/admission.rs, `with_info`: every exporter request is answered, and the answering ends.
use mathlib.Core.List.{append_assoc, append-nil}
use zmux_python.Prelude.{
  ℕ, ◌≡◌, refl, sym, ap, ◌∙◌, Bool, true, false, Option, none, List, [], ◌∷◌, ◌++◌,
}
use zmux_python.Admission.{
  Ask, export, done, Channel, Event, asks, returns, answers, unanswered, step, run, opened,
}

module _ {Req Val : Type 0} (give : Req → Option Val) where
  -- The replies that are due: the exporter's value for a request made before the call returns, and
  -- `None` for one made after it.
  abbrev pub due : Bool → List (Event Req) → List (ℕ × Option Val)
  due returned [] = []
  due true (asks place r ∷ es) = (place, none) ∷ due true es
  due false (asks place r ∷ es) = (place, give r) ∷ due false es
  due returned (returns ∷ es) = due true es
  due returned (answers ∷ es) = due returned es

  -- The replies that the queue will get.
  abbrev pending : List (Ask Req) → List (ℕ × Option Val)
  pending [] = []
  pending (export place r ∷ q) = (place, give r) ∷ pending q
  pending (done ∷ q) = unanswered q

  abbrev has_done : List (Ask Req) → Bool
  has_done [] = false
  has_done (export place r ∷ q) = has_done q
  has_done (done ∷ q) = true

  -- The end of the call is in the queue exactly between its return and the end of the answering.
  abbrev Fits : Bool → Bool → List (Ask Req) → Type 0
  Fits returned true q = (returned ≡ true) × (q ≡ [])
  Fits returned false q = has_done q ≡ returned

  abbrev Inv : Channel Req Val → Type 0
  Inv c = Fits c.returned c.over c.queue

  unanswered-export :
      (q : List (Ask Req)) (place : ℕ) (r : Req)
      → unanswered {Val = Val} (q ++ export place r ∷ []) ≡ unanswered q ++ (place, none) ∷ []
  unanswered-export [] place r = refl
  unanswered-export (export p x ∷ q) place r = ap (λ l. (p, none) ∷ l) (unanswered-export q place r)
  unanswered-export (done ∷ q) place r = unanswered-export q place r

  pending-export :
      (q : List (Ask Req)) (place : ℕ) (r : Req) (b : Bool)
      → has_done q ≡ b
      → (has_done (q ++ export place r ∷ []) ≡ b)
        × (pending (q ++ export place r ∷ []) ≡ pending q ++ due b (asks place r ∷ []))
  pending-export [] place r true h = absurd (cc)
  pending-export [] place r false h = (refl, refl)
  pending-export (export p x ∷ q) place r b h =
      let (d, e) = pending-export q place r b h in (d, ap (λ l. (p, give x) ∷ l) e)
  pending-export (done ∷ q) place r true h = (refl, unanswered-export q place r)
  pending-export (done ∷ q) place r false h = absurd (cc)

  pending-done :
      (q : List (Ask Req))
      → has_done q ≡ false
      → (has_done (q ++ done ∷ []) ≡ true) × (pending (q ++ done ∷ []) ≡ pending q)
  pending-done [] h = (refl, refl)
  pending-done (export p x ∷ q) h =
      let (d, e) = pending-done q h in (d, ap (λ l. (p, give x) ∷ l) e)
  pending-done (done ∷ q) h = absurd (cc)

  abbrev chan : List (Ask Req) → Bool → Bool → List (ℕ × Option Val) → Channel Req Val
  chan q returned over replies = record {
    queue = q;
    returned = returned;
    over = over;
    replies = replies;
  }

  abbrev all_replies : Channel Req Val → List (ℕ × Option Val)
  all_replies c = c.replies ++ pending c.queue

  abbrev returned_after : Bool → Event Req → Bool
  returned_after b returns = true
  returned_after b e = b

  abbrev Steps : Bool → Event Req → Channel Req Val → Channel Req Val → Type 0
  Steps b e c c' =
      Inv c'
      × (c'.returned ≡ returned_after b e)
      × (all_replies c' ≡ all_replies c ++ due b (e ∷ []))

  step-Steps :
      (e : Event Req) (q : List (Ask Req)) (b over : Bool) (rs : List (ℕ × Option Val))
      → Fits b over q
      → Steps b e (chan q b over rs) (step give e (chan q b over rs))
  unfolding step
  step-Steps (asks p r) (x ∷ q) b true rs h = absurd (cc (h.1))
  step-Steps (asks p r) [] false true rs h = absurd (cc (h.0))
  step-Steps (asks p r) [] true true rs h = ((refl, refl), refl, simp (append_assoc, append-nil))
  step-Steps (asks p r) q b false rs h =
      let (d, e) = pending-export q p r b h in
      (d, refl, ap (λ l. rs ++ l) e ∙ sym (append_assoc rs (pending q) (due b (asks p r ∷ []))))
  step-Steps returns q true over rs h = (h, refl, sym (append-nil (rs ++ pending q)))
  step-Steps returns q false true rs h = absurd (cc (h.0))
  step-Steps returns q false false rs h =
      let (d, e) = pending-done q h in
      (d, refl, ap (λ l. rs ++ l) e ∙ sym (append-nil (rs ++ pending q)))
  step-Steps answers q b true rs h = (h, refl, sym (append-nil (rs ++ pending q)))
  step-Steps answers [] b false rs h = (h, refl, sym (append-nil (rs ++ [])))
  step-Steps answers (export p r ∷ q) b false rs h = (h, refl, simp (append_assoc, append-nil))
  step-Steps answers (done ∷ q) b false rs h =
      ((sym h, refl), refl, simp (append_assoc, append-nil))

  due-cons :
      (b : Bool) (e : Event Req) (es : List (Event Req))
      → due b (e ∷ es) ≡ due b (e ∷ []) ++ due (returned_after b e) es
  due-cons true (asks p r) es = refl
  due-cons false (asks p r) es = refl
  due-cons true returns es = refl
  due-cons false returns es = refl
  due-cons true answers es = refl
  due-cons false answers es = refl

  run-Inv :
      (es : List (Event Req)) (c : Channel Req Val)
      → Inv c
      → Inv (run give es c) × (all_replies (run give es c) ≡ all_replies c ++ due c.returned es)
  unfolding run
  run-Inv [] c h = (h, due_nil c.returned)
    where
      due_nil : (b : Bool) → all_replies c ≡ all_replies c ++ due b []
      due_nil true = sym (append-nil (all_replies c))
      due_nil false = sym (append-nil (all_replies c))
  run-Inv (e ∷ es) c h =
      let (inv, later, one) = step-Steps e c.queue c.returned c.over c.replies h in
      let (inv', rest) = run-Inv es (step give e c) inv in
      (
        inv',
        rest
            ∙ ap (λ l. l ++ due (step give e c).returned es) one
            ∙ append_assoc (all_replies c) (due c.returned (e ∷ []))
                (due (step give e c).returned es)
            ∙ ap (λ b. all_replies c ++ (due c.returned (e ∷ []) ++ due b es)) later
            ∙ ap (λ l. all_replies c ++ l) (sym (due-cons c.returned e es)),
      )

  abbrev pub answer_all : List (Ask Req) → List (Event Req)
  answer_all [] = []
  answer_all (a ∷ q) = answers ∷ answer_all q

  abbrev Ended : List (ℕ × Option Val) → Channel Req Val → Type 0
  Ended rs c = (c.over ≡ true) × (c.replies ≡ rs)

  run-over :
      (q : List (Ask Req)) (b : Bool) (rs : List (ℕ × Option Val))
      → Ended rs (run give (answer_all q) (chan [] b true rs))
  unfolding run step
  run-over [] b rs = (refl, refl)
  run-over (a ∷ q) b rs = run-over q b rs

  run-answers :
      (q : List (Ask Req)) (b : Bool) (rs : List (ℕ × Option Val))
      → has_done q ≡ true
      → Ended (rs ++ pending q) (run give (answer_all q) (chan q b false rs))
  unfolding run step
  run-answers [] b rs h = absurd (cc)
  run-answers (export p r ∷ q) b rs h =
      let (o, same) = run-answers q b (rs ++ (p, give r) ∷ []) h in
      (o, same ∙ append_assoc rs ((p, give r) ∷ []) (pending q))
  run-answers (done ∷ q) b rs h = run-over q b (rs ++ unanswered q)

  -- Once the call has returned, the answering ends after at most one turn for each request that is
  -- queued; then every request that was made, before or after, has its one reply, in their order: the
  -- exporter's value if it was made before the call returned, else `None`.
  pub answering_ends :
      (es : List (Event Req))
      → (run give es opened).returned ≡ true
      → let c = run give es opened in
        let c' = run give (answer_all c.queue) c in (c'.over ≡ true) × (c'.replies ≡ due false es)
  answering_ends es back =
      let (inv, all) = run-Inv es opened refl in
      ends (run give es opened).queue (run give es opened).over (run give es opened).replies
        (run give es opened).returned inv all back
    where
      ends :
          (q : List (Ask Req)) (over : Bool) (rs : List (ℕ × Option Val)) (b : Bool)
          → Fits b over q
          → rs ++ pending q ≡ due false es
          → b ≡ true
          → Ended (due false es) (run give (answer_all q) (chan q b over rs))
      ends [] true rs b h all back =
          let (o, same) = run-over [] b rs in (o, same ∙ sym (append-nil rs) ∙ all)
      ends (x ∷ q) true rs b h all back = absurd (cc (h.1))
      ends q false rs b h all back =
          let (o, same) = run-answers q b rs (h ∙ back) in (o, same ∙ all)
