-- ===== src/Handles/Parts/Pair.antt =====
-- src/helpers.rs, `pair`: it takes both parts of one stream, or neither.
use zmux_python.Prelude.{
  ℕ, ◌≡◌, refl, Bool, true, false, Option, none, some, arith, PyResult, ok, err, Bool-cases, inl,
  inr, ◌⊎◌, PyErr, value_error, ◌==◌,
}
use zmux_python.Handles.Parts.{Halves, busy_err, taken, take_both, pair, differ}

module _ {S R : Type 0} (send_id : S → Option ℕ) (recv_id : R → Option ℕ) where
  abbrev pub Agree : S → R → Type 0
  Agree a b = (x y : ℕ) → send_id a ≡ some x → recv_id b ≡ some y → x ≡ y

  -- The two parts can be taken now, and are not known to be of two streams.
  abbrev pub Takable : Halves S R → S → R → Type 0
  Takable h a b =
      (h.send.busy ≡ false)
      × (h.recv.busy ≡ false)
      × (h.send.part ≡ some a)
      × (h.recv.part ≡ some b)
      × Agree a b

  -- Which test fails, in their order: a lock that is taken, a part that is not there, two ids.
  abbrev pub Refuses : Halves S R → PyErr → Type 0
  Refuses h e =
      (e ≡ busy_err) × ((h.send.busy ≡ true) ⊎ (h.recv.busy ≡ true))
      ⊎ (e ≡ taken)
        × (h.send.busy ≡ false)
        × (h.recv.busy ≡ false)
        × ((h.send.part ≡ none) ⊎ (h.recv.part ≡ none))
      ⊎ (e ≡ value_error "the parts of two different streams")
        × (h.send.busy ≡ false)
        × (h.recv.busy ≡ false)
        × ((a : S) × (b : R) × (h.send.part ≡ some a) × (h.recv.part ≡ some b) × ¬ Agree a b)

  abbrev pub Pairs : Halves S R → PyResult (S × R) × Halves S R → Type 0
  Pairs h (ok (a, b), t) = Takable h a b × (t.send.part ≡ none) × (t.recv.part ≡ none)
  Pairs h (err e, t) = (t ≡ h) × Refuses h e × ((a : S) (b : R) → ¬ Takable h a b)

  abbrev halves : Bool → Bool → Option S → Option R → Halves S R
  halves sb rb sp rp = record {
    send = record { busy = sb; part = sp };
    recv = record { busy = rb; part = rp };
  }

  ids-Pairs :
      (a : S) (b : R) (i j : Option ℕ)
      → send_id a ≡ i
      → recv_id b ≡ j
      → Pairs
          (halves false false (some a) (some b))
          (pair send_id recv_id (halves false false (some a) (some b)))
  unfolding pair
  ids-Pairs a b none j ei ej =
      rw (ei, differ, take_both) ((refl, refl, refl, refl, λ x y p q. cc), refl, refl)
  ids-Pairs a b (some x) none ei ej =
      rw (ei, ej, differ, take_both) ((refl, refl, refl, refl, λ x y p q. cc), refl, refl)
  ids-Pairs a b (some x) (some y) ei ej = elim (Bool-cases (x == y)) [
    | inl same ↦
        rw (ei, ej, same, differ, take_both)
          ((refl, refl, refl, refl, λ v w p q. ground arith), refl, refl)
    | inr other ↦
        rw (ei, ej, other, differ, take_both)
          (
            refl,
            inr (
                inr
                  (refl, refl, refl, (a, b, refl, refl, λ agree. ground (arith, agree x y ei ej)))),
            λ a' b' t. ground (arith, t.4 x y),
          )
  ]

  pair_at :
      (sb rb : Bool) (sp : Option S) (rp : Option R)
      → Pairs (halves sb rb sp rp) (pair send_id recv_id (halves sb rb sp rp))
  unfolding pair
  pair_at true rb sp rp = (refl, inl (refl, inl refl), λ a b t. cc (t.0))
  pair_at false true sp rp = (refl, inl (refl, inr refl), λ a b t. cc (t.1))
  pair_at false false none rp = (refl, inr (inl (refl, refl, refl, inl refl)), λ a b t. cc (t.2))
  pair_at false false (some a) none =
      (refl, inr (inl (refl, refl, refl, inr refl)), λ a' b t. cc (t.3))
  pair_at false false (some a) (some b) = ids-Pairs a b (send_id a) (recv_id b) refl refl

  -- `pair` succeeds exactly when neither handle is busy, both parts are there and their ids, where
  -- both are known, agree; then both parts are taken. Else both handles are as they were, and what
  -- it raises says which test failed: a busy handle, then a part that is not there, then the ids.
  pub pair-Pairs : (h : Halves S R) → Pairs h (pair send_id recv_id h)
  pair-Pairs h = pair_at h.send.busy h.recv.busy h.send.part h.recv.part
