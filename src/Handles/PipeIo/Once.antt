-- ===== src/Handles/PipeIo/Once.antt =====
-- src/lib.rs, `PipeIo` and `PipeReservation`: a carrier is handed on once, and which failures keep it.
use zmux_python.Prelude.{
  ℕ, suc, ◌+◌, ◌^◌, ◌≤◌, ◌≡◌, ◌≢◌, refl, ◌⊎◌, inl, inr, true, false, Bool-cases, ltb, Option, none,
  some, List, [], ◌∷◌, arith, PyErr, runtime_error, value_error, PyResult, ok, err,
}
use zmux_python.Handles.PipeIo.{
  pos, negsuc, Cells, Use, with_carrier, with_write_overhead, wrap_layer, add_pipe, handle_pipe,
  start, attach, use_pipe,
}

-- What a call converts or tests before it takes the carrier, and fails with.
abbrev pub Refuses :
    {Kind Config Options Hint : Type 0} → Use Kind Config Options Hint → PyErr → Type 0
Refuses (with_carrier (err x)) e = e ≡ x
Refuses (with_write_overhead (pos n)) e =
    (2 ^ 16 ≤ n) × (e ≡ value_error "write_overhead is between 0 and 65535")
Refuses (with_write_overhead (negsuc n)) e = e ≡ value_error "write_overhead is between 0 and 65535"
Refuses (wrap_layer (err x)) e = e ≡ x
Refuses (add_pipe (err x)) e = e ≡ x
Refuses (handle_pipe (err x) source) e = e ≡ x
Refuses (handle_pipe (ok h) (err x)) e = e ≡ x
Refuses u e = ⊥

-- What a call still fails with once it has taken the carrier, on the reservation.
abbrev pub RefusesLate :
    {Kind Config Options Hint Res : Type 0}
    → Use Kind Config Options Hint
    → Option Res
    → PyErr
    → Type 0
RefusesLate (start (err x)) r e = e ≡ x
RefusesLate attach none e = e ≡ runtime_error "reservation already used"
RefusesLate u r e = ⊥

-- The reservation after a call that succeeds: `attach` uses it up.
abbrev pub reservation_after :
    {Kind Config Options Hint Res : Type 0} → Use Kind Config Options Hint → Option Res → Option Res
reservation_after attach r = none
reservation_after u r = r

abbrev pub handed_on : {Io : Type 0} → List (PyResult Io) → ℕ
handed_on [] = 0
handed_on (ok io ∷ rs) = suc (handed_on rs)
handed_on (err e ∷ rs) = handed_on rs

abbrev pub held : {Io : Type 0} → Option Io → ℕ
held none = 0
held (some io) = 1

module _ {Io Res Kind Config Options Hint : Type 0} where
  -- What one call does to the handle.
  abbrev pub Takes :
      Use Kind Config Options Hint → Cells Io Res → PyResult Io × Cells Io Res → Type 0
  Takes u s (ok io, t) =
      (s.pipe ≡ some io)
      × (t ≡ record { pipe = none; reservation = reservation_after u s.reservation })
      × ((e : PyErr) → ¬ Refuses u e)
      × ((e : PyErr) → ¬ RefusesLate u s.reservation e)
  Takes u s (err e, t) =
      Refuses u e × (t ≡ s)
      ⊎ ((x : PyErr) → ¬ Refuses u x)
        × (s.pipe ≡ none)
        × (e ≡ runtime_error "pipe already used")
        × (t ≡ s)
      ⊎ ((x : PyErr) → ¬ Refuses u x)
        × (s.pipe ≢ none)
        × RefusesLate u s.reservation e
        × (t ≡ record { pipe = none; reservation = s.reservation })

  use_pipe-Takes_at :
      (u : Use Kind Config Options Hint) (p : Option Io) (r : Option Res)
      → Takes u
          (record { pipe = p; reservation = r })
          (use_pipe u (record { pipe = p; reservation = r }))
  unfolding use_pipe
  use_pipe-Takes_at (with_carrier (err x)) p r = inl (refl, refl)
  use_pipe-Takes_at (with_write_overhead (pos n)) p r = overhead (Bool-cases (ltb n (2 ^ 16))) p
    where
      overhead :
          (ltb n (2 ^ 16) ≡ true) ⊎ (ltb n (2 ^ 16) ≡ false)
          → (p : Option Io)
          → Takes
              (with_write_overhead (pos n))
              (record { pipe = p; reservation = r })
              (use_pipe {Kind = Kind} {Config = Config} {Options = Options} {Hint = Hint}
                (with_write_overhead (pos n))
                (record { pipe = p; reservation = r }))
      overhead (inl h) none = rw h (inr (inl (λ x f. ground (arith, f.0, h), refl, refl, refl)))
      overhead (inl h) (some io) = rw h (refl, refl, (λ x f. ground (arith, f.0, h)), λ x f. f)
      overhead (inr h) q = rw h (inl ((ground (arith, h), refl), refl))
  use_pipe-Takes_at (with_write_overhead (negsuc n)) p r = inl (refl, refl)
  use_pipe-Takes_at (wrap_layer (err x)) p r = inl (refl, refl)
  use_pipe-Takes_at (add_pipe (err x)) p r = inl (refl, refl)
  use_pipe-Takes_at (handle_pipe (err x) source) p r = inl (refl, refl)
  use_pipe-Takes_at (handle_pipe (ok h) (err x)) p r = inl (refl, refl)
  use_pipe-Takes_at (start (err x)) none r = inr (inl (λ y f. f, refl, refl, refl))
  use_pipe-Takes_at (start (err x)) (some io) r = inr (inr (λ y f. f, λ q. cc, refl, refl))
  use_pipe-Takes_at attach (some io) none = inr (inr (λ y f. f, λ q. cc, refl, refl))
  use_pipe-Takes_at attach (some io) (some r) = (refl, refl, (λ y f. f), λ y f. f)
  use_pipe-Takes_at u none r = inr (inl (λ y f. f, refl, refl, refl))
  use_pipe-Takes_at u (some io) r = (refl, refl, (λ y f. f), λ y f. f)

  -- A call first converts and tests its arguments, the configuration of `start` excepted: where one
  -- fails it raises that and leaves the carrier; then it raises where the carrier was used. `start`
  -- raises for its configuration and `attach` for a used reservation with the carrier taken. Else
  -- the call succeeds, hands on the carrier and leaves the handle empty; `attach` uses up the
  -- reservation too, which no other call touches.
  pub use_pipe-Takes :
      (u : Use Kind Config Options Hint) (s : Cells Io Res) → Takes u s (use_pipe u s)
  use_pipe-Takes u s = use_pipe-Takes_at u s.pipe s.reservation

  -- The calls in turn, and their results.
  pub uses : List (Use Kind Config Options Hint) → Cells Io Res → List (PyResult Io) × Cells Io Res
  uses [] s = ([], s)
  uses (u ∷ us) s = let (r, t) = use_pipe u s in let (rs, t') = uses us t in (r ∷ rs, t')

  -- Whatever calls are made on one handle, the carrier is handed on at most once, and not at all
  -- while it is still in the handle at the end.
  pub uses_once :
      (us : List (Use Kind Config Options Hint)) (s : Cells Io Res)
      → let (rs, t) = uses us s in handed_on rs + held t.pipe ≤ held s.pipe
  unfolding uses
  uses_once [] s = omega arith
  uses_once (u ∷ us) s = ground (arith, use_pipe-Takes u s, uses_once us (use_pipe u s).1)
