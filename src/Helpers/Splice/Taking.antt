-- ===== src/Helpers/Splice/Taking.antt =====
-- src/helpers.rs, `splice`: which of the four parts a call takes.
use zmux_python.Prelude.{
  ℕ, ◌≡◌, refl, ◌⊎◌, inl, inr, ◌||◌, Option, none, arith, PyResult, ok, err, ◌==◌, if◌then◌else◌,
}
use zmux_python.Prelude.Stateful.{Call, pure, bind_result, ◌>>=◌}
use zmux_python.Handles.Parts.{Halves, pair}
use zmux_python.Handles.Parts.Pair.{Takable, Pairs, pair-Pairs}
use zmux_python.Helpers.Splice.{Ends, Arguments, no_chunk, into_itself, pair_a, pair_b, splice}

-- The tests before any part is taken, in their order.
abbrev pub locals_of : Arguments → PyResult (Unit {0})
locals_of a = if a.limited then a.locals else ok tt

abbrev pub tests : Arguments → PyResult (Unit {0})
tests a =
    if a.chunk == 0
    then err no_chunk
    else if a.same_send || a.same_recv
    then err into_itself
    else locals_of a

module _ {S R : Type 0} (send_id : S → Option ℕ) (recv_id : R → Option ℕ) where
  abbrev IsEmptied : Halves S R → Type 0
  IsEmptied h = (h.send.part ≡ none) × (h.recv.part ≡ none)

  abbrev IsTakable : Halves S R → S × R → Type 0
  IsTakable h p = Takable send_id recv_id h p.0 p.1

  -- What the call does once its tests have passed.
  abbrev Takes : Ends S R → PyResult ((S × R) × (S × R)) × Ends S R → Type 0
  Takes e (ok (sa, sb), f) = IsTakable e.a sa × IsTakable e.b sb × IsEmptied f.a × IsEmptied f.b
  Takes e (err x, f) =
      ((f ≡ e) × ((p : S × R) → ¬ IsTakable e.a p))
      ⊎ (IsEmptied f.a
          × (f.b ≡ e.b)
          × ((p : S × R) × IsTakable e.a p)
          × ((p : S × R) → ¬ IsTakable e.b p))

  abbrev pub Splices :
      PyResult (Unit {0}) → Ends S R → PyResult ((S × R) × (S × R)) × Ends S R → Type 0
  Splices (err x) e (r, f) = (r ≡ err x) × (f ≡ e)
  Splices (ok u) e r = Takes e r

  abbrev pairs : Call (Ends S R) ((S × R) × (S × R))
  pairs = do sa ← pair_a send_id recv_id; sb ← pair_b send_id recv_id; pure (sa, sb)

  second_at :
      (e : Ends S R) (h : Halves S R) (sa : S × R) (rb : PyResult (S × R) × Halves S R)
      → IsTakable e.a sa
      → IsEmptied h
      → Pairs send_id recv_id e.b rb
      → Takes e (bind_result rb.0 (record { a = h; b = rb.1 }) λ sb. pure (sa, sb))
  second_at e h sa (ok sb, g) t n (u, ms, mr) = (t, u, n, (ms, mr))
  second_at e h sa (err x, g) t n (same, why, fails) = inr (n, same, (sa, t), λ p. fails p.0 p.1)

  first_at :
      (e : Ends S R) (ra : PyResult (S × R) × Halves S R)
      → Pairs send_id recv_id e.a ra
      → Takes e (
          bind_result ra.0
            (record { a = ra.1; b = e.b })
            λ sa. pair_b send_id recv_id >>= λ sb. pure (sa, sb))
  first_at e (ok sa, h) (t, ns, nr) =
      second_at e h sa (pair send_id recv_id e.b) t (ns, nr) (pair-Pairs send_id recv_id e.b)
  first_at e (err x, h) (same, why, fails) = inl (ground (arith, same), λ p. fails p.0 p.1)

  splice-tests :
      (args : Arguments) (e : Ends S R)
      → splice send_id recv_id args e ≡ bind_result (tests args) e λ u. pairs
  unfolding splice
  splice-tests args e = ground arith

  at_tests : (e : Ends S R) (t : PyResult (Unit {0})) → Splices t e (bind_result t e λ u. pairs)
  at_tests e (err x) = (refl, refl)
  at_tests e (ok u) = first_at e (pair send_id recv_id e.a) (pair-Pairs send_id recv_id e.a)

  -- A splice whose arguments fail a test raises that test's exception and touches no handle. Else it
  -- succeeds exactly when the parts of both streams can be taken, and takes all four. Where those of
  -- the first stream cannot, every handle is as it was; where only those of the second cannot, the
  -- first stream's two handles are used up all the same and the second's are as they were.
  pub splice-Splices :
      (args : Arguments) (e : Ends S R) → Splices (tests args) e (splice send_id recv_id args e)
  splice-Splices args e = rw (splice-tests args e) (at_tests e (tests args))
