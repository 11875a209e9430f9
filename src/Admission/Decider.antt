-- ===== src/Admission/Decider.antt =====
-- src/admission.rs, `PyDecide` and `Verdict`: a decider that fails closes, and which verdicts are equal.
use mathlib.Core.Option.{some-injective}
use zmux_python.Prelude.{
  ℕ, ◌≡◌, refl, ap, ◌↔◌, Bool, true, false, Bool-cases, inl, inr, Option, none, some, PyResult, ok,
  err, ◌==◌, arith,
}
use zmux_python.Admission.{
  Native, accepted, accepted_with, falls_back, stalls, closes, native, Verdict, accept, fallback,
  stall, close, verdict_obj, other_obj, Called, raises, gives, awaits, decide, values_eq,
  verdicts_eq,
}

module _ {O : Type 0} where
  -- The verdict that the decider came to: the one that it gave, or that its coroutine came to on the
  -- loop that was taken.
  abbrev pub came_to : Bool → PyResult (Called O) → Option (Verdict O)
  came_to has_locals (ok (gives (verdict_obj v))) = some v
  came_to true (ok (awaits (ok u) (ok (verdict_obj v)))) = some v
  came_to has_locals called = none

  -- The crate's verdict is the one that Python holds, with the same bytes to skip and value.
  abbrev pub IsNative : Verdict O → Native O → Type 0
  IsNative (accept skip none) v = v ≡ accepted skip
  IsNative (accept skip (some o)) v = v ≡ accepted_with skip o
  IsNative fallback v = v ≡ falls_back
  IsNative stall v = v ≡ stalls
  IsNative close v = v ≡ closes

  abbrev pub Decided : Option (Verdict O) → Native O → Type 0
  Decided (some w) v = IsNative w v
  Decided none v = v ≡ closes

  native-IsNative : (w : Verdict O) → IsNative w (native w)
  unfolding native
  native-IsNative (accept skip none) = refl
  native-IsNative (accept skip (some o)) = refl
  native-IsNative fallback = refl
  native-IsNative stall = refl
  native-IsNative close = refl

  -- The listener gets the verdict that the decider came to. If the decider raises, gives something
  -- else, is a coroutine with no loop to run on, or cannot be called, the carrier is closed: it is
  -- never taken without a verdict that accepts it.
  pub decide-Decided :
      (has_locals : Bool) (called : PyResult (Called O))
      → Decided (came_to has_locals called) (decide has_locals called)
  unfolding decide
  decide-Decided has_locals (err e) = refl
  decide-Decided true (ok (raises e)) = refl
  decide-Decided false (ok (raises e)) = refl
  decide-Decided true (ok (gives (verdict_obj v))) = native-IsNative v
  decide-Decided false (ok (gives (verdict_obj v))) = native-IsNative v
  decide-Decided true (ok (gives other_obj)) = refl
  decide-Decided false (ok (gives other_obj)) = refl
  decide-Decided false (ok (awaits started result)) = refl
  decide-Decided true (ok (awaits (err e) result)) = refl
  decide-Decided true (ok (awaits (ok u) (err e))) = refl
  decide-Decided true (ok (awaits (ok u) (ok (verdict_obj v)))) = native-IsNative v
  decide-Decided true (ok (awaits (ok u) (ok other_obj))) = refl

  values_eq_lem :
      (eq : O → O → PyResult Bool) (x y : Option O)
      → ((a b : O) → (eq a b ≡ ok true) ↔ (a ≡ b))
      → (values_eq eq x y ≡ ok true) ↔ (x ≡ y)
  unfolding values_eq
  values_eq_lem eq none none h = (λ e. refl, λ e. refl)
  values_eq_lem eq (some a) (some b) h =
      (λ e. ap some ((h a b).0 e), λ e. (h a b).1 (some-injective a b e))
  values_eq_lem eq none (some b) h = (λ e. absurd (cc), λ e. absurd (cc))
  values_eq_lem eq (some a) none h = (λ e. absurd (cc), λ e. absurd (cc))

  abbrev skip_of : Verdict O → ℕ
  skip_of (accept a x) = a
  skip_of v = 0

  abbrev value_of : Verdict O → Option O
  value_of (accept a x) = x
  value_of v = none

  accepts_eq_lem :
      (eq : O → O → PyResult Bool) (a b : ℕ) (x y : Option O)
      → ((c d : O) → (eq c d ≡ ok true) ↔ (c ≡ d))
      → (verdicts_eq eq (accept a x) (accept b y) ≡ ok true) ↔ (accept a x ≡ accept b y)
  unfolding verdicts_eq
  accepts_eq_lem eq a b x y h = elim (Bool-cases (a == b)) [
    | inl e ↦ rw e (
      λ t. cc (same a b e, (values_eq_lem eq x y h).0 t),
      λ t. (values_eq_lem eq x y h).1 (ap value_of t),
    )
    | inr e ↦ rw e (λ t. absurd (cc), λ t. absurd (differs a b e (ap skip_of t)))
  ]
    where
      same : (a b : ℕ) → (a == b) ≡ true → a ≡ b
      same a b e = ground (arith, e)

      differs : (a b : ℕ) → (a == b) ≡ false → a ≡ b → ⊥
      differs a b e t = ground (arith, e, t)

  -- Two verdicts compare equal exactly when they are the same, where Python's `==` tells the values
  -- of the accepts apart and does not raise.
  pub verdicts_eq_lem :
      (eq : O → O → PyResult Bool) (v w : Verdict O)
      → ((a b : O) → (eq a b ≡ ok true) ↔ (a ≡ b))
      → (verdicts_eq eq v w ≡ ok true) ↔ (v ≡ w)
  unfolding verdicts_eq
  verdicts_eq_lem eq (accept a x) (accept b y) h = accepts_eq_lem eq a b x y h
  verdicts_eq_lem eq fallback fallback h = (λ e. refl, λ e. refl)
  verdicts_eq_lem eq stall stall h = (λ e. refl, λ e. refl)
  verdicts_eq_lem eq close close h = (λ e. refl, λ e. refl)
  verdicts_eq_lem eq (accept a x) w h = (λ e. cc, λ e. cc)
  verdicts_eq_lem eq v w h = (λ e. cc, λ e. cc)
