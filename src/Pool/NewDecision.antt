-- ===== src/Pool/NewDecision.antt =====
-- src/pool.rs, `PoolPolicyDecision.new`: which decisions can be made.
use zmux_python.Prelude.{
  ℕ, ◌≡◌, refl, Bool, true, false, not, Option, none, some, PyErr, PyResult, ok, err, bind_ok,
  raise_if, raise_if-ok, ◌>>=◌, ◌>>◌, arith,
}
use zmux_python.Pool.{
  Floats, Decision, is_bad, to_period, check_interval, check_jitter, new_decision, not_secs,
  bad_interval,
}

module _ (fl : Floats) where
  open fl use {Float}

  abbrev pub FitsInterval : (Option ℕ → Bool) → Option Float → Type 0
  FitsInterval fits none = Unit
  FitsInterval fits (some i) = (p : Option ℕ) × (to_period fl i ≡ ok p) × (fits p ≡ true)

  abbrev pub FitsJitter : (Float → Bool) → Option Float → Type 0
  FitsJitter fits none = Unit
  FitsJitter fits (some j) = fits j ≡ true

  abbrev pub ValidDecision : (Option ℕ → Bool) → (Float → Bool) → Decision fl → Type 0
  ValidDecision fits_interval fits_jitter d =
      (is_bad fl d.dial_after ≡ false)
      × (is_bad fl d.recheck ≡ false)
      × FitsInterval fits_interval d.probe_interval
      × FitsJitter fits_jitter d.probe_jitter

  abbrev pub MakesDecision :
      (Option ℕ → Bool) → (Float → Bool) → Decision fl → PyResult (Decision fl) → Type 0
  MakesDecision fits_interval fits_jitter d (ok d') =
      (d' ≡ d) × ValidDecision fits_interval fits_jitter d
  MakesDecision fits_interval fits_jitter d (err e) = ¬ ValidDecision fits_interval fits_jitter d

  check_interval-Fits :
      (fits : Option ℕ → Bool) (i : Option Float) (u : Unit {0})
      → check_interval fl fits i ≡ ok u
      → FitsInterval fits i
  unfolding check_interval
  check_interval-Fits fits none u h = tt
  check_interval-Fits fits (some i) u h =
      let (p, h₁, at) = bind_ok _ u (to_period fl i) h in
      (p, at, ground (arith, raise_if-ok _ _ u h₁))

  check_interval-fails :
      (fits : Option ℕ → Bool) (i : Option Float) (e : PyErr)
      → check_interval fl fits i ≡ err e
      → ¬ FitsInterval fits i
  unfolding check_interval
  check_interval-fails fits none e h = λ f. cc
  check_interval-fails fits (some i) e h = λ f. absurd (raises (to_period fl i) f.0 f.1 f.2 h)
    where
      raises :
          (r : PyResult (Option ℕ)) (p : Option ℕ)
          → r ≡ ok p
          → fits p ≡ true
          → (r >>= λ p. raise_if (not (fits p)) (bad_interval fl)) ≡ err e
          → ⊥
      raises (err x) p er good h = cc
      raises (ok p') p er good h = ground (arith, good, er, h)

  check_jitter-Fits :
      (fits : Float → Bool) (j : Option Float) (u : Unit {0})
      → check_jitter fl fits j ≡ ok u
      → FitsJitter fits j
  unfolding check_jitter
  check_jitter-Fits fits none u h = tt
  check_jitter-Fits fits (some j) u h = ground (arith, raise_if-ok _ _ u h)

  check_jitter-fails :
      (fits : Float → Bool) (j : Option Float) (e : PyErr)
      → check_jitter fl fits j ≡ err e
      → ¬ FitsJitter fits j
  unfolding check_jitter
  check_jitter-fails fits none e h = λ f. cc
  check_jitter-fails fits (some j) e h = λ f. absurd (ground (arith, f, h))

  new_decision_at :
      (fits_interval : Option ℕ → Bool) (fits_jitter : Float → Bool) (d : Decision fl)
      (dial recheck : Bool) (interval jitter : PyResult (Unit {0}))
      → is_bad fl d.dial_after ≡ dial
      → is_bad fl d.recheck ≡ recheck
      → check_interval fl fits_interval d.probe_interval ≡ interval
      → check_jitter fl fits_jitter d.probe_jitter ≡ jitter
      → MakesDecision fits_interval fits_jitter d
          (do raise_if dial (not_secs fl); raise_if recheck (not_secs fl); interval; jitter; ok d)
  new_decision_at fi fj d true r i j ed er ei ej = λ v. cc (v.0, ed)
  new_decision_at fi fj d false true i j ed er ei ej = λ v. cc (v.1, er)
  new_decision_at fi fj d false false (err e) j ed er ei ej =
      λ v. check_interval-fails fi d.probe_interval e ei v.2
  new_decision_at fi fj d false false (ok u) (err e) ed er ei ej =
      λ v. check_jitter-fails fj d.probe_jitter e ej v.3
  new_decision_at fi fj d false false (ok u) (ok w) ed er ei ej = (
    refl,
    (
      ed,
      er,
      check_interval-Fits fi d.probe_interval u ei,
      check_jitter-Fits fj d.probe_jitter w ej,
    ),
  )

  -- A `PoolPolicyDecision` is made exactly when its times are finite and not negative, its probe
  -- interval is 0 or a duration that the crate takes, and the crate takes its jitter; it then holds
  -- what was given.
  pub new_decision-MakesDecision :
      (fits_interval : Option ℕ → Bool) (fits_jitter : Float → Bool) (d : Decision fl)
      → MakesDecision fits_interval fits_jitter d (new_decision fl fits_interval fits_jitter d)
  unfolding new_decision
  new_decision-MakesDecision fi fj d =
      new_decision_at fi fj d (is_bad fl d.dial_after) (is_bad fl d.recheck)
        (check_interval fl fi d.probe_interval) (check_jitter fl fj d.probe_jitter) refl refl refl
        refl
