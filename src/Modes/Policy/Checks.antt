-- ===== src/Modes/Policy/Checks.antt =====
-- src/mode.rs, `policy`: which arguments make a policy, and which exception the others raise.
use zmux_python.Prelude.{
  ℕ, ◌≡◌, refl, Bool, true, false, not, ◌&&◌, Option, none, some, List, [], ◌∷◌, PyResult, ok, err,
  ok_or, raise_if, ◌>>=◌, ◌>>◌, if◌then◌else◌, is_some,
}
use zmux_python.Modes.Policy.{
  Floats, Name, timer_factor, timer_min, timer_max, settle, drop_window, Policy, not_valid, Args,
  policy,
}

-- The first argument of a list that is not valid.
abbrev pub first_bad : List (Name × Bool) → Option Name
first_bad [] = none
first_bad ((n, valid) ∷ rest) = if valid then first_bad rest else some n

abbrev listed : Bool → Option ℕ → Option ℕ → Option ℕ → Option ℕ → List (Name × Bool)
listed b l m s w =
    (timer_factor, b)
    ∷ (timer_min, is_some l)
    ∷ (timer_max, is_some m)
    ∷ (settle, is_some s)
    ∷ (drop_window, is_some w)
    ∷ []

module _ (fl : Floats) {Cache Key : Type 0} where
  open fl use {Float, is_finite, is_at_least_zero, try_from_secs}

  abbrev pub validity : Args Float Cache Key → List (Name × Bool)
  validity a =
      (timer_factor, is_finite a.factor && is_at_least_zero a.factor)
      ∷ (timer_min, is_some (try_from_secs a.least))
      ∷ (timer_max, is_some (try_from_secs a.most))
      ∷ (settle, is_some (try_from_secs a.settle))
      ∷ (drop_window, is_some (try_from_secs a.drop_window))
      ∷ []

  abbrev Matches : Args Float Cache Key → Policy Float Cache Key → Type 0
  Matches a p =
      (p.cache ≡ a.cache)
      × (p.key ≡ a.key)
      × (p.factor ≡ a.factor)
      × (try_from_secs a.least ≡ some p.least)
      × (try_from_secs a.most ≡ some p.most)
      × (try_from_secs a.settle ≡ some p.settle)
      × (try_from_secs a.drop_window ≡ some p.drop_window)
      × (p.no_join ≡ a.no_join)

  abbrev pub Checks :
      Args Float Cache Key → Option Name → PyResult (Policy Float Cache Key) → Type 0
  Checks a (some n) (err e) = e ≡ not_valid n
  Checks a none (ok p) = Matches a p
  Checks a n r = ⊥

  abbrev made : Args Float Cache Key → ℕ → ℕ → ℕ → ℕ → Policy Float Cache Key
  made a l m s w = record {
    cache = a.cache;
    key = a.key;
    factor = a.factor;
    least = l;
    most = m;
    settle = s;
    drop_window = w;
    no_join = a.no_join;
  }

  policy_at :
      (a : Args Float Cache Key) (b : Bool) (l m s w : Option ℕ)
      → try_from_secs a.least ≡ l
      → try_from_secs a.most ≡ m
      → try_from_secs a.settle ≡ s
      → try_from_secs a.drop_window ≡ w
      → Checks a (first_bad (listed b l m s w)) (
          raise_if (not b) (not_valid timer_factor)
          >> (ok_or l (not_valid timer_min) >>= λ l. ok_or m (not_valid timer_max) >>= λ m.
              ok_or s (not_valid settle) >>= λ s.
              ok_or w (not_valid drop_window) >>= λ w. ok (made a l m s w)))
  policy_at a false l m s w el em es ew = refl
  policy_at a true none m s w el em es ew = refl
  policy_at a true (some l) none s w el em es ew = refl
  policy_at a true (some l) (some m) none w el em es ew = refl
  policy_at a true (some l) (some m) (some s) none el em es ew = refl
  policy_at a true (some l) (some m) (some s) (some w) el em es ew =
      (refl, refl, refl, el, em, es, ew, refl)

  -- The policy is made exactly when the timer factor is finite and not negative and every duration
  -- is one; it then holds the arguments as they were given, the durations converted. Else the call
  -- raises the exception of the first argument, in the order of the tests, that is not valid.
  pub policy-Checks : (a : Args Float Cache Key) → Checks a (first_bad (validity a)) (policy fl a)
  unfolding policy
  policy-Checks a =
      policy_at a (is_finite a.factor && is_at_least_zero a.factor) (try_from_secs a.least)
        (try_from_secs a.most) (try_from_secs a.settle) (try_from_secs a.drop_window) refl refl refl
        refl
