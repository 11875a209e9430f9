-- ===== src/Pool/Decide.antt =====
-- src/pool.rs, `PoolPolicy.decide`: what the policy is told, and that a call that raises leaves it as
-- it was.
use mathlib.Core.Path.{subst}
use zmux_python.Prelude.{
  ℕ, ◌≡◌, refl, false, Option, none, some, List, [], ◌∷◌, PyErr, PyResult, ok, err, ok_or, bind_ok,
  raise_if, raise_if-ok, arith,
}
use zmux_python.Pool.{
  Floats, panic, bad_number, metric, from_secs, Member, extract_id, not_metric, PoolMember, member,
  members, since, MemberDecision, Decision, recheck_secs, decision_of, decide_at, decide, not_since,
}

ok_or-ok : {A : Type 0} (x : Option A) (e : PyErr) (a : A) → ok_or x e ≡ ok a → x ≡ some a
ok_or-ok none e a h = absurd (cc)
ok_or-ok (some x) e a h = ground arith

module _ (fl : Floats) where
  open fl use {Float, zero_float, try_from_secs, as_u64, as_secs, is_zero}

  -- A metric of the dict: 0 where it is absent, else a finite number that is not negative.
  abbrev pub Given : Option (PyResult Float) → Float → Type 0
  Given none x = x ≡ zero_float
  Given (some r) x = (r ≡ ok x) × (bad_number fl x ≡ false)

  abbrev pub Lasts : Option (PyResult Float) → ℕ → Type 0
  Lasts v d = (x : Float) × Given v x × (try_from_secs x ≡ some d)

  abbrev pub Counts : Option (PyResult Float) → ℕ → Type 0
  Counts v n = (x : Float) × Given v x × (n ≡ as_u64 x)

  -- What the policy is told of a member.
  abbrev pub Tells : Member fl → PoolMember → Type 0
  Tells m x =
      (extract_id fl m.id ≡ ok x.id)
      × Lasts m.age x.age
      × Lasts m.idle x.idle
      × Counts m.pipes x.pipes
      × Counts m.bytes_sent x.bytes_sent
      × Counts m.bytes_received x.bytes_received

  abbrev pub TellsAll : List (Member fl) → List PoolMember → Type 0
  TellsAll [] [] = Unit
  TellsAll (m ∷ ms) (x ∷ xs) = Tells m x × TellsAll ms xs
  TellsAll ms xs = ⊥

  metric-Given : (v : Option (PyResult Float)) (x : Float) → metric fl v ≡ ok x → Given v x
  unfolding metric
  metric-Given none x h = ground arith
  metric-Given (some (err e)) x h = absurd (cc)
  metric-Given (some (ok y)) x h =
      let (u, at, fine) = bind_ok (λ u. ok y) x (raise_if (bad_number fl y) (not_metric fl)) h in
      ground (arith, raise_if-ok (bad_number fl y) (not_metric fl) u fine)

  member-Tells : (m : Member fl) (x : PoolMember) → member fl m ≡ ok x → Tells m x
  unfolding member
  member-Tells m x h =
      let (id, h₁, e₁) = bind_ok _ x (extract_id fl m.id) h in
      let (age_secs, h₂, e₂) = bind_ok _ x (metric fl m.age) h₁ in
      let (age, h₃, e₃) = bind_ok _ x (from_secs fl age_secs) h₂ in
      let (idle_secs, h₄, e₄) = bind_ok _ x (metric fl m.idle) h₃ in
      let (idle, h₅, e₅) = bind_ok _ x (from_secs fl idle_secs) h₄ in
      let (pipes, h₆, e₆) = bind_ok _ x (metric fl m.pipes) h₅ in
      let (sent, h₇, e₇) = bind_ok _ x (metric fl m.bytes_sent) h₆ in
      let (received, h₈, e₈) = bind_ok _ x (metric fl m.bytes_received) h₇ in
      let e = ok-injective _ _ h₈ in
      subst (Tells m) e (
        e₁,
        (age_secs, metric-Given m.age age_secs e₂, ok_or-ok _ panic age e₃),
        (idle_secs, metric-Given m.idle idle_secs e₄, ok_or-ok _ panic idle e₅),
        (pipes, metric-Given m.pipes pipes e₆, refl),
        (sent, metric-Given m.bytes_sent sent e₇, refl),
        (received, metric-Given m.bytes_received received e₈, refl),
      )
    where
      ok-injective : (a b : PoolMember) → ok a ≡ ok b → a ≡ b
      ok-injective a b e = cc

  members-TellsAll :
      (ms : List (Member fl)) (xs : List PoolMember) → members fl ms ≡ ok xs → TellsAll ms xs
  unfolding members
  members-TellsAll [] [] h = tt
  members-TellsAll [] (x ∷ xs) h = absurd (cc)
  members-TellsAll (m ∷ ms) xs h =
      let (y, h₁, e₁) = bind_ok _ xs (member fl m) h in
      let (ys, h₂, e₂) = bind_ok _ xs (members fl ms) h₁ in
      subst (TellsAll (m ∷ ms)) (same (y ∷ ys) xs h₂)
        (member-Tells m y e₁, members-TellsAll ms ys e₂)
    where
      same : (a b : List PoolMember) → ok a ≡ ok b → a ≡ b
      same a b e = cc

  abbrev pub Since : Option Float → Option ℕ → Type 0
  Since none s = s ≡ none
  Since (some x) s = (d : ℕ) × (s ≡ some d) × (bad_number fl x ≡ false) × (try_from_secs x ≡ some d)

  since-Since : (x : Option Float) (s : Option ℕ) → since fl x ≡ ok s → Since x s
  unfolding since
  since-Since none s h = cc
  since-Since (some x) s h =
      let (u, h₁, fine) = bind_ok _ s (raise_if (bad_number fl x) (not_since fl)) h in
      let (d, h₂, lasts) = bind_ok _ s (from_secs fl x) h₁ in
      (
        d,
        same s (some d) h₂,
        raise_if-ok (bad_number fl x) (not_since fl) u fine,
        ok_or-ok _ panic d lasts,
      )
    where
      same : (a b : Option ℕ) → ok b ≡ ok a → a ≡ b
      same a b e = cc

  -- The answer of the policy as Python gets it, with `recheck` in seconds.
  abbrev pub InSecs : Option ℕ → Option Float → Type 0
  InSecs none x = x ≡ none
  InSecs (some d) x = x ≡ some (as_secs d)

  abbrev pub Gives : MemberDecision fl → Decision fl → Type 0
  Gives out d =
      (d.count ≡ out.count)
      × (d.dial_after ≡ out.dial_after)
      × (d.retire ≡ out.retire)
      × InSecs out.recheck d.recheck
      × (d.probe_interval ≡ out.probe_interval)
      × (d.probe_jitter ≡ out.probe_jitter)

  in_secs : (r : Option ℕ) → InSecs r (recheck_secs fl r)
  in_secs none = refl
  in_secs (some d) = refl

  decision_of-Gives : (out : MemberDecision fl) → Gives out (decision_of fl out)
  unfolding decision_of
  decision_of-Gives out = (refl, refl, refl, in_secs out.recheck, refl, refl)

  -- What a call of `decide` gives, and the policy after it.
  abbrev pub Decides :
      {P : Type 0}
      → (ℕ → Option ℕ → List PoolMember → P → MemberDecision fl × P)
      → ℕ
      → List (Member fl)
      → Option Float
      → P
      → PyResult (Decision fl) × P
      → Type 0
  Decides run failures ms since_dial p (ok d, q) =
      (xs : List PoolMember) × (s : Option ℕ) × TellsAll ms xs
      × Since since_dial s
      × Gives (run failures s xs p).0 d
      × ((run failures s xs p).1 ≡ q)
  Decides run failures ms since_dial p (err e, q) = q ≡ p

  -- A decision that is made was made by the policy in one step, on all members in their order, each
  -- with its id, its times and its counts as given (0 where one is absent), and none of them negative
  -- or not finite, and is what the policy answered, `recheck` in seconds; a call that raises leaves
  -- the shared policy as it was.
  pub decide-Decides :
      {P : Type 0} (run : ℕ → Option ℕ → List PoolMember → P → MemberDecision fl × P) (failures : ℕ)
      (ms : List (Member fl)) (since_dial : Option Float) (p : P)
      → Decides run failures ms since_dial p (decide fl run failures ms since_dial p)
  unfolding decide
  decide-Decides {P} run failures ms since_dial p =
      by_members (members fl ms) (since fl since_dial) refl refl
    where
      by_members :
          (r : PyResult (List PoolMember)) (s : PyResult (Option ℕ))
          → members fl ms ≡ r
          → since fl since_dial ≡ s
          → Decides run failures ms since_dial p (decide_at fl run failures r s p)
      by_members (err e) s em es = refl
      by_members (ok xs) (err e) em es = refl
      by_members (ok xs) (ok s) em es = (
        xs,
        s,
        members-TellsAll ms xs em,
        since-Since since_dial s es,
        decision_of-Gives (run failures s xs p).0,
        refl,
      )

  member_panics :
      (m : Member fl) (id : ℕ) (x : Float)
      → m.id ≡ some (ok id)
      → m.age ≡ some (ok x)
      → bad_number fl x ≡ false
      → try_from_secs x ≡ none
      → member fl m ≡ err panic
  unfolding member metric
  member_panics m id x has_id has_age fine large = rw (has_id, has_age, fine, large) refl

  -- A finite, non-negative age that no duration holds does not raise the documented `ValueError`:
  -- the conversion panics, whatever the other members are.
  pub decide_panics :
      {P : Type 0} (run : ℕ → Option ℕ → List PoolMember → P → MemberDecision fl × P) (failures : ℕ)
      (m : Member fl) (ms : List (Member fl)) (since_dial : Option Float) (p : P) (id : ℕ)
      (x : Float)
      → m.id ≡ some (ok id)
      → m.age ≡ some (ok x)
      → bad_number fl x ≡ false
      → try_from_secs x ≡ none
      → decide fl run failures (m ∷ ms) since_dial p ≡ (err panic, p)
  unfolding decide members
  decide_panics run failures m ms since_dial p id x has_id has_age fine large =
      rw (member_panics m id x has_id has_age fine large) refl
