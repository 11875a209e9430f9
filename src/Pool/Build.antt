-- ===== src/Pool/Build.antt =====
-- src/pool.rs, `PipePool`: the pools that can be made, and what `native` makes of them.
use zmux_python.Prelude.{
  ℕ, ◌≡◌, refl, Bool, true, false, not, Option, none, some, is_some, PyErr, type_error, value_error,
  PyResult, ok, err, bind_ok, raise_if, raise_if-ok, traverse, ok_or, ◌>>=◌, ◌>>◌, arith,
}
use mathlib.Core.Path.{subst}
use zmux_python.Pool.{Floats}

abbrev pub one_of : PyErr
one_of = type_error "PipePool takes one of dial and join"

abbrev pub not_jitter : PyErr
not_jitter = value_error "rotate_jitter is between 0 and 1"

abbrev pub not_age : PyErr
not_age = value_error "rotate_max_age is a non-negative number of seconds"

-- `==` of two truth values
abbrev pub same : Bool → Bool → Bool
same true b = b
same false b = not b

-- `F` are Python callables, `M` a mode with its policy, `O` the pipe options, `P` a pool policy.
module _ (fl : Floats) (F M O P : Type 0) where
  open fl use {Float, try_from_secs}

  -- `RotatePolicy`
  pub record Rotate : Type 0 where
    pub jitter : Float
    pub max_bytes : Option ℕ
    pub max_age : Option ℕ

  pub record Pool : Type 0 where
    pub count : ℕ
    pub dial : Option F
    pub join : Option F
    pub mode : Option M
    pub options : O
    pub rotate : Option Rotate
    pub policy : Option P
    pub decision_rejected : Option F

  -- The arguments that the two constructors share, with what the conversions of the options and of
  -- the policy give.
  pub record Args : Type 0 where
    pub count : ℕ
    pub rotate_max_bytes : Option ℕ
    pub rotate_max_age : Option Float
    pub rotate_jitter : Float
    pub pool_policy : Option (PyResult P)
    pub options : PyResult O
    pub decision_rejected : Option F

  abbrev pub rotates : Option ℕ → Option ℕ → Float → Option Rotate
  rotates none none jitter = none
  rotates bytes age jitter = some (record { jitter = jitter; max_bytes = bytes; max_age = age })

  abbrev pub age_of : Float → PyResult ℕ
  age_of a = ok_or (try_from_secs a) not_age

  abbrev pub policy_of : Option (PyResult P) → PyResult (Option P)
  policy_of none = ok none
  policy_of (some r) = r >>= λ p. ok (some p)

  -- `PipePool::build`; `in_unit` is `(0.0..=1.0).contains`.
  unfoldable pub build : (Float → Bool) → Option F → Option F → Option M → Args → PyResult Pool
  build in_unit dial join mode a = do
    raise_if (not (in_unit a.rotate_jitter)) not_jitter
    age ← traverse age_of a.rotate_max_age
    options ← a.options
    policy ← policy_of a.pool_policy
    ok (record {
      count = a.count;
      dial = dial;
      join = join;
      mode = mode;
      options = options;
      rotate = rotates a.rotate_max_bytes age a.rotate_jitter;
      policy = policy;
      decision_rejected = a.decision_rejected;
    })

  -- `PipePool.new` and `PipePool.mode`; `policy` is what `mode::policy` gives and `checked` what the
  -- crate says of the mode under it.
  pub data Make : Type 0 where
    new : (dial join : Option F) → Make
    by_mode : (policy : PyResult M) (checked : PyResult (Unit {0})) → Make

  unfoldable pub make : (Float → Bool) → Make → Args → PyResult Pool
  unfolding build
  make in_unit (new dial join) a =
      raise_if (same (is_some dial) (is_some join)) one_of >> build in_unit dial join none a
  make in_unit (by_mode policy checked) a =
      policy >>= λ m. (checked >> build in_unit none none (some m) a)

  -- Where `native` gets the members: `none` is its `expect("a dial or a join")`.
  pub data Source : Type 0 where
    over_mode : M → Source
    joins dials : F → Source

  abbrev pub source : Option M → Option F → Option F → Option Source
  source (some m) join dial = some (over_mode m)
  source none (some f) dial = some (joins f)
  source none none (some f) = some (dials f)
  source none none none = none

  unfoldable pub native : Pool → Option Source
  native p = source p.mode p.join p.dial

  -- The source that the arguments name.
  abbrev pub Named : Make → Option Source → Type 0
  Named (new (some f) none) s = s ≡ some (dials f)
  Named (new none (some f)) s = s ≡ some (joins f)
  Named (new dial join) s = ⊥
  Named (by_mode policy checked) s =
      (m : M) × (policy ≡ ok m) × (checked ≡ ok tt) × (s ≡ some (over_mode m))

  abbrev pub Rotates : Option ℕ → Option Float → Float → Option Rotate → Type 0
  Rotates none none jitter r = r ≡ none
  Rotates bytes none jitter r =
      r ≡ some (record { jitter = jitter; max_bytes = bytes; max_age = none })
  Rotates bytes (some a) jitter r =
      (d : ℕ) × (try_from_secs a ≡ some d)
      × (r ≡ some (record { jitter = jitter; max_bytes = bytes; max_age = some d }))

  -- What a pool is that was made.
  abbrev pub Built : (Float → Bool) → Args → Pool → Type 0
  Built in_unit a p =
      (in_unit a.rotate_jitter ≡ true)
      × (a.options ≡ ok p.options)
      × (policy_of a.pool_policy ≡ ok p.policy)
      × (p.count ≡ a.count)
      × (p.decision_rejected ≡ a.decision_rejected)
      × Rotates a.rotate_max_bytes a.rotate_max_age a.rotate_jitter p.rotate

  traverse-Rotates :
      (bytes : Option ℕ) (a : Option Float) (jitter : Float) (age : Option ℕ)
      → traverse age_of a ≡ ok age
      → Rotates bytes a jitter (rotates bytes age jitter)
  traverse-Rotates none none jitter age h = ground arith
  traverse-Rotates (some b) none jitter age h = ground arith
  traverse-Rotates bytes (some a) jitter age h = by_secs (try_from_secs a) refl h
    where
      by_secs :
          (d : Option ℕ)
          → try_from_secs a ≡ d
          → (ok_or d not_age >>= λ b. ok (some b)) ≡ ok age
          → (d : ℕ) × (try_from_secs a ≡ some d)
            × (rotates bytes age jitter
                ≡ some (record { jitter = jitter; max_bytes = bytes; max_age = some d }))
      by_secs none e h = absurd (cc)
      by_secs (some d) e h = (d, e, rotates_some d h)
        where
          rotates_some :
              (d : ℕ)
              → ok (some d) ≡ ok age
              → rotates bytes age jitter
                ≡ some (record { jitter = jitter; max_bytes = bytes; max_age = some d })
          rotates_some d h = ground arith

  build-Built :
      (in_unit : Float → Bool) (dial join : Option F) (mode : Option M) (a : Args) (p : Pool)
      → build in_unit dial join mode a ≡ ok p
      → Built in_unit a p × (native p ≡ source mode join dial)
  unfolding build native
  build-Built in_unit dial join mode a p h =
      let (u, h₁, fine) = bind_ok _ p (raise_if (not (in_unit a.rotate_jitter)) not_jitter) h in
      let (age, h₂, aged) = bind_ok _ p (traverse age_of a.rotate_max_age) h₁ in
      let (options, h₃, opts) = bind_ok _ p a.options h₂ in
      let (policy, h₄, pol) = bind_ok _ p (policy_of a.pool_policy) h₃ in
      subst (λ q. Built in_unit a q × (native q ≡ source mode join dial)) (ok-injective _ p h₄)
        (
          (
            ground (arith, raise_if-ok _ _ u fine),
            opts,
            pol,
            refl,
            refl,
            traverse-Rotates a.rotate_max_bytes a.rotate_max_age a.rotate_jitter age aged,
          ),
          refl,
        )
    where
      ok-injective : (x y : Pool) → ok x ≡ ok y → x ≡ y
      ok-injective x y e = cc

  -- Every pool that can be made has one source for its members, which is the one that was named, so
  -- `native` never meets a pool without one; a pool is made of exactly one of `dial` and `join`, or
  -- of a mode that the crate takes. It rotates when a limit is given, and has the options, the policy
  -- and the count of the arguments.
  pub make-Built :
      (in_unit : Float → Bool) (m : Make) (a : Args) (p : Pool)
      → make in_unit m a ≡ ok p
      → Built in_unit a p × Named m (native p)
  unfolding make
  make-Built in_unit (new (some f) none) a p h = build-Built in_unit (some f) none none a p h
  make-Built in_unit (new none (some f)) a p h = build-Built in_unit none (some f) none a p h
  make-Built in_unit (new (some f) (some g)) a p h = absurd (cc)
  make-Built in_unit (new none none) a p h = absurd (cc)
  make-Built in_unit (by_mode (err e) checked) a p h = absurd (cc)
  make-Built in_unit (by_mode (ok m) (err e)) a p h = absurd (cc)
  make-Built in_unit (by_mode (ok m) (ok u)) a p h =
      let (built, at) = build-Built in_unit none none (some m) a p h in (built, (m, refl, refl, at))
