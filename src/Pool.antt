-- ===== src/Pool.antt =====
-- src/pool.rs: `PoolPolicy.decide` and `PoolPolicyDecision`, and the `PipePool` that a session keeps up.
pub mod Decide
pub mod NewDecision
pub mod Build
pub mod Callbacks
mod Tests
use zmux_python.Prelude.{
  ℕ, ◌≡◌, Bool, true, false, not, ◌||◌, Option, none, some, is_some, List, [], ◌∷◌, PyErr,
  value_error, raised, PyResult, ok, err, ok_or, raise_if, traverse, ◌>>=◌, ◌>>◌, if◌then◌else◌,
}

-- `f64` as the source uses it: `is_finite`, `< 0.0`, `== 0.0`, `Duration::try_from_secs_f64` on
-- nanoseconds, and `clamp` with the cast to u64.
pub record Floats : Type 1 where
  pub Float : Type 0
  pub zero_float : Float
  pub is_finite : Float → Bool
  pub is_negative : Float → Bool
  pub is_zero : Float → Bool
  pub try_from_secs : Float → Option ℕ
  pub as_u64 : Float → ℕ
  pub as_secs : ℕ → Float  -- `as_secs_f64` of nanoseconds

-- What `Duration::from_secs_f64` does with a number of seconds that no duration holds.
abbrev pub panic : PyErr
panic = raised "PanicException"

module _ (fl : Floats) where
  open fl use {Float, zero_float, is_finite, is_negative, is_zero, try_from_secs, as_u64, as_secs}

  abbrev pub bad_number : Float → Bool
  bad_number x = not (is_finite x) || is_negative x

  abbrev pub not_metric : PyErr
  not_metric = value_error "a member metric is a finite non-negative number"

  -- `metric`, on the item of the dict, where there is one
  unfoldable pub metric : Option (PyResult Float) → PyResult Float
  metric none = ok zero_float
  metric (some r) = r >>= λ x. (raise_if (bad_number x) not_metric >> ok x)

  -- `Duration::from_secs_f64`
  abbrev pub from_secs : Float → PyResult ℕ
  from_secs x = ok_or (try_from_secs x) panic

  -- The dict of a member, with what its items are extracted to.
  pub record Member : Type 0 where
    pub id : Option (PyResult ℕ)
    pub age : Option (PyResult Float)
    pub idle : Option (PyResult Float)
    pub pipes : Option (PyResult Float)
    pub bytes_sent : Option (PyResult Float)
    pub bytes_received : Option (PyResult Float)

  abbrev pub no_id : PyErr
  no_id = value_error "member without an id"

  abbrev pub extract_id : Option (PyResult ℕ) → PyResult ℕ
  extract_id none = err no_id
  extract_id (some r) = r

-- `PoolMember`
pub record PoolMember : Type 0 where
  pub id : ℕ
  pub age : ℕ
  pub idle : ℕ
  pub pipes : ℕ
  pub bytes_sent : ℕ
  pub bytes_received : ℕ

module _ (fl : Floats) where
  open fl use {Float, zero_float, is_finite, is_negative, is_zero, try_from_secs, as_u64, as_secs}

  -- One turn of the loop over `members`.
  unfoldable pub member : Member fl → PyResult PoolMember
  unfolding metric
  member m = do
    id ← extract_id fl m.id
    age_secs ← metric fl m.age
    age ← from_secs fl age_secs
    idle_secs ← metric fl m.idle
    idle ← from_secs fl idle_secs
    pipes ← metric fl m.pipes
    sent ← metric fl m.bytes_sent
    received ← metric fl m.bytes_received
    ok (record {
      id = id;
      age = age;
      idle = idle;
      pipes = as_u64 pipes;
      bytes_sent = as_u64 sent;
      bytes_received = as_u64 received;
    })

  unfoldable pub members : List (Member fl) → PyResult (List PoolMember)
  unfolding member
  members [] = ok []
  members (m ∷ ms) = member m >>= λ x. (members ms >>= λ xs. ok (x ∷ xs))

  abbrev pub not_since : PyErr
  not_since = value_error "since_dial is a finite non-negative number"

  unfoldable pub since : Option Float → PyResult (Option ℕ)
  since none = ok none
  since (some s) = raise_if (bad_number fl s) not_since >> (from_secs fl s >>= λ d. ok (some d))

  -- A `PoolPolicyDecision`
  pub record Decision : Type 0 where
    pub count : Option ℕ
    pub dial_after : Option Float
    pub retire : List ℕ
    pub recheck : Option Float
    pub probe_interval : Option Float
    pub probe_jitter : Option Float

  -- `MemberDecision` of the crate, in which `recheck` is a duration.
  pub record MemberDecision : Type 0 where
    pub count : Option ℕ
    pub dial_after : Option Float
    pub retire : List ℕ
    pub recheck : Option ℕ
    pub probe_interval : Option Float
    pub probe_jitter : Option Float

  abbrev pub recheck_secs : Option ℕ → Option Float
  recheck_secs none = none
  recheck_secs (some d) = some (as_secs d)

  -- The answer that Python gets
  unfoldable pub decision_of : MemberDecision → Decision
  decision_of out = record {
    count = out.count;
    dial_after = out.dial_after;
    retire = out.retire;
    recheck = recheck_secs out.recheck;
    probe_interval = out.probe_interval;
    probe_jitter = out.probe_jitter;
  }

  -- The last part of `decide`, with what the conversions give.
  unfoldable pub decide_at :
      {P : Type 0}
      → (ℕ → Option ℕ → List PoolMember → P → MemberDecision × P)
      → ℕ
      → PyResult (List PoolMember)
      → PyResult (Option ℕ)
      → P
      → PyResult Decision × P
  unfolding decision_of
  decide_at run failures (err e) s p = (err e, p)
  decide_at run failures (ok xs) (err e) p = (err e, p)
  decide_at run failures (ok xs) (ok s) p =
      (ok (decision_of (run failures s xs p).0), (run failures s xs p).1)

  -- `PoolPolicy.decide` on the state `P` of the policy, which the pools given it share; `run` is
  -- `decide_members`.
  unfoldable pub decide :
      {P : Type 0}
      → (ℕ → Option ℕ → List PoolMember → P → MemberDecision × P)
      → ℕ
      → List (Member fl)
      → Option Float
      → P
      → PyResult Decision × P
  unfolding members since decide_at
  decide run failures ms since_dial p = decide_at run failures (members ms) (since since_dial) p

  abbrev pub not_secs : PyErr
  not_secs = value_error "a non-negative number of seconds"

  abbrev pub bad_interval : PyErr
  bad_interval = value_error "probe_interval is 0 or at least 1 s"

  abbrev pub bad_jitter : PyErr
  bad_jitter = value_error "probe_jitter is in [0, 1)"

  -- `None` is `Period::Off`.
  unfoldable pub to_period : Float → PyResult (Option ℕ)
  to_period i =
      if is_zero i then ok none else (ok_or (try_from_secs i) bad_interval >>= λ d. ok (some d))

  abbrev pub is_bad : Option Float → Bool
  is_bad none = false
  is_bad (some v) = bad_number fl v

  -- The tests of `set_probe_interval` and `set_probe_jitter`, which the crate makes.
  unfoldable pub check_interval : (Option ℕ → Bool) → Option Float → PyResult (Unit {0})
  unfolding to_period
  check_interval fits none = ok tt
  check_interval fits (some i) = to_period i >>= λ p. raise_if (not (fits p)) bad_interval

  unfoldable pub check_jitter : (Float → Bool) → Option Float → PyResult (Unit {0})
  check_jitter fits none = ok tt
  check_jitter fits (some j) = raise_if (not (fits j)) bad_jitter

  -- `PoolPolicyDecision.new`
  unfoldable pub new_decision : (Option ℕ → Bool) → (Float → Bool) → Decision → PyResult Decision
  unfolding check_interval check_jitter
  new_decision fits_interval fits_jitter d = do
    raise_if (is_bad d.dial_after) not_secs
    raise_if (is_bad d.recheck) not_secs
    check_interval fits_interval d.probe_interval
    check_jitter fits_jitter d.probe_jitter
    ok d
