-- ===== src/Modes/Policy.antt =====
-- src/mode.rs, `policy`, `dur` and `dial_mode`: the policy of an auto mode from its arguments.
pub mod Checks
use zmux_python.Prelude.{
  ℕ, Bool, true, false, not, ◌&&◌, Option, none, some, List, PyErr, value_error, PyResult, ok, err,
  ok_or, raise_if, ◌>>=◌, ◌>>◌,
}

-- `f64`: whether a number is finite, and at least 0; `Duration::try_from_secs_f64` on nanoseconds.
pub record Floats : Type 1 where
  pub Float : Type 0
  pub is_finite : Float → Bool
  pub is_at_least_zero : Float → Bool
  pub try_from_secs : Float → Option ℕ

-- The arguments that are tested.
pub data Name : Type 0 where
  timer_factor timer_min timer_max settle drop_window : Name

-- `ModePolicy`, with `with_cache` and the key
pub record Policy (Float Cache Key : Type 0) : Type 0 where
  pub cache : Option Cache
  pub key : Key
  pub factor : Float
  pub least : ℕ
  pub most : ℕ
  pub settle : ℕ
  pub drop_window : ℕ
  pub no_join : Bool

-- The exceptions name the argument.
abbrev pub not_valid : Name → PyErr
not_valid timer_factor = value_error "timer_factor is a non-negative finite number"
not_valid timer_min = value_error "timer_min is a non-negative number of seconds"
not_valid timer_max = value_error "timer_max is a non-negative number of seconds"
not_valid settle = value_error "settle is a non-negative number of seconds"
not_valid drop_window = value_error "drop_window is a non-negative number of seconds"

pub record Args (Float Cache Key : Type 0) : Type 0 where
  pub cache : Option Cache
  pub key : Key
  pub factor : Float
  pub least : Float
  pub most : Float
  pub settle : Float
  pub drop_window : Float
  pub no_join : Bool

module _ (fl : Floats) where
  open fl use {Float, is_finite, is_at_least_zero, try_from_secs}

  -- `dur`
  abbrev pub dur : Name → Float → PyResult ℕ
  dur name v = ok_or (try_from_secs v) (not_valid name)

  unfoldable pub policy :
      {Cache Key : Type 0} → Args Float Cache Key → PyResult (Policy Float Cache Key)
  policy a = do
    raise_if (not (is_finite a.factor && is_at_least_zero a.factor)) (not_valid timer_factor)
    least ← dur timer_min a.least
    most ← dur timer_max a.most
    s ← dur settle a.settle
    window ← dur drop_window a.drop_window
    ok (record {
      cache = a.cache;
      key = a.key;
      factor = a.factor;
      least = least;
      most = most;
      settle = s;
      drop_window = window;
      no_join = a.no_join;
    })

-- What the crate's `dial_mode` came to: a session, or the text of its error with every try.
pub data Dialed (Session Text Try : Type 0) : Type 0 where
  connected : Session → Dialed Session Text Try
  no_carrier : Text → List Try → Dialed Session Text Try

-- What the future of `dial_mode` gives: a session or a `ModeError`, whose tries were made objects.
pub data ModeResult (Session Text Obj : Type 0) : Type 0 where
  session : Session → ModeResult Session Text Obj
  mode_error : Text → List Obj → ModeResult Session Text Obj

module _ {Try Obj : Type 0} (result_obj : Try → PyResult Obj) where
  unfoldable pub objects : List Try → PyResult (List Obj)
  objects List.[] = ok List.[]
  objects (List.◌∷◌ t ts) = do o ← result_obj t; os ← objects ts; ok (List.◌∷◌ o os)

  unfoldable pub answer :
      {Session Text : Type 0} → Dialed Session Text Try → PyResult (ModeResult Session Text Obj)
  unfolding objects
  answer (connected s) = ok (session s)
  answer (no_carrier text tries) = objects tries >>= λ os. ok (mode_error text os)

  -- `dial_mode`: the configuration, then the policy, then the dial with both.
  unfoldable pub dial_mode :
      {Session Text Config Policy : Type 0}
      → PyResult Config
      → PyResult Policy
      → (Config → Policy → Dialed Session Text Try)
      → PyResult (ModeResult Session Text Obj)
  unfolding answer
  dial_mode config policy dial = do c ← config; p ← policy; answer (dial c p)
