-- ===== src/Values.antt =====
-- Python's values as PyO3 converts them, which the conversions of src/lib.rs stand on, and those
-- conversions: `seconds`, `natural`, `opt_attr`.
pub mod Sample
use zmux_python.Prelude.{
  ℕ, ◌^◌, ◌<◌, ◌≡◌, refl, Bool, true, false, Option, none, some, ltb, if◌then◌else◌, PyErr,
  value_error, PyResult, ok, err, ok_or, arith, ◌>>=◌, Bool-cases, inl, inr,
}
use zmux_python.Handles.PipeIo.{ℤ, pos, negsuc}

-- The objects, the floats and the texts, with what PyO3 extracts of an object and makes of a value,
-- and `Duration::try_from_secs_f64` and `as_secs_f64` on nanoseconds. The laws are those of PyO3's
-- conversions: what it makes of a value is not `None`, and gives the value back.
pub record Python : Type 1 where
  pub Obj : Type 0
  pub Float : Type 0
  pub Str : Type 0
  pub is_none : Obj → Bool
  pub extract_i128 : Obj → PyResult ℤ
  pub extract_bool : Obj → PyResult Bool
  pub extract_f64 : Obj → PyResult Float
  pub extract_str : Obj → PyResult Str
  pub none_obj : Obj
  pub of_int : ℕ → Obj
  pub of_bool : Bool → Obj
  pub of_float : Float → Obj
  pub of_str : Str → Obj
  pub from_secs : Float → Option ℕ
  pub as_secs : ℕ → Float
  pub is_none-none_obj : is_none none_obj ≡ true
  pub is_none-of_int : (n : ℕ) → is_none (of_int n) ≡ false
  pub is_none-of_bool : (b : Bool) → is_none (of_bool b) ≡ false
  pub is_none-of_float : (f : Float) → is_none (of_float f) ≡ false
  pub is_none-of_str : (s : Str) → is_none (of_str s) ≡ false
  pub extract_i128-of_int : (n : ℕ) → n < 2 ^ 64 → extract_i128 (of_int n) ≡ ok (pos n)
  pub extract_bool-of_bool : (b : Bool) → extract_bool (of_bool b) ≡ ok b
  pub extract_f64-of_float : (f : Float) → extract_f64 (of_float f) ≡ ok f
  pub extract_str-of_str : (s : Str) → extract_str (of_str s) ≡ ok s

abbrev pub not_natural : PyErr
not_natural = value_error "a non-negative integer"

abbrev pub not_seconds : PyErr
not_seconds = value_error "a non-negative number of seconds"

-- `u64::try_from` of the i128 that `natural` extracts
unfoldable pub to_u64 : ℤ → PyResult ℕ
to_u64 (pos n) = if ltb n (2 ^ 64) then ok n else err not_natural
to_u64 (negsuc n) = err not_natural

to_u64-pos : (n : ℕ) → n < 2 ^ 64 → to_u64 (pos n) ≡ ok n
unfolding to_u64
to_u64-pos n h = ground arith

module _ (py : Python) where
  open py use {
    Obj, Float, is_none, extract_i128, extract_bool, extract_f64, none_obj, of_int, of_bool,
    of_float, from_secs, as_secs, is_none-none_obj, is_none-of_int, is_none-of_bool,
    is_none-of_float, extract_i128-of_int, extract_bool-of_bool, extract_f64-of_float, Str, of_str,
    extract_str, is_none-of_str, extract_str-of_str,
  }

  -- `seconds`
  abbrev pub seconds : Float → PyResult ℕ
  seconds f = ok_or (from_secs f) not_seconds

  -- `natural`
  abbrev pub natural : Obj → PyResult ℕ
  natural o = extract_i128 o >>= to_u64

  abbrev pub extract_secs : Obj → PyResult ℕ
  extract_secs o = extract_f64 o >>= seconds

  -- `opt_attr`, then a conversion; also `extract` to an `Option`.
  abbrev pub opt : {A : Type 0} → (Obj → PyResult A) → Obj → PyResult (Option A)
  opt convert o = if is_none o then ok none else (convert o >>= λ a. ok (some a))

  -- What PyO3 makes of an `Option`.
  abbrev pub of_option : {A : Type 0} → (A → Obj) → Option A → Obj
  of_option f none = none_obj
  of_option f (some a) = f a

  abbrev pub IsU64 : Option ℕ → Type 0
  IsU64 none = Unit
  IsU64 (some n) = n < 2 ^ 64

  -- A duration that `f64` holds to the nanosecond.
  abbrev pub IsExact : Option ℕ → Type 0
  IsExact none = Unit
  IsExact (some d) = from_secs (as_secs d) ≡ some d

  pub opt-int : (x : Option ℕ) → IsU64 x → opt natural (of_option of_int x) ≡ ok x
  opt-int none h = rw is_none-none_obj refl
  opt-int (some n) h = rw (is_none-of_int n, extract_i128-of_int n h, to_u64-pos n h) refl

  pub opt-bool : (x : Option Bool) → opt extract_bool (of_option of_bool x) ≡ ok x
  opt-bool none = rw is_none-none_obj refl
  opt-bool (some b) = rw (is_none-of_bool b, extract_bool-of_bool b) refl

  pub opt-float : (x : Option Float) → opt extract_f64 (of_option of_float x) ≡ ok x
  opt-float none = rw is_none-none_obj refl
  opt-float (some b) = rw (is_none-of_float b, extract_f64-of_float b) refl

  pub opt-str : (x : Option Str) → opt extract_str (of_option of_str x) ≡ ok x
  opt-str none = rw is_none-none_obj refl
  opt-str (some b) = rw (is_none-of_str b, extract_str-of_str b) refl

  pub opt-secs :
      (x : Option ℕ) → IsExact x → opt extract_secs (of_option (λ d. of_float (as_secs d)) x) ≡ ok x
  opt-secs none h = rw is_none-none_obj refl
  opt-secs (some d) h = rw (is_none-of_float (as_secs d), extract_f64-of_float (as_secs d), h) refl
