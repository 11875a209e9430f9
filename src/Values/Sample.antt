-- ===== src/Values/Sample.antt =====
-- A Python for concrete inputs, whose floats are whole numbers of seconds.
use zmux_python.Prelude.{
  ℕ, ◌*◌, ◌/◌, refl, Bool, true, false, Option, none, some, type_error, PyResult, ok, err,
}
use zmux_python.Handles.PipeIo.{ℤ, pos, negsuc}
use zmux_python.Values.{Python}

pub data Value : Type 0 where
  none_value : Value
  int : ℤ → Value
  bool : Bool → Value
  float : ℤ → Value
  str : ℕ → Value

abbrev to_int : Value → PyResult ℤ
to_int (int n) = ok n
to_int v = err (type_error "an integer")

abbrev to_bool : Value → PyResult Bool
to_bool (bool b) = ok b
to_bool v = err (type_error "a bool")

abbrev to_float : Value → PyResult ℤ
to_float (float n) = ok n
to_float (int n) = ok n
to_float v = err (type_error "a number")

abbrev to_str : Value → PyResult ℕ
to_str (str n) = ok n
to_str v = err (type_error "a str")

abbrev nothing : Value → Bool
nothing none_value = true
nothing v = false

abbrev duration : ℤ → Option ℕ
duration (pos n) = some (n * 1000000000)
duration (negsuc n) = none

abbrev pub sample : Python
sample = record {
  Obj = Value;
  Float = ℤ;
  Str = ℕ;
  is_none = nothing;
  extract_i128 = to_int;
  extract_bool = to_bool;
  extract_f64 = to_float;
  extract_str = to_str;
  none_obj = none_value;
  of_int = λ n. int (pos n);
  of_bool = bool;
  of_float = float;
  of_str = str;
  from_secs = duration;
  as_secs = λ d. pos (d / 1000000000);
  is_none-none_obj = refl;
  is_none-of_int = λ n. refl;
  is_none-of_bool = λ b. refl;
  is_none-of_float = λ f. refl;
  is_none-of_str = λ s. refl;
  extract_i128-of_int = λ n h. refl;
  extract_bool-of_bool = λ b. refl;
  extract_f64-of_float = λ f. refl;
  extract_str-of_str = λ s. refl;
}
