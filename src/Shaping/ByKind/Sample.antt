-- ===== src/Shaping/ByKind/Sample.antt =====
-- Python and the definitions of a shaper for concrete inputs.
use zmux_python.Prelude.{
  ℕ, Bool, true, false, Option, none, some, List, [], ◌∷◌, PyErr, type_error, raised, PyResult, ok,
  err, ◌==◌, if◌then◌else◌,
}
use zmux_python.Shaping.ByKind.{Machines}

-- The objects: `None`, a name, a member with its name, an item, and a mapping of two items.
pub data Thing : Type 0 where
  nothing : Thing
  name member : ℕ → Thing
  item : Thing → ℕ → Thing
  mapping : Thing → Thing → Thing

abbrev not_str : PyErr
not_str = type_error "a str"

abbrev to_mapping : Thing → Option (PyResult (List Thing))
to_mapping (mapping a b) = some (ok (a ∷ b ∷ []))
to_mapping o = none

abbrev to_item : Thing → PyResult (Thing × ℕ)
to_item (item k v) = ok (k, v)
to_item o = err (type_error "a pair")

abbrev to_str : Thing → PyResult ℕ
to_str (name n) = ok n
to_str o = err not_str

abbrev value_of : Thing → PyResult Thing
value_of (member n) = ok (name n)
value_of o = err (raised "AttributeError")

abbrev is_name : Thing → Bool
is_name (name n) = true
is_name o = false

abbrev is_nothing : Thing → Bool
is_nothing nothing = true
is_nothing o = false

-- Every kind but 9, and the definitions that are not 0.
abbrev pub machines : Machines
machines = record {
  Obj = Thing;
  Str = ℕ;
  Kind = ℕ;
  Options = Unit;
  Factory = ℕ;
  Shaper = ℕ;
  same = λ a b. a == b;
  from_name = λ n. if n == 9 then none else some n;
  from_json = λ o v. if v == 0 then none else some v;
  new_shaper = λ f. f;
  cast_mapping = to_mapping;
  extract_item = to_item;
  extract_str = to_str;
  value_attr = value_of;
  is_str = is_name;
  is_none = is_nothing;
}
