-- ===== src/Shaping/ByKind/Tests.antt =====
-- src/shaping.rs, `by_kind` on a mapping of a member of `CarrierKind` and of `None`.
use zmux_python.Prelude.{ℕ, ◌≡◌, refl, Option, none, some, PyResult, ok, err}
use zmux_python.Shaping.ByKind.{
  Table, shaper, carrier_kind, add_item, add_items, by_kind, unknown_kind, bad_definition,
}
use zmux_python.Shaping.ByKind.Sample.{Thing, nothing, name, member, item, mapping, machines}
use zmux_python.Shaping.ByKind.Lookup.{Finds, read_all, by_kind-Finds}

abbrev two : Thing
two = mapping (item (member 3) 30) (item nothing 40)

unknown : by_kind machines (mapping (item (name 9) 5) (item nothing 0)) tt ≡ err unknown_kind
unfolding by_kind add_items add_item carrier_kind
unknown = refl

-- The definition is looked at before its key.
definition_first : by_kind machines (mapping (item (name 9) 0) nothing) tt ≡ err bad_definition
unfolding by_kind add_items add_item carrier_kind
definition_first = refl

abbrev of_kind : Option ℕ → PyResult (Table ℕ ℕ) → Option ℕ
of_kind carrier (ok t) = shaper machines t carrier
of_kind carrier (err e) = none

own_kind : of_kind (some 3) (by_kind machines two tt) ≡ some 30
unfolding by_kind add_items add_item carrier_kind shaper
own_kind = refl

default_kind : of_kind (some 4) (by_kind machines two tt) ≡ some 40
unfolding by_kind add_items add_item carrier_kind shaper
default_kind = refl

by_kind-Finds_example : Finds machines (some 3) (read_all machines two tt) (by_kind machines two tt)
by_kind-Finds_example = by_kind-Finds machines two tt (some 3)
