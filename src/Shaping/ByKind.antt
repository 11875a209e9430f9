-- ===== src/Shaping/ByKind.antt =====
-- src/shaping.rs, `ByKind`, `carrier_kind` and `by_kind`: the factory that picks a shaping definition
-- by the carrier kind of the pipe.
pub mod Lookup
pub mod Sample
mod Tests
use zmux_python.Prelude.{
  String, Bool, true, false, Option, none, some, List, [], ◌∷◌, PyErr, value_error, PyResult, ok,
  err, ok_or, ◌>>=◌, ◌>>◌, if◌then◌else◌, map,
}

-- The crate's carrier kinds and definitions, and what PyO3 makes of the objects: whether one is a
-- mapping with its items, an item as a key and a text, the attribute `value`.
pub record Machines : Type 1 where
  pub Obj : Type 0
  pub Str : Type 0
  pub Kind : Type 0
  pub Options : Type 0
  pub Factory : Type 0
  pub Shaper : Type 0
  pub same : Kind → Kind → Bool
  pub from_name : Str → Option Kind
  pub from_json : Options → Str → Option Factory
  pub new_shaper : Factory → Shaper
  pub cast_mapping : Obj → Option (PyResult (List Obj))
  pub extract_item : Obj → PyResult (Obj × Str)
  pub extract_str : Obj → PyResult Str
  pub value_attr : Obj → PyResult Obj
  pub is_str : Obj → Bool
  pub is_none : Obj → Bool

-- `Option::or`
abbrev pub or_else : {A : Type 0} → Option A → Option A → Option A
or_else (some a) b = some a
or_else none b = b

abbrev pub and_then : {A B : Type 0} → Option A → (A → Option B) → Option B
and_then none f = none
and_then (some a) f = f a

abbrev pub unknown_kind : PyErr
unknown_kind = value_error "unknown carrier kind"

abbrev pub not_mapping : PyErr
not_mapping = value_error "by_kind is a mapping"

abbrev pub bad_definition : PyErr
bad_definition = value_error "a definition that is not valid"

-- `HashMap` of the source as what `get` gives.
pub record Table (Kind Factory : Type 0) : Type 0 where
  pub kinds : Kind → Option Factory
  pub default : Option Factory

module _ (m : Machines) where
  open m use {
    Obj, Str, Kind, Options, Factory, Shaper, same, from_name, from_json, new_shaper, cast_mapping,
    extract_item, extract_str, value_attr, is_str, is_none,
  }

  abbrev insert : Kind → Factory → (Kind → Option Factory) → Kind → Option Factory
  insert k f kinds = λ j. if same k j then some f else kinds j

  -- `ByKind::shaper`, for the carrier of the pipe
  unfoldable pub shaper : Table Kind Factory → Option Kind → Option Shaper
  shaper t carrier =
      and_then (or_else (and_then carrier t.kinds) t.default) λ f. some (new_shaper f)

  -- The name of a member, or the object itself as a name.
  abbrev pub kind_name : PyResult Obj → Bool → Obj → PyResult Str
  kind_name (ok v) false k = extract_str v
  kind_name (ok v) true k = extract_str k
  kind_name (err e) str k = extract_str k

  unfoldable pub carrier_kind : Obj → PyResult Kind
  carrier_kind k = do
    name ← kind_name (value_attr k) (is_str k) k
    ok_or (from_name name) unknown_kind

  -- One turn of the loop: the item is extracted and its definition parsed before the key is read.
  unfoldable pub add_item : Options → Obj → Table Kind Factory → PyResult (Table Kind Factory)
  unfolding carrier_kind
  add_item o item t = do
    (k, v) ← extract_item item
    f ← ok_or (from_json o v) bad_definition
    if is_none k then ok (record { kinds = t.kinds; default = some f }) else do
      kind ← carrier_kind k
      ok (record { kinds = insert kind f t.kinds; default = t.default })

  unfoldable pub add_items : Options → List Obj → Table Kind Factory → PyResult (Table Kind Factory)
  unfolding add_item
  add_items o [] t = ok t
  add_items o (i ∷ rest) t = add_item o i t >>= λ u. add_items o rest u

  abbrev pub empty_table : Table Kind Factory
  empty_table = record { kinds = λ k. none; default = none }

  unfoldable pub by_kind : Obj → Options → PyResult (Table Kind Factory)
  unfolding add_items
  by_kind obj o = do
    called ← ok_or (cast_mapping obj) not_mapping
    items ← called
    add_items o items empty_table
