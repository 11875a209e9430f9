-- ===== src/Shaping/ByKind/Lookup.antt =====
-- src/shaping.rs, `by_kind`: the definition that a pipe gets.
use zmux_python.Prelude.{
  ◌≡◌, refl, ◌∙◌, ap, Bool, true, false, Option, none, some, List, [], ◌∷◌, PyResult, ok, err,
  arith, ok_or, ◌>>=◌, if◌then◌else◌,
}
use zmux_python.Shaping.ByKind.{
  Machines, Table, or_else, and_then, bad_definition, not_mapping, shaper, carrier_kind, add_item,
  add_items, by_kind, empty_table,
}

module _ (m : Machines) where
  open m use {
    Obj, Kind, Options, Factory, Shaper, same, from_json, new_shaper, cast_mapping, extract_item,
    is_none,
  }

  -- An item that was read: the kind, `none` for the default, and its definition.
  abbrev Entry : Type 0
  Entry = Option Kind × Factory

  abbrev key_of : Obj → PyResult (Option Kind)
  key_of k = if is_none k then ok none else (carrier_kind m k >>= λ kind. ok (some kind))

  abbrev entry_of : Options → Obj → PyResult Entry
  entry_of o item = do
    (k, v) ← extract_item item
    f ← ok_or (from_json o v) bad_definition
    key ← key_of k
    ok (key, f)

  -- The items of the mapping, read in order up to the first that raises.
  abbrev entries : Options → List Obj → PyResult (List Entry)
  entries o [] = ok []
  entries o (i ∷ rest) = do e ← entry_of o i; es ← entries o rest; ok (e ∷ es)

  -- The definition of the last entry for the kind, and of the last default.
  abbrev own : Kind → List Entry → Option Factory
  own k [] = none
  own k ((some j, f) ∷ es) = or_else (own k es) (if same j k then some f else none)
  own k ((none, f) ∷ es) = own k es

  abbrev default_of : List Entry → Option Factory
  default_of [] = none
  default_of ((some j, f) ∷ es) = default_of es
  default_of ((none, f) ∷ es) = or_else (default_of es) (some f)

  abbrev pick : List Entry → Option Kind → Option Factory
  pick es (some k) = or_else (own k es) (default_of es)
  pick es none = default_of es

  abbrev add : Entry → Table Kind Factory → Table Kind Factory
  add (none, f) t = record { kinds = t.kinds; default = some f }
  add (some k, f) t = record {
    kinds = λ j. if same k j then some f else t.kinds j;
    default = t.default;
  }

  abbrev add_all : List Entry → Table Kind Factory → Table Kind Factory
  add_all [] t = t
  add_all (e ∷ es) t = add_all es (add e t)

  add_item-entry_of :
      (o : Options) (i : Obj) (t : Table Kind Factory)
      → add_item m o i t ≡ (entry_of o i >>= λ e. ok (add e t))
  unfolding add_item
  add_item-entry_of o i t = ground arith

  tail_at :
      (e : Entry) (t : Table Kind Factory) (r : PyResult (List Entry))
      → (r >>= λ es. ok (add_all es (add e t)))
        ≡ ((r >>= λ es. ok (e ∷ es)) >>= λ es. ok (add_all es t))
  tail_at e t (ok es) = refl
  tail_at e t (err x) = refl

  entry_at :
      (o : Options) (rest : List Obj) (t : Table Kind Factory) (e : PyResult Entry)
      → ((u : Table Kind Factory)
          → add_items m o rest u ≡ (entries o rest >>= λ es. ok (add_all es u)))
      → ((e >>= λ x. ok (add x t)) >>= λ u. add_items m o rest u)
        ≡ ((e >>= λ x. entries o rest >>= λ es. ok (x ∷ es)) >>= λ es. ok (add_all es t))
  entry_at o rest t (err x) ih = refl
  entry_at o rest t (ok x) ih = ih (add x t) ∙ tail_at x t (entries o rest)

  add_items-entries :
      (o : Options) (items : List Obj) (t : Table Kind Factory)
      → add_items m o items t ≡ (entries o items >>= λ es. ok (add_all es t))
  unfolding add_items
  add_items-entries o [] t = refl
  add_items-entries o (i ∷ rest) t =
      ap (λ r. r >>= λ u. add_items m o rest u) (add_item-entry_of o i t)
      ∙ entry_at o rest t (entry_of o i) (add_items-entries o rest)

  kinds-add_all :
      (es : List Entry) (t : Table Kind Factory) (k : Kind)
      → (add_all es t).kinds k ≡ or_else (own k es) (t.kinds k)
  kinds-add_all [] t k = refl
  kinds-add_all ((none, f) ∷ es) t k = kinds-add_all es (add (none, f) t) k
  kinds-add_all ((some j, f) ∷ es) t k =
      kinds-add_all es (add (some j, f) t) k ∙ either_one (own k es) (same j k) f (t.kinds k)
    where
      either_one :
          (a : Option Factory) (b : Bool) (f : Factory) (c : Option Factory)
          → or_else a (if b then some f else c) ≡ or_else (or_else a (if b then some f else none)) c
      either_one (some x) b f c = refl
      either_one none true f c = refl
      either_one none false f c = refl

  default-add_all :
      (es : List Entry) (t : Table Kind Factory)
      → (add_all es t).default ≡ or_else (default_of es) t.default
  default-add_all [] t = refl
  default-add_all ((some j, f) ∷ es) t = default-add_all es (add (some j, f) t)
  default-add_all ((none, f) ∷ es) t = default-add_all es (add (none, f) t) ∙ last (default_of es)
    where
      last : (a : Option Factory) → or_else a (some f) ≡ or_else (or_else a (some f)) t.default
      last (some x) = refl
      last none = refl

  abbrev found : List Entry → Option Kind → Option Shaper
  found es carrier = and_then (pick es carrier) λ f. some (new_shaper f)

  or_none : (a : Option Factory) → or_else a none ≡ a
  or_none none = refl
  or_none (some x) = refl

  shaper-add_all :
      (es : List Entry) (carrier : Option Kind)
      → shaper m (add_all es (empty_table m)) carrier ≡ found es carrier
  unfolding shaper
  shaper-add_all es none = rw (default-add_all es (empty_table m), or_none (default_of es)) refl
  shaper-add_all es (some k) =
      rw
        (
          default-add_all es (empty_table m),
          kinds-add_all es (empty_table m) k,
          or_none (own k es),
          or_none (default_of es),
        )
        refl

  -- What `by_kind` gives, for a pipe with a carrier, against the entries that were read.
  abbrev pub Finds : Option Kind → PyResult (List Entry) → PyResult (Table Kind Factory) → Type 0
  Finds carrier (ok es) (ok t) = shaper m t carrier ≡ found es carrier
  Finds carrier (err e) (err d) = e ≡ d
  Finds carrier r t = ⊥

  -- The items of the object, or the exception of an object that is no mapping.
  abbrev pub read_all : Obj → Options → PyResult (List Entry)
  read_all obj o = do called ← ok_or (cast_mapping obj) not_mapping; items ← called; entries o items

  found_after :
      (carrier : Option Kind) (r : PyResult (List Entry))
      → Finds carrier r (r >>= λ es. ok (add_all es (empty_table m)))
  found_after carrier (ok es) = shaper-add_all es carrier
  found_after carrier (err e) = refl

  found_items :
      (o : Options) (carrier : Option Kind) (items : PyResult (List Obj))
      → Finds carrier (items >>= entries o) (items >>= λ i. add_items m o i (empty_table m))
  found_items o carrier (err e) = refl
  found_items o carrier (ok i) =
      rw (add_items-entries o i (empty_table m)) (found_after carrier (entries o i))

  -- Where the object is a mapping and all of its items are read, in order, the factory gives a pipe
  -- the definition of the last item for the pipe's carrier kind, else that of the last item for
  -- `None`, else none; otherwise the call raises what the first item that fails raises.
  pub by_kind-Finds :
      (obj : Obj) (o : Options) (carrier : Option Kind)
      → Finds carrier (read_all obj o) (by_kind m obj o)
  unfolding by_kind
  by_kind-Finds obj o carrier = at_mapping (cast_mapping obj)
    where
      at_mapping :
          (c : Option (PyResult (List Obj)))
          → Finds carrier
              ((ok_or c not_mapping) >>= λ called. called >>= entries o)
              ((ok_or c not_mapping) >>= λ called. called >>= λ i. add_items m o i (empty_table m))
      at_mapping none = refl
      at_mapping (some items) = found_items o carrier items
