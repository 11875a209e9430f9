-- ===== src/Sessions/Shapers.antt =====
-- src/lib.rs, `Session.set_shaper`: which definitions shape the session's pipes after a call.
use zmux_python.Prelude.{
  ◌≡◌, refl, Option, none, some, PyErr, value_error, PyResult, ok, err, ok_or, ◌>>=◌,
}
use zmux_python.Prelude.Stateful.{Call}
use zmux_python.Shaping.ByKind.{Machines, Table, by_kind, bad_definition}

-- The shaper of a session: one definition for every pipe, or one by kind.
pub data Shaping (m : Machines) : Type 0 where
  every : m.Factory → Shaping m
  kinds : Table m.Kind m.Factory → Shaping m

abbrev pub too_many : PyErr
too_many = value_error "at most one of json, sequence and by_kind"

-- `from_sequence` is the parser of the sequence form; the options were made before.
module _ (m : Machines) (from_sequence : m.Options → m.Str → Option m.Factory) where
  open m use {Obj, Str, Options, Factory, from_json}

  abbrev one : Option Factory → PyResult (Option (Shaping m))
  one f = ok_or f bad_definition >>= λ f. ok (some (every f))

  -- The match of `set_shaper`: what the session's shaper becomes.
  unfoldable pub choose :
      Options → Option Str → Option Str → Option Obj → PyResult (Option (Shaping m))
  unfolding by_kind
  choose o (some j) none none = one (from_json o j)
  choose o none (some q) none = one (from_sequence o q)
  choose o none none (some k) = by_kind m k o >>= λ t. ok (some (kinds t))
  choose o none none none = ok none
  choose o j q k = err too_many

  unfoldable pub set_at : PyResult (Option (Shaping m)) → Call (Option (Shaping m)) (Unit {0})
  set_at (ok f) s = (ok tt, f)
  set_at (err e) s = (err e, s)

  -- `set_shaper`
  unfoldable pub set_shaper :
      PyResult Options → Option Str → Option Str → Option Obj → Call (Option (Shaping m)) (Unit {0})
  unfolding choose set_at
  set_shaper options j q k s = set_at (options >>= λ o. choose o j q k) s

  -- What the arguments ask for: the definition of the one that is given.
  abbrev IsAsked : Options → Option Str → Option Str → Option Obj → Option (Shaping m) → Type 0
  IsAsked o (some j) none none (some (every f)) = from_json o j ≡ some f
  IsAsked o none (some q) none (some (every f)) = from_sequence o q ≡ some f
  IsAsked o none none (some k) (some (kinds t)) = by_kind m k o ≡ ok t
  IsAsked o none none none none = Unit
  IsAsked o j q k f = ⊥

  abbrev pub Shapes :
      PyResult Options
      → Option Str
      → Option Str
      → Option Obj
      → Option (Shaping m)
      → PyResult (Unit {0}) × Option (Shaping m)
      → Type 0
  Shapes (err e) j q k s (r, t) = (r ≡ err e) × (t ≡ s)
  Shapes (ok o) j q k s (err e, t) = t ≡ s
  Shapes (ok o) j q k s (ok u, t) = IsAsked o j q k t

  one_at :
      (o : Options) (j q : Option Str) (s : Option (Shaping m)) (f : Option Factory)
      → ((g : Factory) → f ≡ some g → IsAsked o j q none (some (every g)))
      → Shapes (ok o) j q none s (set_at (one f) s)
  unfolding set_at
  one_at o j q s none h = refl
  one_at o j q s (some f) h = h f refl

  kinds_at :
      (o : Options) (k : Obj) (s : Option (Shaping m)) (r : PyResult (Table m.Kind Factory))
      → by_kind m k o ≡ r
      → Shapes (ok o) none none (some k) s (set_at (r >>= λ t. ok (some (kinds t))) s)
  unfolding set_at
  kinds_at o k s (ok t) e = e
  kinds_at o k s (err x) e = refl

  choice_at :
      (o : Options) (j q : Option Str) (k : Option Obj) (s : Option (Shaping m))
      → Shapes (ok o) j q k s (set_at (choose o j q k) s)
  unfolding set_at choose
  choice_at o (some j) none none s = one_at o (some j) none s (from_json o j) λ g e. e
  choice_at o none (some q) none s = one_at o none (some q) s (from_sequence o q) λ g e. e
  choice_at o none none (some k) s = kinds_at o k s (by_kind m k o) refl
  choice_at o none none none s = tt
  choice_at o (some j) (some q) k s = refl
  choice_at o (some j) none (some k) s = refl
  choice_at o none (some q) (some k) s = refl

  -- After a call that succeeds at most one of the three arguments was given, and the session is
  -- shaped by what that one parses to, or not at all where none is given. A call that raises leaves
  -- the shaper as it was.
  pub set_shaper-Shapes :
      (options : PyResult Options) (j q : Option Str) (k : Option Obj) (s : Option (Shaping m))
      → Shapes options j q k s (set_shaper options j q k s)
  unfolding set_shaper
  set_shaper-Shapes (err e) j q k s = (refl, refl)
  set_shaper-Shapes (ok o) j q k s = choice_at o j q k s
