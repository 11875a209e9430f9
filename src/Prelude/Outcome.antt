-- ===== src/Prelude/Outcome.antt =====
-- `PyResult`: a value, or the Python exception that the call raises.
use Prim.Native.String.{String}
use mathlib.Core.Path.{◌≡◌, refl}
use mathlib.Core.Bool.{Bool, true, false}
use mathlib.Core.Option.{Option, none, some}

-- Texts into which the source puts a name or a number are given without it.
-- The exceptions of Python's own types with their text, and those of the module or of the
-- application, of which only the class is told apart.
pub data PyErr : Type 0 where
  value_error type_error runtime_error : String → PyErr
  raised : String → PyErr

pub data PyResult {ℓ} (A : Type ℓ) : Type ℓ where
  ok : A → PyResult A
  err : PyErr → PyResult A

-- `?`
infixl 5 ◌>>=◌ ◌>>◌
abbrev pub ◌>>=◌ {ℓ κ} : {A : Type ℓ} {B : Type κ} → PyResult A → (A → PyResult B) → PyResult B
ok a >>= f = f a
err e >>= f = err e

abbrev pub ◌>>◌ {ℓ κ} : {A : Type ℓ} {B : Type κ} → PyResult A → PyResult B → PyResult B
m >> k = m >>= λ _. k

-- `Option::ok_or`
abbrev pub ok_or {ℓ} : {A : Type ℓ} → Option A → PyErr → PyResult A
ok_or none e = err e
ok_or (some a) e = ok a

-- `Option::transpose` over a fallible map.
abbrev pub traverse {ℓ κ} :
    {A : Type ℓ} {B : Type κ} → (A → PyResult B) → Option A → PyResult (Option B)
traverse f none = ok none
traverse f (some a) = f a >>= λ b. ok (some b)

abbrev pub raise_if : Bool → PyErr → PyResult (Unit {0})
raise_if true e = err e
raise_if false e = ok tt

-- What a chain that succeeds went through.
pub bind_ok {ℓ κ} :
    {A : Type ℓ} {B : Type κ} (f : A → PyResult B) (b : B) (m : PyResult A)
    → (m >>= f) ≡ ok b
    → (a : A) × (f a ≡ ok b) × (m ≡ ok a)
bind_ok f b (err e) h = absurd (cc)
bind_ok f b (ok a) h = (a, h, refl)

pub raise_if-ok : (b : Bool) (e : PyErr) (u : Unit {0}) → raise_if b e ≡ ok u → b ≡ false
raise_if-ok false e u h = refl
raise_if-ok true e u h = absurd (cc)

-- What a result is known to be: `P` of its value, `E` of its exception.
abbrev pub Holds {ℓ κ} : {A : Type ℓ} → (A → Type κ) → (PyErr → Type κ) → PyResult A → Type κ
Holds P E (ok a) = P a
Holds P E (err e) = E e

module _ {ℓ κ} {A B : Type ℓ} (P : A → Type κ) (Q : B → Type κ) (E : PyErr → Type κ) where
  pub bind-Holds :
      (m : PyResult A) (f : A → PyResult B)
      → Holds P E m
      → ((a : A) → P a → Holds Q E (f a))
      → Holds Q E (m >>= f)
  bind-Holds (ok a) f h g = g a h
  bind-Holds (err e) f h g = h

module _ {ℓ κ} {A : Type ℓ} (P : A → Type κ) (E : PyErr → Type κ) where
  pub ok_or-Holds :
      (o : Option A) (e : PyErr) → E e → ((a : A) → o ≡ some a → P a) → Holds P E (ok_or o e)
  ok_or-Holds none e h g = h
  ok_or-Holds (some a) e h g = g a refl

  -- A test that must pass before the rest.
  pub raise_if-Holds :
      (b : Bool) (e : PyErr) (k : PyResult A)
      → E e
      → (b ≡ false → Holds P E k)
      → Holds P E (raise_if b e >> k)
  raise_if-Holds true e k h g = h
  raise_if-Holds false e k h g = g refl
