-- ===== src/Prelude/Stateful.antt =====
-- A call on a shared object: it reads and changes the object, and may raise; what it changed before
-- it raised stays changed.
use zmux_python.Prelude.Outcome.{PyResult, ok, err}

abbrev pub Call : Type 0 → Type 0 → Type 0
Call S A = S → PyResult A × S

module _ {S : Type 0} where
  abbrev pub pure : {A : Type 0} → A → Call S A
  pure a s = (ok a, s)

  -- `?` on a value that does not depend on the object.
  abbrev pub lift : {A : Type 0} → PyResult A → Call S A
  lift r s = (r, s)

  abbrev pub bind_result : {A B : Type 0} → PyResult A → S → (A → Call S B) → PyResult B × S
  bind_result (ok a) s f = f a s
  bind_result (err e) s f = (err e, s)

  infixl 5 ◌>>=◌ ◌>>◌
  abbrev pub ◌>>=◌ : {A B : Type 0} → Call S A → (A → Call S B) → Call S B
  ◌>>=◌ m f s = bind_result (m s).0 (m s).1 f

  abbrev pub ◌>>◌ : {A B : Type 0} → Call S A → Call S B → Call S B
  m >> k = m >>= λ _. k
