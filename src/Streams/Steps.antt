-- ===== src/Streams/Steps.antt =====
-- src/lib.rs, `held`, `held_now` and the calls after them: which guard stops a call, and what it does
-- to the part when none does.
use zmux_python.Prelude.{◌≡◌, refl, Bool, true, false, Option, none, some, PyErr, PyResult, ok, err}
use zmux_python.Prelude.Stateful.{Call, lift, ◌>>◌}
use zmux_python.Handles.Parts.{Part, busy_err, taken}
use zmux_python.Streams.{Crate, map_err, on_held, on_now, on_now_with}

abbrev pub part_of : {S : Type 0} → Bool → Option S → Part S
part_of busy part = record { busy = busy; part = part }

abbrev pub failure : {A : Type 0} → PyResult A → Option PyErr
failure (ok a) = none
failure (err e) = some e

module _ {S A : Type 0} where
  -- A call that does not wait is stopped by an operation in progress, then each by a part that is
  -- not there, then by `late`, an argument that is refused; else it steps the part once by `f`,
  -- which gives its answer.
  abbrev pub Guarded :
      (waits : Bool)
      → (late : Option PyErr) → (S → PyResult A × S)
      → (busy : Bool) → Option S
      → PyResult A × Part S
      → Type 0
  Guarded false late f true part x = x ≡ (err busy_err, part_of true part)
  Guarded waits late f busy none x = x ≡ (err taken, part_of busy none)
  Guarded waits (some e) f busy (some s) x = x ≡ (err e, part_of busy (some s))
  Guarded waits none f busy (some s) x = x ≡ ((f s).0, part_of busy (some (f s).1))

  -- Before that, by `early`, an argument that is refused before the part is looked at.
  abbrev pub Steps :
      (early : Option PyErr)
      → (waits : Bool) → (late : Option PyErr) → (S → PyResult A × S)
      → (busy : Bool) → Option S
      → PyResult A × Part S
      → Type 0
  Steps (some e) waits late f busy part x = x ≡ (err e, part_of busy part)
  Steps none waits late f busy part x = Guarded waits late f busy part x

  -- A conversion before the call.
  pub lift-Steps :
      {B : Type 0} (r : PyResult B) (k : Call (Part S) A) (waits : Bool) (late : Option PyErr)
      (f : S → PyResult A × S) (busy : Bool) (part : Option S)
      → Guarded waits late f busy part (k (part_of busy part))
      → Steps (failure r) waits late f busy part ((lift r >> k) (part_of busy part))
  lift-Steps (ok b) k waits late f busy part h = h
  lift-Steps (err e) k waits late f busy part h = refl

-- The call of the crate, with its errors as exceptions.
abbrev pub call_of : {S E A : Type 0} → (E → PyErr) → Crate S E A → S → PyResult A × S
call_of to m s = (map_err to (m s).0, (m s).1)

module _ {S E A : Type 0} (to : E → PyErr) (m : Crate S E A) where
  pub on_held-Guarded :
      (busy : Bool) (part : Option S)
      → Guarded true none (call_of to m) busy part (on_held to m (part_of busy part))
  unfolding on_held
  on_held-Guarded busy none = refl
  on_held-Guarded busy (some s) = refl

  pub on_now-Guarded :
      (busy : Bool) (part : Option S)
      → Guarded false none (call_of to m) busy part (on_now to m (part_of busy part))
  unfolding on_now
  on_now-Guarded true part = refl
  on_now-Guarded false none = refl
  on_now-Guarded false (some s) = refl

  pub on_now_with-Guarded :
      {B : Type 0} (r : PyResult B) (busy : Bool) (part : Option S)
      → Guarded false
          (failure r)
          (call_of to m)
          busy
          part
          (on_now_with r to (λ _. m) (part_of busy part))
  unfolding on_now_with
  on_now_with-Guarded (ok b) busy part = on_now-Guarded busy part
  on_now_with-Guarded (err e) true part = refl
  on_now_with-Guarded (err e) false none = refl
  on_now_with-Guarded (err e) false (some s) = refl
