-- ===== src/Layer/Transform.antt =====
-- src/layer.rs, `transform` and `call`: a listener's inbound transform written in Python, which is
-- given the carrier as an object that it may use up.
pub mod Release
use zmux_python.Prelude.{
  ℕ, ◌+◌, Bool, true, false, not, Option, none, some, List, [], ◌∷◌, ◌++◌, length, get_elem?, set,
  PyErr, runtime_error, type_error, PyResult, ok, err,
}

-- The `PipeIo` objects, each with the carrier it still holds, and the carriers that were dropped.
pub record Heap (Io : Type 0) : Type 0 where
  pub cells : List (Option Io)
  pub dropped : List Io

-- What Python gives: a `PipeIo`, or another object.
pub data Obj : Type 0 where
  pipe : ℕ → Obj
  other : Obj

-- What the call of the function came to: it raised, or `hasattr` did; an object that is not awaited;
-- a coroutine, with what `into_future` gives.
pub data Called : Type 0 where
  raises : PyErr → Called
  gives : Obj → Called
  awaits : PyResult (Unit {0}) → Called

abbrev pub used : PyErr
used = runtime_error "pipe already used"

abbrev pub not_pipe : PyErr
not_pipe = type_error "a PipeIo"

module _ {Io : Type 0} where
  abbrev pub cell : ℕ → Heap Io → Option Io
  cell n h = held (get_elem? h.cells n)
    where
      held : Option (Option Io) → Option Io
      held none = none
      held (some c) = c

  -- `PipeIo::take` on the object that was given
  unfoldable pub take_at : ℕ → Option Io → Heap Io → PyResult Io × Heap Io
  take_at n none h = (err used, h)
  take_at n (some io) h = (ok io, record h { cells = set h.cells n none })

  unfoldable pub take_obj : Obj → Heap Io → PyResult Io × Heap Io
  unfolding take_at
  take_obj (pipe n) h = take_at n (cell n h) h
  take_obj other h = (err not_pipe, h)

  -- `Release::drop`: what the object still holds is dropped.
  unfoldable pub release_at : ℕ → Option Io → Heap Io → Heap Io
  release_at n none h = h
  release_at n (some io) h = record { cells = set h.cells n none; dropped = h.dropped ++ io ∷ [] }

  unfoldable pub release : ℕ → Heap Io → Heap Io
  unfolding release_at
  release n h = release_at n (cell n h) h

  -- The object that the call came to, once the coroutine has ended; `resolve` is what it gives.
  unfoldable pub awaited :
      (Heap Io → PyResult Obj × Heap Io) → Called → Heap Io → PyResult Obj × Heap Io
  awaited resolve (raises e) h = (err e, h)
  awaited resolve (gives o) h = (ok o, h)
  awaited resolve (awaits (err e)) h = (err e, h)
  awaited resolve (awaits (ok u)) h = resolve h

  unfoldable pub taken : PyResult Obj × Heap Io → PyResult Io × Heap Io
  unfolding take_obj
  taken (err e, h) = (err e, h)
  taken (ok o, h) = take_obj o h

  abbrev pub pushed : Io → Heap Io → Heap Io
  pushed io h = record h { cells = h.cells ++ some io ∷ [] }

  -- The call up to its end: the new object's number is the number of objects before it.
  unfoldable pub before_release :
      (ℕ → Heap Io → Called × Heap Io)
      → (Heap Io → PyResult Obj × Heap Io)
      → Io
      → Heap Io
      → PyResult Io × Heap Io
  unfolding awaited taken
  before_release python resolve io h =
      let (c, h1) = python (length h.cells) (pushed io h) in taken (awaited resolve c h1)

  -- `call`: the function is given a new object, by its number; both it and its coroutine may do
  -- anything to the objects. Whatever comes of them, `Release` is dropped at the end.
  unfoldable pub call :
      (ℕ → Heap Io → Called × Heap Io)
      → (Heap Io → PyResult Obj × Heap Io)
      → Io
      → Heap Io
      → PyResult Io × Heap Io
  unfolding before_release release
  call python resolve io h =
      let (r, h2) = before_release python resolve io h in (r, release (length h.cells) h2)

-- The error of `transform`, and whether it is reported as unraisable: unless it is a cancellation.
unfoldable pub failed_with : (PyErr → Bool) → PyErr → Bool
failed_with is_cancelled e = not (is_cancelled e)
