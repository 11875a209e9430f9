-- ===== src/Pool/Callbacks.antt =====
-- src/pool.rs, the callbacks that `native` gives to the crate, and `maintain`: members that a Python
-- function dials or joins.
use zmux_python.Prelude.{
  ◌≡◌, refl, ap, Bool, Option, none, some, List, [], ◌∷◌, PyErr, runtime_error, type_error,
  PyResult, ok, err, ◌>>=◌, ◌>>◌, map, Holds,
}
use zmux_python.Prelude.Stateful.{Call}
use zmux_python.Handles.PipeIo.{Cells}
use zmux_python.Helpers.Splice.{rejoin_dial}

-- An object of Python: a `Pipe` or another.
pub data Obj (P : Type 0) : Type 0 where
  a_pipe : P → Obj P
  other : Obj P

abbrev pub not_pipe : PyErr
not_pipe = type_error "a Pipe"

-- `cast::<Pipe>`
abbrev pub cast : {P : Type 0} → Obj P → PyResult P
cast (a_pipe p) = ok p
cast other = err not_pipe

-- `dial_err`: `io` makes an I/O error of an exception.
abbrev pub map_io : {A : Type 0} → (PyErr → PyErr) → PyResult A → PyResult A
map_io io (ok a) = ok a
map_io io (err e) = err (io e)

-- The callback of `dial`: the call with `into_future`, whether the coroutine gave a `PipeIo`, and
-- the carrier taken out of it.
unfoldable pub dial_member :
    {Io Res : Type 0}
    → (PyErr → PyErr)
    → PyResult (Unit {0})
    → PyResult Bool
    → Call (Cells Io Res) Io
unfolding rejoin_dial
dial_member io called gave c =
    (map_io io (rejoin_dial called gave c).0, (rejoin_dial called gave c).1)

module _ {P : Type 0} where
  -- The loop over what the coroutine gave, whose iterator may raise at each turn.
  unfoldable pub pipes_of : List (PyResult (Obj P)) → PyResult (List P)
  pipes_of [] = ok []
  pipes_of (r ∷ rest) = do o ← r; p ← cast o; ps ← pipes_of rest; ok (p ∷ ps)

  -- The callback of `join`: the call with `into_future`, what the coroutine gives, and `try_iter` of
  -- it with the items.
  unfoldable pub join_members :
      (PyErr → PyErr)
      → PyResult (Unit {0})
      → PyResult (PyResult (List (PyResult (Obj P))))
      → PyResult (List P)
  unfolding pipes_of
  join_members io called gave = do
    map_io io called
    iterator ← map_io io gave
    map_io io (iterator >>= pipes_of)

  -- The items that were given when all of them are pipes.
  abbrev AreItems : List (PyResult (Obj P)) → List P → Type 0
  AreItems items ps = items ≡ map (λ p. ok (a_pipe p)) ps

  first_at :
      (r : PyResult (Obj P)) (rest : List (PyResult (Obj P))) (m : PyResult (List P))
      → Holds (AreItems rest) (λ e. Unit) m
      → Holds (AreItems (r ∷ rest)) (λ e. Unit) (r >>= λ o. cast o >>= λ p. m >>= λ ps. ok (p ∷ ps))
  first_at (err e) rest m h = tt
  first_at (ok other) rest m h = tt
  first_at (ok (a_pipe p)) rest (err e) h = tt
  first_at (ok (a_pipe p)) rest (ok ps) h = ap (◌∷◌ (ok (a_pipe p))) h

  -- The pipes of a join are the items that the coroutine gave, all of them pipes, in their order.
  pub pipes_of-AreItems :
      (items : List (PyResult (Obj P))) → Holds (AreItems items) (λ e. Unit) (pipes_of items)
  unfolding pipes_of
  pipes_of-AreItems [] = refl
  pipes_of-AreItems (r ∷ rest) = first_at r rest (pipes_of rest) (pipes_of-AreItems rest)

-- The callback for a decision that is rejected: what `call_soon_threadsafe` raises is reported.
abbrev pub reported : {A : Type 0} → PyResult A → Option PyErr
reported (ok a) = none
reported (err e) = some e

abbrev pub no_loop : PyErr
no_loop = runtime_error "maintain_pipes needs a running event loop"

-- `maintain`: the running loop's locals, and the pool made for them.
unfoldable pub maintain : {L N H : Type 0} → Option L → (L → N) → (N → H) → PyResult H
maintain none native maintain_pipes = err no_loop
maintain (some locals) native maintain_pipes = ok (maintain_pipes (native locals))
