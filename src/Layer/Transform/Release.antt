-- ===== src/Layer/Transform/Release.antt =====
-- src/layer.rs, `call`: the carrier of a transform is closed or used up, whatever Python does.
use zmux_python.Prelude.{
  ℕ, zero, suc, ◌≡◌, refl, ◌⊎◌, inl, inr, Option, none, some, List, [], ◌∷◌, ◌++◌, length, set,
  PyResult,
}
use zmux_python.Layer.Transform.{Heap, Obj, Called, cell, release_at, release, before_release, call}

module _ {Io : Type 0} where
  emptied :
      (n : ℕ) (cells : List (Option Io)) (d : List Io)
      → cell n (record { cells = set cells n none; dropped = d }) ≡ none
  emptied n [] d = refl
  emptied zero (c ∷ cs) d = refl
  emptied (suc n) (c ∷ cs) d = emptied n cs d

  -- The object no longer holds a carrier: it held none at the end of the call, or the one that it
  -- held is dropped.
  abbrev Closes : ℕ → Heap Io → Heap Io → Type 0
  Closes n before h =
      (cell n h ≡ none)
      × (((cell n before ≡ none) × (h ≡ before))
          ⊎ ((io : Io) × (cell n before ≡ some io) × (h.dropped ≡ before.dropped ++ io ∷ [])))

  abbrev pub Releases : ℕ → PyResult Io × Heap Io → PyResult Io × Heap Io → Type 0
  Releases n before (r, h) = (r ≡ before.0) × Closes n before.1 h

  release-Closes : (n : ℕ) (h : Heap Io) → Closes n h (release n h)
  unfolding release
  release-Closes n h = held (cell n h) refl
    where
      held : (c : Option Io) → cell n h ≡ c → Closes n h (release_at n c h)
      held none e = (e, inl (e, refl))
      held (some io) e = (emptied n h.cells (h.dropped ++ io ∷ []), inr (io, e, refl))

  -- Whatever the function and its coroutine do to the objects, and however the call ends, the object
  -- that the function was given holds no carrier after it: it was used up before, or what it still
  -- held is dropped. The result is the one the call had come to, on which this has no effect.
  pub call-Releases :
      (python : ℕ → Heap Io → Called × Heap Io) (resolve : Heap Io → PyResult Obj × Heap Io)
      (io : Io) (h : Heap Io)
      → Releases (length h.cells) (before_release python resolve io h) (call python resolve io h)
  unfolding call
  call-Releases python resolve io h =
      (refl, release-Closes (length h.cells) (before_release python resolve io h).1)
