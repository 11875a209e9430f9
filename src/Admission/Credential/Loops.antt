-- ===== src/Admission/Credential/Loops.antt =====
-- src/admission.rs, `Admission.new` and `for_listener`: the loop on which an async decider runs.
use zmux_python.Prelude.{◌≡◌, refl, Option, none, some, List, [], ◌∷◌}
use zmux_python.Admission.Credential.{new_locals, for_listener}

module _ {L : Type 0} where
  -- The loop of an admission that was made and then given to listeners, in order.
  abbrev pub serves : List (Option L) → Option L → Option L
  serves [] locals = locals
  serves (running ∷ rest) locals = serves rest (for_listener running locals)

  -- The first loop in a list.
  abbrev pub first : List (Option L) → Option L
  first [] = none
  first (none ∷ rest) = first rest
  first (some l ∷ rest) = some l

  kept : (rest : List (Option L)) (l : L) → serves rest (some l) ≡ some l
  unfolding for_listener
  kept [] l = refl
  kept (none ∷ rest) l = kept rest l
  kept (some m ∷ rest) l = kept rest l

  from_none : (rest : List (Option L)) → serves rest none ≡ first rest
  unfolding for_listener
  from_none [] = refl
  from_none (none ∷ rest) = from_none rest
  from_none (some l ∷ rest) = kept rest l

  -- An async decider's coroutines run on the first event loop that was running when the admission was
  -- made or a listener took it, and stay there.
  pub serves-first :
      (made : Option L) (rest : List (Option L))
      → serves rest (new_locals made) ≡ first (made ∷ rest)
  unfolding new_locals
  serves-first none rest = from_none rest
  serves-first (some l) rest = kept rest l
