-- ===== src/Unsent/Tests.antt =====
-- A count that is made, read, set and read again.
use zmux_python.Prelude.{ℕ, ◌^◌, ◌-◌, ◌≡◌, refl, Option, none, some, List, [], ◌∷◌, raised, err}
use zmux_python.Unsent.{
  encode, extract_u64, set_at, new_count, set_count, value, Access, sets, reads, run,
}
use zmux_python.Unsent.Refine.{run-replay, Replays}

-- The last count does not fit.
abbrev accesses : List Access
accesses =
    reads ∷ sets none ∷ reads ∷ sets (some (2 ^ 64 - 1)) ∷ reads ∷ sets (some (2 ^ 64)) ∷ reads ∷ []

abbrev given : List (Option ℕ)
given = some 7 ∷ none ∷ some 18446744073709551614 ∷ some 18446744073709551614 ∷ []

run-given : run accesses 7 ≡ given
unfolding run set_count set_at extract_u64 value encode
run-given = refl

too_large : new_count (some (2 ^ 64)) ≡ err (raised "OverflowError")
unfolding new_count extract_u64
too_large = refl

run-replay_example : Replays accesses (some 7) (new_count (some 7))
run-replay_example = run-replay accesses (some 7)
