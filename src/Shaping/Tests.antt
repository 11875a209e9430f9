-- ===== src/Shaping/Tests.antt =====
-- src/shaping.rs at concrete inputs.
use zmux_python.Prelude.{ℕ, ◌≡◌, refl, List, [], ◌∷◌}
use zmux_python.Prelude.Bits.{xorshift}
use zmux_python.Shaping.SplitMix.{
  wrapping_add, wrapping_mul, mix, next_u64, copy_from, from_le_bytes, chunks, fold_chunks, fold,
}

next_u64_zero : next_u64 0 ≡ (16294208416658607535, 11400714819323198485)
unfolding next_u64 mix wrapping_add wrapping_mul xorshift
next_u64_zero = refl

abbrev seed : List ℕ
seed = 1 ∷ 2 ∷ 3 ∷ 4 ∷ 5 ∷ 6 ∷ 7 ∷ 8 ∷ 9 ∷ 10 ∷ []

fold-seed : fold seed ≡ 41162740811220513
unfolding fold fold_chunks chunks copy_from from_le_bytes next_u64 mix wrapping_add wrapping_mul
    xorshift
fold-seed = refl
