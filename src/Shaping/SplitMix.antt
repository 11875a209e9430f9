-- ===== src/Shaping/SplitMix.antt =====
-- src/shaping.rs, `SplitMix` and `fold`: a deterministic source of u64 values, and the state that a
-- seed of bytes stands for.
pub mod Period
pub mod Seed
use Prim.Native.Nat.{bit_xor}
use zmux_python.Prelude.{ℕ, zero, suc, ◌+◌, ◌*◌, ◌%◌, ◌^◌, List, [], ◌∷◌, length, take, drop}
use zmux_python.Prelude.Bits.{xorshift}

abbrev pub u64_mod : ℕ
u64_mod = 2 ^ 64

unfoldable pub wrapping_add : ℕ → ℕ → ℕ
wrapping_add a b = (a + b) % u64_mod

unfoldable pub wrapping_mul : ℕ → ℕ → ℕ
wrapping_mul a b = (a * b) % u64_mod

abbrev pub gamma : ℕ
gamma = 0x9e37_79b9_7f4a_7c15

-- `next_u64` after the state was advanced.
unfoldable pub mix : ℕ → ℕ
mix z =
    let a = wrapping_mul (xorshift 30 z) 0xbf58_476d_1ce4_e5b9 in
    let b = wrapping_mul (xorshift 27 a) 0x94d0_49bb_1331_11eb in xorshift 31 b

-- The value drawn, and the state after it.
unfoldable pub next_u64 : ℕ → ℕ × ℕ
next_u64 s = let s' = wrapping_add s gamma in (mix s', s')

-- `b[..c.len()].copy_from_slice(c)`
unfoldable pub copy_from : List ℕ → List ℕ → List ℕ
copy_from b [] = b
copy_from [] (c ∷ cs) = []
copy_from (b ∷ bs) (c ∷ cs) = c ∷ copy_from bs cs

-- `u64::from_le_bytes`
unfoldable pub from_le_bytes : List ℕ → ℕ
from_le_bytes [] = 0
from_le_bytes (b ∷ bs) = b + 256 * from_le_bytes bs

abbrev pub zeros : List ℕ
zeros = 0 ∷ 0 ∷ 0 ∷ 0 ∷ 0 ∷ 0 ∷ 0 ∷ 0 ∷ []

-- `seed.chunks(8)`, with the number of bytes as fuel.
unfoldable pub chunks : ℕ → List ℕ → List (List ℕ)
chunks zero bytes = []
chunks (suc f) [] = []
chunks (suc f) (b ∷ bs) = take 8 (b ∷ bs) ∷ chunks f (drop 8 (b ∷ bs))

-- The loop of `fold` over the chunks, on the generator's state and `s`.
unfoldable pub fold_chunks : List (List ℕ) → ℕ → ℕ → ℕ
fold_chunks [] m s = s
fold_chunks (c ∷ cs) m s =
    let m' = bit_xor m (from_le_bytes (copy_from zeros c)) in
    let (v, m'') = next_u64 m' in fold_chunks cs m'' (bit_xor s v)

unfoldable pub fold : List ℕ → ℕ
fold seed =
    let (s, m) = next_u64 (length seed % u64_mod) in fold_chunks (chunks (length seed) seed) m s
