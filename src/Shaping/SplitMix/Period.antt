-- ===== src/Shaping/SplitMix/Period.antt =====
-- src/shaping.rs, `SplitMix::next_u64`: a value determines the state it was drawn at, so the values
-- repeat only after 2 ^ 64 draws.
use zmux_python.Prelude.{ℕ, zero, suc, ◌+◌, ◌-◌, ◌*◌, ◌%◌, ◌^◌, ◌<◌, ◌≡◌, sym, ap, ◌∙◌, arith}
use zmux_python.Prelude.Bits.{xorshift, unxorshift, unxorshift-xorshift, xorshift-lt}
use zmux_python.Shaping.SplitMix.{u64_mod, wrapping_add, wrapping_mul, gamma, mix, next_u64}

-- The multipliers are odd, so each has an inverse modulo 2 ^ 64.
abbrev unmul : ℕ → ℕ → ℕ
unmul c z = (z * c) % 2 ^ 64

pub unmix : ℕ → ℕ
unmix y =
    let b = unxorshift 31 y in
    let a = unxorshift 27 (unmul 0x3196_42b2_d24d_8ec3 b) in
    unxorshift 30 (unmul 0x96de_1b17_3f11_9089 a)

-- The state before the draw.
pub recover : ℕ → ℕ
recover y = (unmix y + (2 ^ 64 - gamma)) % 2 ^ 64

unmul_first :
    (z : ℕ) → z < 2 ^ 64 → unmul 0x96de_1b17_3f11_9089 (wrapping_mul z 0xbf58_476d_1ce4_e5b9) ≡ z
unfolding wrapping_mul
unmul_first z h = omega arith

unmul_second :
    (z : ℕ) → z < 2 ^ 64 → unmul 0x3196_42b2_d24d_8ec3 (wrapping_mul z 0x94d0_49bb_1331_11eb) ≡ z
unfolding wrapping_mul
unmul_second z h = omega arith

wrapping_mul-lt : (a b : ℕ) → wrapping_mul a b < 2 ^ 64
unfolding wrapping_mul
wrapping_mul-lt a b = omega arith

abbrev first : ℕ → ℕ
first z = wrapping_mul (xorshift 30 z) 0xbf58_476d_1ce4_e5b9

abbrev second : ℕ → ℕ
second a = wrapping_mul (xorshift 27 a) 0x94d0_49bb_1331_11eb

unmix-mix : (z : ℕ) → z < 2 ^ 64 → unmix (mix z) ≡ z
unfolding unmix mix
unmix-mix z h =
    rw
      (
        unxorshift-xorshift 31 (second (first z)) (omega (arith, b_lt)),
        unmul_second (xorshift 27 (first z)) (xorshift-lt 27 64 (first z) a_lt),
        unxorshift-xorshift 27 (first z) (omega (arith, a_lt)),
        unmul_first (xorshift 30 z) (xorshift-lt 30 64 z h),
      )
      (unxorshift-xorshift 30 z (omega arith))
  where
    a_lt : first z < 2 ^ 64
    a_lt = wrapping_mul-lt (xorshift 30 z) 0xbf58_476d_1ce4_e5b9

    b_lt : second (first z) < 2 ^ 64
    b_lt = wrapping_mul-lt (xorshift 27 (first z)) 0x94d0_49bb_1331_11eb

mix-lt : (z : ℕ) → mix z < 2 ^ 64
unfolding mix
mix-lt z =
    xorshift-lt 31 64 (second (first z))
      (wrapping_mul-lt (xorshift 27 (first z)) 0x94d0_49bb_1331_11eb)

-- A draw gives a u64 and leaves a u64, and its value tells the state before it: `recover` undoes
-- the draw. No two states of the generator draw the same value.
pub recover-next_u64 :
    (s : ℕ)
    → s < 2 ^ 64
    → (recover (next_u64 s).0 ≡ s) × ((next_u64 s).0 < 2 ^ 64) × ((next_u64 s).1 < 2 ^ 64)
unfolding recover next_u64 wrapping_add
recover-next_u64 s h = (
  rw (unmix-mix ((s + gamma) % u64_mod) (omega arith)) (omega arith),
  mix-lt ((s + gamma) % u64_mod),
  omega arith,
)

pub next_u64-lt : (s : ℕ) → (next_u64 s).1 < 2 ^ 64
unfolding next_u64 wrapping_add
next_u64-lt s = omega arith

-- The state after `n` draws.
pub state_after : ℕ → ℕ → ℕ
state_after zero s = s
state_after (suc n) s = (next_u64 (state_after n s)).1

state_after_lem : (n s : ℕ) → s < 2 ^ 64 → state_after n s ≡ (s + n * gamma) % 2 ^ 64
unfolding state_after next_u64 wrapping_add
state_after_lem zero s h = omega arith
state_after_lem (suc n) s h = rw (state_after_lem n s h) (omega arith)

step_injective :
    (s i j : ℕ)
    → i < 2 ^ 64
    → j < 2 ^ 64
    → (s + i * gamma) % 2 ^ 64 ≡ (s + j * gamma) % 2 ^ 64
    → i ≡ j
step_injective s i j hi hj e = omega arith

-- The first 2 ^ 64 values drawn from a seed's state are all different.
pub draws_differ :
    (s i j : ℕ)
    → s < 2 ^ 64
    → i < 2 ^ 64
    → j < 2 ^ 64
    → (next_u64 (state_after i s)).0 ≡ (next_u64 (state_after j s)).0
    → i ≡ j
draws_differ s i j hs hi hj e =
    step_injective s i j hi hj (sym (state_after_lem i s hs) ∙ same ∙ state_after_lem j s hs)
  where
    same : state_after i s ≡ state_after j s
    same =
        sym (recover-next_u64 (state_after i s) (omega (arith, state_after_lem i s hs))).0
        ∙ ap recover e
        ∙ (recover-next_u64 (state_after j s) (omega (arith, state_after_lem j s hs))).0
