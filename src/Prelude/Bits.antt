-- ===== src/Prelude/Bits.antt =====
-- Laws of `^` on unsigned words, at every width: `>>` goes inside, and a second `^` undoes the first.
use Prim.Native.Nat.{
  ℕ, zero, suc, ◌+◌, ◌*◌, ◌/◌, ◌%◌, ◌^◌, ◌≤◌, ◌<◌, bit_xor, digits, differ, bit_xor-bitwise,
}
use mathlib.Core.Path.{◌≡◌, refl, ap}
use native.Mathlib.Nat.{pow-suc, div-div-eq-div-mul, div-le_self}
use native.Mathlib.Omega.{arith}

infixl 60 ◌>>>◌
abbrev pub ◌>>>◌ : ℕ → ℕ → ℕ
x >>> k = x / 2 ^ k

-- The count of digits in `bitwise` is fuel, and any that covers the number will do.
fuel_enough :
    (a b : ℕ) (f g : ℕ)
    → a ≤ f
    → a ≤ g
    → digits (λ y. y) differ f a b ≡ digits (λ y. y) differ g a b
fuel_enough zero b zero zero hf hg = refl
fuel_enough zero b zero (suc g) hf hg = refl
fuel_enough zero b (suc f) zero hf hg = refl
fuel_enough zero b (suc f) (suc g) hf hg = refl
fuel_enough (suc a) b zero g hf hg = absurd (omega arith)
fuel_enough (suc a) b (suc f) zero hf hg = absurd (omega arith)
fuel_enough (suc a) b (suc f) (suc g) hf hg =
    omega (arith, fuel_enough (suc a / 2) (b / 2) f g (omega arith) (omega arith))

zero-bit_xor : (b : ℕ) → bit_xor 0 b ≡ b
zero-bit_xor b = bit_xor-bitwise 0 b

bit_xor_step : (a b : ℕ) → bit_xor a b ≡ bit_xor (a / 2) (b / 2) * 2 + differ (a % 2) (b % 2)
bit_xor_step zero b = omega (arith, zero-bit_xor b, zero-bit_xor (b / 2))
bit_xor_step (suc a) b = omega (
  arith,
  bit_xor-bitwise (suc a) b,
  bit_xor-bitwise (suc a / 2) (b / 2),
  fuel_enough (suc a / 2) (b / 2) a (suc a / 2) (omega arith) (omega arith),
)

differ_bits :
    (x y : ℕ) → x < 2 → y < 2 → (differ x y < 2) × (differ (differ x y) y ≡ x) × (differ x 0 ≡ x)
differ_bits zero zero p q = (omega arith, refl, refl)
differ_bits zero (suc zero) p q = (omega arith, refl, refl)
differ_bits (suc zero) zero p q = (omega arith, refl, refl)
differ_bits (suc zero) (suc zero) p q = (omega arith, refl, refl)
differ_bits (suc (suc x)) y p q = absurd (omega arith)
differ_bits x (suc (suc y)) p q = absurd (omega arith)

pub bit_xor_half : (a b : ℕ) → bit_xor a b / 2 ≡ bit_xor (a / 2) (b / 2)
bit_xor_half a b =
    omega (arith, bit_xor_step a b, differ_bits (a % 2) (b % 2) (omega arith) (omega arith))

bit_xor_parity : (a b : ℕ) → bit_xor a b % 2 ≡ differ (a % 2) (b % 2)
bit_xor_parity a b =
    omega (arith, bit_xor_step a b, differ_bits (a % 2) (b % 2) (omega arith) (omega arith))

bit_xor_cancel_fuel : (n a b : ℕ) → a + b ≤ n → bit_xor (bit_xor a b) b ≡ a
bit_xor_cancel_fuel zero zero zero h = refl
bit_xor_cancel_fuel zero (suc a) b h = absurd (omega arith)
bit_xor_cancel_fuel zero zero (suc b) h = absurd (omega arith)
bit_xor_cancel_fuel (suc n) a b h =
    rw (bit_xor_step (bit_xor a b) b, bit_xor_half a b, bit_xor_parity a b)
      (omega (
        arith,
        bit_xor_cancel_fuel n (a / 2) (b / 2) (omega arith),
        differ_bits (a % 2) (b % 2) (omega arith) (omega arith),
      ))

pub bit_xor_cancel : (a b : ℕ) → bit_xor (bit_xor a b) b ≡ a
bit_xor_cancel a b = bit_xor_cancel_fuel (a + b) a b (omega arith)

bit_xor-zero_fuel : (n a : ℕ) → a ≤ n → bit_xor a 0 ≡ a
bit_xor-zero_fuel n zero h = refl
bit_xor-zero_fuel zero (suc a) h = absurd (omega arith)
bit_xor-zero_fuel (suc n) (suc a) h = omega (
  arith,
  bit_xor_step (suc a) 0,
  bit_xor-zero_fuel n (suc a / 2) (omega arith),
  differ_bits (suc a % 2) 0 (omega arith) (omega arith),
)

pub bit_xor-zero : (a : ℕ) → bit_xor a 0 ≡ a
bit_xor-zero a = bit_xor-zero_fuel a a (omega arith)

differ_comm : (x y : ℕ) → x < 2 → y < 2 → differ x y ≡ differ y x
differ_comm zero zero p q = refl
differ_comm zero (suc zero) p q = refl
differ_comm (suc zero) zero p q = refl
differ_comm (suc zero) (suc zero) p q = refl
differ_comm (suc (suc x)) y p q = absurd (omega arith)
differ_comm x (suc (suc y)) p q = absurd (omega arith)

bit_xor_comm_fuel : (n a b : ℕ) → a + b ≤ n → bit_xor a b ≡ bit_xor b a
bit_xor_comm_fuel zero zero zero h = refl
bit_xor_comm_fuel zero (suc a) b h = absurd (omega arith)
bit_xor_comm_fuel zero zero (suc b) h = absurd (omega arith)
bit_xor_comm_fuel (suc n) a b h = omega (
  arith,
  bit_xor_step a b,
  bit_xor_step b a,
  bit_xor_comm_fuel n (a / 2) (b / 2) (omega arith),
  differ_comm (a % 2) (b % 2) (omega arith) (omega arith),
)

pub bit_xor_comm : (a b : ℕ) → bit_xor a b ≡ bit_xor b a
bit_xor_comm a b = bit_xor_comm_fuel (a + b) a b (omega arith)

pub bit_xor_injective : (a b c : ℕ) → bit_xor a b ≡ bit_xor a c → b ≡ c
bit_xor_injective a b c e =
    cc (bit_xor_cancel b a, bit_xor_cancel c a, bit_xor_comm a b, bit_xor_comm a c)

pub >>>-suc : (a k : ℕ) → a >>> suc k ≡ (a / 2) >>> k
>>>-suc a k = rw (div-div-eq-div-mul a 2 (2 ^ k)) (ap (λ t. a / t) (omega (arith, pow-suc 2 k)))

pub bit_xor->>> : (k a b : ℕ) → bit_xor a b >>> k ≡ bit_xor (a >>> k) (b >>> k)
bit_xor->>> zero a b = ground arith
bit_xor->>> (suc k) a b = simp (>>>-suc, bit_xor_half) (bit_xor->>> k (a / 2) (b / 2))

pub bit_xor-lt : (k a b : ℕ) → a < 2 ^ k → b < 2 ^ k → bit_xor a b < 2 ^ k
bit_xor-lt zero zero zero p q = omega arith
bit_xor-lt zero (suc a) b p q = absurd (omega arith)
bit_xor-lt zero zero (suc b) p q = absurd (omega arith)
bit_xor-lt (suc k) a b p q = omega (
  arith,
  pow-suc 2 k,
  bit_xor_step a b,
  differ_bits (a % 2) (b % 2) (omega arith) (omega arith),
  bit_xor-lt k (a / 2) (b / 2) (omega (arith, pow-suc 2 k)) (omega (arith, pow-suc 2 k)),
)

-- `z ^= z >> k`, and what undoes it on a word of at most `3 * k` bits.
unfoldable pub xorshift : ℕ → ℕ → ℕ
xorshift k z = bit_xor z (z >>> k)

unfoldable pub unxorshift : ℕ → ℕ → ℕ
unxorshift k y = bit_xor y (bit_xor (y >>> k) (y >>> k >>> k))

pub xorshift-lt : (k w z : ℕ) → z < 2 ^ w → xorshift k z < 2 ^ w
unfolding xorshift
xorshift-lt k w z h = bit_xor-lt w z (z >>> k) h (omega (arith, div-le_self z (2 ^ k)))

pub unxorshift-xorshift : (k z : ℕ) → z >>> k >>> k >>> k ≡ 0 → unxorshift k (xorshift k z) ≡ z
unfolding unxorshift xorshift
unxorshift-xorshift k z narrow = simp (bit_xor->>>, narrow, bit_xor-zero, bit_xor_cancel)
