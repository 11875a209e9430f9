-- ===== src/Shaping/SplitMix/Seed.antt =====
-- src/shaping.rs, `fold`: what of a seed's bytes the state keeps apart.
use Prim.Native.Nat.{bit_xor}
use mathlib.Core.List.{append_assoc}
use mathlib.Core.Path.{ap₂}
use native.Mathlib.Nat.{pow-suc}
use zmux_python.Prelude.{
  ℕ, zero, suc, ◌%◌, ◌^◌, ◌≤◌, ◌<◌, ◌≡◌, refl, sym, ap, ◌∙◌, List, [], ◌∷◌, ◌++◌, arith, length,
  concat, length-append, length-take, length-drop, take, drop, take-append-drop, take_all,
  take-append_self, drop-append_self, All,
}
use zmux_python.Prelude.Bits.{bit_xor-lt, bit_xor_injective}
use zmux_python.Shaping.SplitMix.{
  u64_mod, next_u64, copy_from, from_le_bytes, zeros, chunks, fold_chunks, fold,
}
use zmux_python.Shaping.SplitMix.Period.{recover, recover-next_u64, next_u64-lt}

abbrev pub IsByte : ℕ → Type 0
IsByte b = b < 256

-- The chunks of a seed put together are the seed, and no chunk is longer than 8 bytes.
pub concat-chunks :
    (f : ℕ) (bytes : List ℕ)
    → length bytes ≤ f
    → (concat (chunks f bytes) ≡ bytes) × All (λ c. length c ≤ 8) (chunks f bytes)
unfolding chunks
concat-chunks zero [] h = (refl, tt)
concat-chunks zero (b ∷ bs) h = absurd (omega arith)
concat-chunks (suc f) [] h = (refl, tt)
concat-chunks (suc f) (b ∷ bs) h =
    let (whole, short) = concat-chunks f (drop 7 bs) (omega (arith, length-drop 7 bs)) in
    (
      ap (◌∷◌ b) (ap (λ r. take 7 bs ++ r) whole ∙ take-append-drop 7 bs),
      (omega (arith, length-take 7 bs), short),
    )

copy_from-length :
    (z bytes : List ℕ) → length bytes ≤ length z → length (copy_from z bytes) ≡ length z
unfolding copy_from
copy_from-length z [] h = refl
copy_from-length [] (c ∷ cs) h = absurd (omega arith)
copy_from-length (b ∷ bs) (c ∷ cs) h = ap suc (copy_from-length bs cs (omega arith))

copy_from-IsByte :
    (z bytes : List ℕ) → All IsByte z → All IsByte bytes → All IsByte (copy_from z bytes)
unfolding copy_from
copy_from-IsByte z [] hz h = hz
copy_from-IsByte [] (c ∷ cs) hz h = tt
copy_from-IsByte (b ∷ bs) (c ∷ cs) hz h = (h.0, copy_from-IsByte bs cs hz.1 h.1)

from_le_bytes-lt : (bytes : List ℕ) → All IsByte bytes → from_le_bytes bytes < 256 ^ length bytes
unfolding from_le_bytes
from_le_bytes-lt [] h = omega arith
from_le_bytes-lt (b ∷ bs) h = omega (arith, pow-suc 256 (length bs), from_le_bytes-lt bs h.1, h.0)

-- A chunk read as a u64, the missing bytes as 0.
abbrev word : List ℕ → ℕ
word c = from_le_bytes (copy_from zeros c)

word-lt : (c : List ℕ) → length c ≤ 8 → All IsByte c → word c < 2 ^ 64
word-lt c h bytes = ground (
  arith,
  from_le_bytes-lt (copy_from zeros c) (copy_from-IsByte zeros c (omega arith) bytes),
  copy_from-length zeros c h,
)

from_le_bytes-copy_from_injective :
    (z a b : List ℕ)
    → length a ≡ length b
    → length a ≤ length z
    → All IsByte a
    → All IsByte b
    → from_le_bytes (copy_from z a) ≡ from_le_bytes (copy_from z b)
    → a ≡ b
unfolding from_le_bytes copy_from
from_le_bytes-copy_from_injective z [] [] same fits ha hb e = refl
from_le_bytes-copy_from_injective z [] (y ∷ b) same fits ha hb e = absurd (omega arith)
from_le_bytes-copy_from_injective z (x ∷ a) [] same fits ha hb e = absurd (omega arith)
from_le_bytes-copy_from_injective [] (x ∷ a) (y ∷ b) same fits ha hb e = absurd (omega arith)
from_le_bytes-copy_from_injective (w ∷ z) (x ∷ a) (y ∷ b) same fits ha hb e =
    ap₂ ◌∷◌ (omega (arith, ha.0, hb.0)) (
      from_le_bytes-copy_from_injective z a b (omega arith) (omega arith) ha.1 hb.1
        (omega (arith, ha.0, hb.0)))

-- The state after a last chunk.
abbrev last : ℕ → ℕ → List ℕ → ℕ
last m s c = bit_xor s (next_u64 (bit_xor m (word c))).0

chunks_nil : (f : ℕ) → chunks f [] ≡ []
unfolding chunks
chunks_nil zero = refl
chunks_nil (suc f) = refl

chunks-last :
    (f m s : ℕ) (x : ℕ) (a : List ℕ)
    → length (x ∷ a) ≤ 8
    → fold_chunks (chunks (suc f) (x ∷ a)) m s ≡ last m s (x ∷ a)
unfolding chunks fold_chunks
chunks-last f m s x a h =
    let (all, over) = take_all 7 a (omega arith) in rw (all, over, chunks_nil f)

chunks_cons :
    (f : ℕ) (c r a : List ℕ) → length c ≡ 8 → chunks (suc f) ((c ++ r) ++ a) ≡ c ∷ chunks f (r ++ a)
unfolding chunks
chunks_cons f [] r a e = absurd (omega arith)
chunks_cons f (x ∷ c) r a e = rw (
  append_assoc c r a,
  take-append_self 7 c (r ++ a) (omega arith),
  drop-append_self 7 c (r ++ a) (omega arith),
)

last_injective :
    (m s : ℕ) (a b : List ℕ)
    → m < 2 ^ 64
    → length a ≡ length b
    → length a ≤ 8
    → All IsByte a
    → All IsByte b
    → last m s a ≡ last m s b
    → a ≡ b
last_injective m s a b hm same short ha hb e =
    from_le_bytes-copy_from_injective zeros a b same (omega arith) ha hb (
      bit_xor_injective m (word a) (word b) (
        sym (drawn a short ha) ∙ ap recover (bit_xor_injective s _ _ e) ∙ drawn b (omega arith) hb))
  where
    drawn :
        (c : List ℕ)
        → length c ≤ 8
        → All IsByte c
        → recover (next_u64 (bit_xor m (word c))).0 ≡ bit_xor m (word c)
    drawn c h bytes =
        (recover-next_u64 (bit_xor m (word c)) (bit_xor-lt 64 m (word c) hm (word-lt c h bytes))).0

fold_chunks_injective :
    (cs : List (List ℕ)) (f m s : ℕ) (a b : List ℕ)
    → All (λ c. length c ≡ 8) cs
    → length a ≡ length b
    → length a ≤ 8
    → All IsByte a
    → All IsByte b
    → m < 2 ^ 64
    → length (concat cs ++ a) ≤ f
    → fold_chunks (chunks f (concat cs ++ a)) m s ≡ fold_chunks (chunks f (concat cs ++ b)) m s
    → a ≡ b
fold_chunks_injective [] f m s [] [] full same short ha hb hm fuel e = refl
fold_chunks_injective [] f m s [] (y ∷ b) full same short ha hb hm fuel e = absurd (omega arith)
fold_chunks_injective [] f m s (x ∷ a) [] full same short ha hb hm fuel e = absurd (omega arith)
fold_chunks_injective [] zero m s (x ∷ a) (y ∷ b) full same short ha hb hm fuel e =
    absurd (omega arith)
fold_chunks_injective [] (suc f) m s (x ∷ a) (y ∷ b) full same short ha hb hm fuel e =
    last_injective m s (x ∷ a) (y ∷ b) hm same short ha hb
      (sym (chunks-last f m s x a short) ∙ e ∙ chunks-last f m s y b (omega arith))
fold_chunks_injective (c ∷ cs) zero m s a b full same short ha hb hm fuel e =
    absurd (omega (arith, full.0, length-append (c ++ concat cs) a, length-append c (concat cs)))
fold_chunks_injective (c ∷ cs) (suc f) m s a b full same short ha hb hm fuel e =
    fold_chunks_injective cs f (next_u64 (bit_xor m (word c))).1
      (bit_xor s (next_u64 (bit_xor m (word c))).0) a b full.1 same short ha hb
      (next_u64-lt (bit_xor m (word c)))
      (omega (
        arith,
        full.0,
        length-append (c ++ concat cs) a,
        length-append c (concat cs),
        length-append (concat cs) a,
      ))
      (sym (after a) ∙ e ∙ after b)
  where
    after :
        (r : List ℕ)
        → fold_chunks (chunks (suc f) ((c ++ concat cs) ++ r)) m s
          ≡ fold_chunks
              (chunks f (concat cs ++ r))
              (next_u64 (bit_xor m (word c))).1
              (bit_xor s (next_u64 (bit_xor m (word c))).0)
    after r =
        ap (λ l. fold_chunks l m s) (chunks_cons f c (concat cs) r full.0)
        ∙ unfold fold_chunks in refl

-- Seeds of the same length that agree up to their last chunk, and in the last chunk differ in any
-- byte, have different states; so two seeds of the same length of at most 8 bytes always do.
pub fold_injective :
    (cs : List (List ℕ)) (a b : List ℕ)
    → All (λ c. length c ≡ 8) cs
    → length a ≡ length b
    → length a ≤ 8
    → All IsByte a
    → All IsByte b
    → fold (concat cs ++ a) ≡ fold (concat cs ++ b)
    → a ≡ b
unfolding fold
fold_injective cs a b full same short ha hb e =
    fold_chunks_injective cs (length (concat cs ++ a))
      (next_u64 (length (concat cs ++ a) % u64_mod)).1
      (next_u64 (length (concat cs ++ a) % u64_mod)).0 a b full same short ha hb (next_u64-lt _)
      (omega arith)
      (e
        ∙ ap
            (λ n.
              fold_chunks (chunks n (concat cs ++ b)) (next_u64 (n % u64_mod)).1
                (next_u64 (n % u64_mod)).0)
            (omega (arith, length-append (concat cs) a, length-append (concat cs) b)))
