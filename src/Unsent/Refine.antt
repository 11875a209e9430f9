-- ===== src/Unsent/Refine.antt =====
-- src/lib.rs, `UnsentCount`, against a cell that holds an optional count.
use zmux_python.Prelude.{
  ℕ, ◌-◌, ◌^◌, ◌<◌, ◌≡◌, refl, Bool, true, false, ltb, if◌then◌else◌, PyResult, ok, err, ◌>>=◌,
  Option, none, some, List, [], ◌∷◌, min, arith,
}
use zmux_python.Unsent.{
  u64_max, encode, decode, fitting, extract_u64, set_at, new_count, set_count, value, Access, sets,
  reads, run,
}

-- The count that can be told: the greatest one is one less than `u64::MAX`.
abbrev clamp : Option ℕ → Option ℕ
clamp none = none
clamp (some n) = some (min n (u64_max - 1))

-- Whether a count is a `u64`, or `None`.
abbrev pub fits : Option ℕ → Bool
fits none = true
fits (some n) = ltb n (2 ^ 64)

-- What the reads of a cell give that simply holds the count; a count that does not fit raises and
-- changes nothing.
abbrev pub replay : List Access → Option ℕ → List (Option ℕ)
replay [] cell = []
replay (sets n ∷ rest) cell = replay rest (if fits n then clamp n else cell)
replay (reads ∷ rest) cell = cell ∷ replay rest cell

decode-encode : (n : Option ℕ) → decode (encode n) ≡ clamp n
unfolding decode encode
decode-encode none = refl
decode-encode (some n) = ground arith

pub encode_bound : (n : Option ℕ) → encode n < 2 ^ 64
unfolding encode
encode_bound none = omega arith
encode_bound (some n) = omega arith

-- The word stands for the cell.
abbrev StandsFor : ℕ → Option ℕ → Type 0
StandsFor word cell = (decode word ≡ cell) × (word < 2 ^ 64)

set_count-StandsFor :
    (n : Option ℕ) (word : ℕ) (cell : Option ℕ)
    → StandsFor word cell
    → StandsFor (set_count n word).1 (if fits n then clamp n else cell)
unfolding set_count extract_u64 set_at
set_count-StandsFor none word cell h = (decode-encode none, encode_bound none)
set_count-StandsFor (some n) word cell h = by_fit (ltb n (2 ^ 64))
  where
    by_fit :
        (b : Bool) → StandsFor (set_at (fitting b n) word).1 (if b then clamp (some n) else cell)
    by_fit true = (decode-encode (some n), encode_bound (some n))
    by_fit false = h

run_from :
    (rest : List Access) (word : ℕ) (cell : Option ℕ)
    → StandsFor word cell
    → run rest word ≡ replay rest cell
unfolding run value
run_from [] word cell h = refl
run_from (sets n ∷ rest) word cell h =
    run_from rest (set_count n word).1 (if fits n then clamp n else cell)
      (set_count-StandsFor n word cell h)
run_from (reads ∷ rest) word cell h = rw (h.0, run_from rest word cell h) refl

-- The reads that follow agree with the cell, and the stored word fits.
abbrev pub Replays : List Access → Option ℕ → PyResult ℕ → Type 0
Replays rest n (ok word) =
    (fits n ≡ true) × (run rest word ≡ replay rest (clamp n)) × (word < 2 ^ 64)
Replays rest n (err e) = fits n ≡ false

-- The count as it is made, which succeeds exactly for `None` and what fits a `u64`, and then used: in
-- any order of accesses each read gives what a cell gives that holds the count last set, where a count
-- of `u64::MAX` is told as one less, never as `None`, and one that does not fit is refused and
-- changes nothing; and the word that is stored fits into 64 bits.
pub run-replay : (rest : List Access) (n : Option ℕ) → Replays rest n (new_count n)
unfolding new_count extract_u64
run-replay rest none = (
  refl,
  run_from rest (encode none) none (decode-encode none, encode_bound none),
  encode_bound none,
)
run-replay rest (some n) = by_fit (ltb n (2 ^ 64)) refl
  where
    by_fit :
        (b : Bool) → ltb n (2 ^ 64) ≡ b → Replays rest (some n) (fitting b n >>= λ m. ok (encode m))
    by_fit true e = (
      e,
      run_from rest (encode (some n)) (clamp (some n))
          (decode-encode (some n), encode_bound (some n)),
      encode_bound (some n),
    )
    by_fit false e = e
