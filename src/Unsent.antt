-- ===== src/Unsent.antt =====
-- src/lib.rs, `UnsentCount`: the count of a carrier's unsent bytes that the application sets and
-- the session's driver reads, an `AtomicU64` shared by the two, with `None` stored as `u64::MAX`.
pub mod Refine
mod Tests
use zmux_python.Prelude.{
  ℕ, ◌-◌, ◌^◌, Option, none, some, List, [], ◌∷◌, ◌==◌, if◌then◌else◌, min, ltb, Bool, true, false,
  raised, PyResult, ok, err, ◌>>=◌,
}

abbrev pub u64_max : ℕ
u64_max = 2 ^ 64 - 1

-- `n.map_or(u64::MAX, |n| n.min(u64::MAX - 1))`
unfoldable pub encode : Option ℕ → ℕ
encode none = u64_max
encode (some n) = min n (u64_max - 1)

-- `UnsentCount::decode`
unfoldable pub decode : ℕ → Option ℕ
decode word = if word == u64_max then none else some word

-- The argument as an `Option<u64>`, which PyO3 makes of a natural number.
abbrev pub fitting : Bool → ℕ → PyResult (Option ℕ)
fitting true n = ok (some n)
fitting false n = err (raised "OverflowError")

unfoldable pub extract_u64 : Option ℕ → PyResult (Option ℕ)
extract_u64 none = ok none
extract_u64 (some n) = fitting (ltb n (2 ^ 64)) n

-- `UnsentCount.new`: the word of the atomic
unfoldable pub new_count : Option ℕ → PyResult ℕ
unfolding encode extract_u64
new_count n = extract_u64 n >>= λ m. ok (encode m)

-- The store of what was extracted
unfoldable pub set_at : PyResult (Option ℕ) → ℕ → PyResult (Unit {0}) × ℕ
unfolding encode
set_at (ok m) word = (ok tt, encode m)
set_at (err e) word = (err e, word)

-- `UnsentCount.set`, which leaves the word where the argument is none
unfoldable pub set_count : Option ℕ → ℕ → PyResult (Unit {0}) × ℕ
unfolding set_at extract_u64
set_count n word = set_at (extract_u64 n) word

-- `UnsentCount.value`
unfoldable pub value : ℕ → Option ℕ
unfolding decode
value word = decode word

-- The accesses to the shared word, by any thread, in the order in which the atomic takes them.
pub data Access : Type 0 where
  sets : Option ℕ → Access
  reads : Access

-- What the reads give.
unfoldable pub run : List Access → ℕ → List (Option ℕ)
unfolding set_count value
run [] word = []
run (sets n ∷ rest) word = run rest (set_count n word).1
run (reads ∷ rest) word = value word ∷ run rest word
