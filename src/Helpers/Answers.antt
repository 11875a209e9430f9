-- ===== src/Helpers/Answers.antt =====
-- src/helpers.rs, `forwarded` with the answer of `splice`, and `resolve_duplicate`: what the crate's
-- answers become in Python.
use zmux_python.Prelude.{
  ℕ, Bool, String, Option, none, some, PyErr, value_error, PyResult, ok, err, ◌>>=◌, ◌>>◌,
  if◌then◌else◌,
}
use zmux_python.Streams.{CrateResult, map_err}
use zmux_python.Errors.{Text, kind_of}
use zmux_python.Helpers.Snake.{snake}

-- `SpliceEnd` of the crate, and the count of one direction with its end.
pub data SpliceEnd : Type 0 where
  finished upstream_lost downstream_lost other_end : SpliceEnd
  reset stopped : ℕ → SpliceEnd

pub record Counts : Type 0 where
  pub bytes : ℕ
  pub datagram_bytes : ℕ
  pub datagrams_dropped : ℕ
  pub end : SpliceEnd

-- The arguments of the Python class `Forwarded`.
pub record Forwarded : Type 0 where
  pub bytes : ℕ
  pub datagram_bytes : ℕ
  pub datagrams_dropped : ℕ
  pub end : String
  pub code : Option ℕ

abbrev pub unknown_end : PyErr
unknown_end = value_error "an end that the binding does not know"

abbrev pub end_of : SpliceEnd → PyResult (String × Option ℕ)
end_of finished = ok ("finished", none)
end_of (reset c) = ok ("reset", some c)
end_of (stopped c) = ok ("stopped", some c)
end_of upstream_lost = ok ("upstream_lost", none)
end_of downstream_lost = ok ("downstream_lost", none)
end_of other_end = err unknown_end

unfoldable pub forwarded : Counts → PyResult Forwarded
forwarded f = end_of f.end >>= λ e. ok (record {
  bytes = f.bytes;
  datagram_bytes = f.datagram_bytes;
  datagrams_dropped = f.datagrams_dropped;
  end = e.0;
  code = e.1;
})

-- The answer of a splice that has ended: the arguments of `Spliced`.
unfoldable pub spliced : CrateResult PyErr (Counts × Counts) → PyResult (Forwarded × Forwarded)
unfolding forwarded
spliced r = do
  (a_to_b, b_to_a) ← map_err (λ e. e) r
  x ← forwarded a_to_b
  y ← forwarded b_to_a
  ok (x, y)

-- `Resolved` of the crate, with the rule's `Debug` text, and its arguments in Python.
pub record Resolution (S : Type 0) : Type 0 where
  pub survivor : S
  pub loser : S
  pub rule : Text
  pub rejoin_started : Bool

module _ {S : Type 0} where
  abbrev pub resolved : Resolution S → Resolution S
  resolved r = record r { rule = snake (kind_of r.rule) }

  -- `resolve_duplicate`: `resolve` is the call of the crate, told whether a rejoin is given.
  unfoldable pub resolve_duplicate :
      Bool → PyResult (Unit {0}) → (Bool → PyResult (Resolution S)) → PyResult (Resolution S)
  unfolding snake kind_of
  resolve_duplicate rejoin locals resolve = do
    if rejoin then locals else ok tt
    r ← resolve rejoin
    ok (resolved r)
