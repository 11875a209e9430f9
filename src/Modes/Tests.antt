-- ===== src/Modes/Tests.antt =====
-- src/mode.rs at concrete inputs.
use zmux_python.Prelude.{
  ℕ, ◌*◌, ◌≡◌, refl, Bool, true, false, Option, none, some, List, [], ◌∷◌, ok, err, ltb,
  if◌then◌else◌, ◌==◌,
}
use zmux_python.Handles.PipeIo.{ℤ, pos, negsuc}
use zmux_python.Tls.Sample.{own_roots}
use zmux_python.Admission.Credential.{prefix_auth}
use zmux_python.Modes.{Make, wss, new_auto, no_candidate}
use zmux_python.Modes.Policy.{Floats, timer_max, Args, not_valid, policy}
use zmux_python.Modes.Policy.Checks.{first_bad, validity, Checks, policy-Checks}
use zmux_python.Modes.Cache.{Crate, CacheCall, after, merged, after-merged}

-- Whole numbers as floats
abbrev at_least_zero : ℤ → Bool
at_least_zero (pos n) = true
at_least_zero (negsuc n) = false

abbrev duration : ℤ → Option ℕ
duration (pos n) = some (n * 1000000000)
duration (negsuc n) = none

abbrev whole : Floats
whole = record {
  Float = ℤ;
  is_finite = λ f. true;
  is_at_least_zero = at_least_zero;
  try_from_secs = duration;
}

abbrev args : Args ℤ ℕ ℕ
args = record {
  cache = some 1;
  key = 2;
  factor = pos 3;
  least = pos 1;
  most = negsuc 0;
  settle = negsuc 4;
  drop_window = pos 30;
  no_join = false;
}

policy-most : policy whole args ≡ err (not_valid timer_max)
unfolding policy
policy-most = refl

policy-Checks_example : Checks whole args (first_bad (validity whole args)) (policy whole args)
policy-Checks_example = policy-Checks whole args

auto-empty : new_auto {C = ℕ} [] ≡ err no_candidate
unfolding new_auto
auto-empty = refl

-- A cache that holds the number of the snapshots merged into it.
abbrev crate : Crate
crate = record {
  Cache = List ℕ;
  Snapshot = ℕ;
  Kind = ℕ;
  Str = ℕ;
  Float = ℕ;
  seconds = λ f. ok f;
  new = λ t l m. [];
  from_name = λ n. if ltb n 9 then some n else none;
  is_usable = λ key k c. true;
  failed_until = λ key k c. none;
  snapshot = λ c. 0;
  to_json = λ s. s;
  from_json = λ s. if s == 0 then none else some s;
  restore = λ s c. s ∷ c;
}

abbrev cache_calls : List (CacheCall crate)
cache_calls =
    CacheCall.restore 4 ∷ CacheCall.is_usable 1 20 ∷ CacheCall.restore 0 ∷ CacheCall.restore 5 ∷ []

cache-merges : after crate cache_calls [] ≡ merged crate cache_calls []
cache-merges = after-merged crate cache_calls []

-- "wss://", with roots of its own and a bound credential
abbrev secure : Make
secure = Make.websocket wss (some own_roots) (some (prefix_auth true))
