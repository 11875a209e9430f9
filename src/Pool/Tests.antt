-- ===== src/Pool/Tests.antt =====
-- src/pool.rs at concrete inputs.
use zmux_python.Prelude.{
  ℕ, zero, ◌+◌, ◌*◌, ◌≡◌, refl, Bool, true, false, Option, none, some, List, [], ◌∷◌, ok, err, ltb,
  if◌then◌else◌,
}
use zmux_python.Handles.PipeIo.{ℤ, pos, negsuc}
use zmux_python.Pool.{Floats, Member, PoolMember, MemberDecision, panic, decide, Decision}
use zmux_python.Pool.Decide.{Decides, decide-Decides, decide_panics}
use zmux_python.Pool.Build
use zmux_python.Pool.Build.{Make, Args, make, Built, Named, native, make-Built}

abbrev negative : ℤ → Bool
negative (pos n) = false
negative (negsuc n) = true

-- A duration of less than 2 ^ 64 seconds.
abbrev secs : ℤ → Option ℕ
secs (pos n) = if ltb n 18446744073709551616 then some (n * 1000000000) else none
secs (negsuc n) = none

abbrev natural : ℤ → ℕ
natural (pos n) = n
natural (negsuc n) = 0

abbrev is_nought : ℤ → Bool
is_nought (pos zero) = true
is_nought n = false

-- Floats that are whole numbers.
abbrev whole : Floats
whole = record {
  Float = ℤ;
  zero_float = pos 0;
  is_finite = λ x. true;
  is_negative = negative;
  is_zero = is_nought;
  try_from_secs = secs;
  as_u64 = natural;
  as_secs = pos;
}

abbrev aged : ℤ → Member whole
aged n = record {
  id = some (ok 7);
  age = some (ok n);
  idle = none;
  pipes = some (ok (pos 2));
  bytes_sent = none;
  bytes_received = none;
}

abbrev answer : ℕ → MemberDecision whole
answer n = record {
  count = some n;
  dial_after = none;
  retire = [];
  recheck = some n;
  probe_interval = none;
  probe_jitter = none;
}

-- A policy that counts its decisions and answers with the age of the first member.
abbrev policy : ℕ → Option ℕ → List PoolMember → ℕ → MemberDecision whole × ℕ
policy failures s [] p = (answer 0, p + 1)
policy failures s (x ∷ xs) p = (answer x.age, p + 1)

decide-Decides_example :
    Decides whole policy 0
      (aged (pos 5) ∷ [])
      (some (pos 3))
      4
      (decide whole policy 0 (aged (pos 5) ∷ []) (some (pos 3)) 4)
decide-Decides_example = decide-Decides whole policy 0 (aged (pos 5) ∷ []) (some (pos 3)) 4

abbrev large : ℤ
large = pos 18446744073709551616

large_age_panics : decide whole policy 0 (aged large ∷ []) none 4 ≡ (err panic, 4)
large_age_panics = decide_panics whole policy 0 (aged large) [] none 4 7 large refl refl refl refl

abbrev decision : Decision whole
decision = record {
  count = some 2;
  dial_after = some (pos 1);
  retire = [];
  recheck = none;
  probe_interval = some (pos 0);
  probe_jitter = none;
}

abbrev args : Args whole ℕ ℕ ℕ ℕ
args = record {
  count = 2;
  rotate_max_bytes = none;
  rotate_max_age = some (pos 60);
  rotate_jitter = pos 0;
  pool_policy = none;
  options = ok 1;
  decision_rejected = none;
}

abbrev pool : Build.Pool whole ℕ ℕ ℕ ℕ
pool = record {
  count = 2;
  dial = none;
  join = some 9;
  mode = none;
  options = 1;
  rotate = some (record { jitter = pos 0; max_bytes = none; max_age = some 60000000000 });
  policy = none;
  decision_rejected = none;
}

make-Built_example :
    Built whole ℕ ℕ ℕ ℕ (λ j. true) args pool
    × Named whole ℕ ℕ ℕ ℕ (Build.new none (some 9)) (native whole ℕ ℕ ℕ ℕ pool)
unfolding make
make-Built_example = make-Built whole ℕ ℕ ℕ ℕ (λ j. true) (Build.new none (some 9)) args pool refl
