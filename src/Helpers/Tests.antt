-- ===== src/Helpers/Tests.antt =====
-- src/helpers.rs at concrete inputs.
use zmux_python.Prelude.{
  ℕ, ◌≡◌, refl, false, none, some, List, [], ◌∷◌, raised, PyResult, ok, err, ◌==◌, if◌then◌else◌,
}
use zmux_python.Errors.{Text}
use zmux_python.Layer.Channel.{Poll, ready, pending}
use zmux_python.Helpers.Snake.{snake, snake_rest}
use zmux_python.Helpers.Limiter.{Op, polls, tries, charges}
use zmux_python.Helpers.Limiter.Balance.{Balanced, run, run-Balanced}
use zmux_python.Helpers.Splice.{Ends, Arguments, splice}
use zmux_python.Helpers.Splice.Taking.{Splices, tests, splice-Splices}

-- "SessionNonce"
abbrev session_nonce : Text
session_nonce = 83 ∷ 101 ∷ 115 ∷ 115 ∷ 105 ∷ 111 ∷ 110 ∷ 78 ∷ 111 ∷ 110 ∷ 99 ∷ 101 ∷ []

-- "session_nonce"
abbrev spelled : Text
spelled = 115 ∷ 101 ∷ 115 ∷ 115 ∷ 105 ∷ 111 ∷ 110 ∷ 95 ∷ 110 ∷ 111 ∷ 110 ∷ 99 ∷ 101 ∷ []

snake-session_nonce : snake session_nonce ≡ spelled
unfolding snake snake_rest
snake-session_nonce = refl

-- A limiter whose `ready` is still to count down, and then allows what was asked for at most.
abbrev start_ready : ℕ → ℕ → ℕ → PyResult ℕ × ℕ
start_ready least most w = if least == 0 then (err (raised "ValueError"), w) else (ok most, 1)

abbrev poll_fut : ℕ → ℕ → Poll (PyResult ℕ) × (ℕ × ℕ)
poll_fut f w = if w == 0 then (ready (ok f), (f, 0)) else (pending, (f, 0))

abbrev call_sync : ℕ → ℕ → PyResult ℕ × ℕ
call_sync n w = (ok n, w)

abbrev ops : List Op
ops = polls 1 9 ∷ tries 4 ∷ polls 2 5 ∷ charges 9 ∷ polls 0 5 ∷ polls 1 7 ∷ []

run-Balanced_example :
    Balanced ok start_ready poll_fut call_sync call_sync none
      (run ok start_ready poll_fut call_sync call_sync ops (record { world = 0; running = none }))
run-Balanced_example = run-Balanced ok start_ready poll_fut call_sync call_sync ops 0

-- A stream of parts 1 and 1, and another whose receiving part is taken.
abbrev ends : Ends ℕ ℕ
ends = record {
  a = record {
    send = record { busy = false; part = some 1 };
    recv = record { busy = false; part = some 1 };
  };
  b = record {
    send = record { busy = false; part = some 2 };
    recv = record { busy = false; part = none };
  };
}

abbrev arguments : Arguments
arguments = record {
  chunk = 65536;
  same_send = false;
  same_recv = false;
  limited = false;
  locals = ok tt;
}

splice-Splices_example : Splices some some (tests arguments) ends (splice some some arguments ends)
splice-Splices_example = splice-Splices some some arguments ends
