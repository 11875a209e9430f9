-- ===== src/Rt/Tests.antt =====
-- src/rt.rs at concrete inputs.
use zmux_python.Prelude.{◌≡◌, refl, ◌≢◌, true, false, some, List, [], ◌∷◌, arith, All, get_elem?}
use zmux_python.Rt.Gate.{
  Pc, python, run, entering, admitted, parked, Hook, waiting, timed_out, drained, State, call,
  finish, proceed, Event, thread, shutdown, step, run_schedule, start,
}
use zmux_python.Rt.Gate.Invariant.{IsOutside}
use zmux_python.Rt.Gate.Safety.{
  drained-IsOutside, attached_never_grows, NoneBegun, nested_park_blocks,
}

-- Thread 0 calls and returns from `attach`; thread 1 comes too late; thread 2 is Python's.
abbrev threads : List Pc
threads = run 0 ∷ run 0 ∷ python 0 ∷ []

abbrev one_late : List Event
one_late =
    thread 0 call
    ∷ thread 0 proceed
    ∷ thread 0 proceed
    ∷ thread 2 call
    ∷ thread 1 call
    ∷ shutdown false
    ∷ thread 0 finish
    ∷ shutdown false
    ∷ thread 1 proceed
    ∷ thread 0 proceed
    ∷ thread 1 proceed
    ∷ shutdown true
    ∷ []

abbrev all_out : State
all_out = record {
  exiting = true;
  inflight = 0;
  threads = run 0 ∷ parked 0 ∷ python 1 ∷ [];
  hook = drained;
}

one_late_run : run_schedule one_late (start threads) ≡ some all_out
unfolding run_schedule step
one_late_run = refl

drained-IsOutside_example : All IsOutside all_out.threads
drained-IsOutside_example =
    drained-IsOutside threads one_late (omega arith) (omega arith) one_late_run refl

-- Thread 0 passed the check before the hook ran, thread 1 did not.
abbrev closing : State
closing = record {
  exiting = true;
  inflight = 2;
  threads = admitted 0 ∷ entering 0 ∷ [];
  hook = waiting;
}

abbrev closed : State
closed = record { exiting = true; inflight = 1; threads = run 1 ∷ parked 0 ∷ []; hook = waiting }

closing_run :
    run_schedule (thread 0 proceed ∷ thread 1 proceed ∷ thread 1 proceed ∷ []) closing ≡ some closed
unfolding run_schedule step
closing_run = refl

attached_never_grows_example : NoneBegun closing closed 1 (entering 0)
attached_never_grows_example =
    attached_never_grows (thread 0 proceed ∷ thread 1 proceed ∷ thread 1 proceed ∷ []) closing 1
      (entering 0) closing_run refl refl

-- The closure of thread 0 calls `attach` again just after the gate was closed.
abbrev nested : List Event
nested =
    thread 0 call
    ∷ thread 0 proceed
    ∷ thread 0 proceed
    ∷ thread 0 call
    ∷ shutdown false
    ∷ thread 0 proceed
    ∷ thread 0 proceed
    ∷ []

abbrev stuck : Hook → State
stuck h = record { exiting = true; inflight = 1; threads = parked 1 ∷ []; hook = h }

nested-run : run_schedule nested (start (run 0 ∷ [])) ≡ some (stuck waiting)
unfolding run_schedule step
nested-run = refl

late_run :
    run_schedule (shutdown false ∷ shutdown true ∷ []) (stuck waiting) ≡ some (stuck timed_out)
unfolding run_schedule step
late_run = refl

nested_park_blocks_example : (timed_out ≢ drained) × (get_elem? (parked 1 ∷ []) 0 ≡ some (parked 1))
nested_park_blocks_example =
    nested_park_blocks (run 0 ∷ []) nested (shutdown false ∷ shutdown true ∷ []) 0 0 (omega arith)
      (omega arith) nested-run refl late_run
