-- ===== src/Rt/Gate.antt =====
-- src/rt.rs, `attach` and `_shutdown`: the gate that keeps the runtime's threads out of Python once
-- the interpreter is exiting. Each atomic access is one step, and any thread may move next.
pub mod Invariant
pub mod Safety
use zmux_python.Prelude.{
  ℕ, suc, ◌+◌, ◌-◌, ◌%◌, ◌^◌, Bool, true, false, Option, none, some, List, [], ◌∷◌, ltb,
  if◌then◌else◌, get_elem?, set,
}

-- Where a thread stands. `d` counts the calls of `attach` that it is inside of; a call may be
-- nested in another, when the closure or the Python code that it runs calls `attach` again.
pub data Pc : Type 0 where
  python : (d : ℕ) → Pc  -- no runtime thread
  run : (d : ℕ) → Pc  -- in the innermost closure, or outside of all for `d = 0`
  entering : (d : ℕ) → Pc  -- counted, before the load of EXITING
  refused : (d : ℕ) → Pc  -- EXITING was set, before `drop(leave)`
  admitted : (d : ℕ) → Pc  -- EXITING was not set, inside `Python::attach`
  returning : (d : ℕ) → Pc  -- the closure returned, before `drop(leave)`
  parked : (d : ℕ) → Pc  -- in the `park` loop, for good

-- The hook: before the call, in its loop, and after it, by the count or by the time.
pub data Hook : Type 0 where
  before waiting drained timed_out : Hook

pub record State : Type 0 where
  pub exiting : Bool  -- EXITING
  pub inflight : ℕ  -- INFLIGHT
  pub threads : List Pc
  pub hook : Hook

-- `fetch_add` and `fetch_sub` on an AtomicUsize
abbrev pub usize_mod : ℕ
usize_mod = 2 ^ 64

abbrev pub incr : ℕ → ℕ
incr n = (n + 1) % usize_mod

abbrev pub decr : ℕ → ℕ
decr n = (n + usize_mod - 1) % usize_mod

-- What a thread does: it calls `attach`, its closure returns, or the call under way goes on.
pub data Action : Type 0 where
  call finish proceed : Action

-- One step of `attach` in one thread, on INFLIGHT; `none` where the thread cannot act so.
pub attach_step : Bool → Action → Pc → ℕ → Option (Pc × ℕ)
attach_step ex call (python d) n = some (python (suc d), n)
attach_step ex finish (python (suc d)) n = some (python d, n)
attach_step ex call (run d) n = some (entering d, incr n)
attach_step ex proceed (entering d) n = some (if ex then refused d else admitted d, n)
attach_step ex proceed (refused d) n = some (parked d, decr n)
attach_step ex proceed (admitted d) n = some (run (suc d), n)
attach_step ex finish (run (suc d)) n = some (returning d, n)
attach_step ex proceed (returning d) n = some (run d, decr n)
attach_step ex _ _ n = none

-- One step of `_shutdown`: it closes the gate, then tests the count and the time. `late` says
-- whether `EXIT_WAIT` has passed; `Instant::now` is read after the count only.
pub shutdown_at : Hook → Bool → State → Option State
shutdown_at before late s = some (record s { exiting = true; hook = waiting })
shutdown_at waiting late s = some (
    if ltb 0 s.inflight
    then if late then record s { hook = timed_out } else s
    else record s { hook = drained })
shutdown_at _ late s = none

pub shutdown_step : Bool → State → Option State
unfolding shutdown_at
shutdown_step late s = shutdown_at s.hook late s

pub data Event : Type 0 where
  thread : (i : ℕ) → Action → Event
  shutdown : (late : Bool) → Event

abbrev moved : State → ℕ → Option (Pc × ℕ) → Option State
moved s i none = none
moved s i (some (p, n)) = some (record s { inflight = n; threads = set s.threads i p })

unfoldable pub step : Event → State → Option State
unfolding attach_step shutdown_step
step (thread i a) s = elim (get_elem? s.threads i) [
  | none ↦ none
  | some p ↦ moved s i (attach_step s.exiting a p s.inflight)
]
step (shutdown late) s = shutdown_step late s

-- A schedule: the events in the order of the atomic accesses.
unfoldable pub run_schedule : List Event → State → Option State
run_schedule [] s = some s
run_schedule (e ∷ es) s = elim (step e s) [ none ↦ none | some t ↦ run_schedule es t ]

abbrev pub start : List Pc → State
start threads = record { exiting = false; inflight = 0; threads = threads; hook = before }
