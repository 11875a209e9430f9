-- ===== src/Admission.antt =====
-- src/admission.rs: the exporter requests that `with_info` answers, and the decider written in Python.
pub mod Exporter
pub mod Decider
pub mod Credential
mod Tests
use zmux_python.Prelude.{
  ℕ, Bool, true, false, not, ◌&&◌, Option, none, some, List, [], ◌∷◌, ◌++◌, PyErr, value_error,
  PyResult, ok, err, if◌then◌else◌, ◌==◌,
}

-- A request of the Python side, `Ask`: an export with the place that waits for its reply, or the end
-- of the call.
pub data Ask (Req : Type 0) : Type 0 where
  export : (place : ℕ) → Req → Ask Req
  done : Ask Req

-- The thread of the carrier answers until the end of the call; then its receiver is dropped.
pub record Channel (Req Val : Type 0) : Type 0 where
  pub queue : List (Ask Req)
  pub returned : Bool  -- the call returned, and `done` was sent
  pub over : Bool  -- the receiver is dropped
  pub replies : List (ℕ × Option Val)

-- What happens: Python exports, from this call or later; the call returns; the carrier's thread
-- receives a request.
pub data Event (Req : Type 0) : Type 0 where
  asks : (place : ℕ) → Req → Event Req
  returns : Event Req
  answers : Event Req

module _ {Req Val : Type 0} where
  -- The requests that the receiver still holds when it is dropped: their replies never come.
  abbrev pub unanswered : List (Ask Req) → List (ℕ × Option Val)
  unanswered [] = []
  unanswered (export place r ∷ q) = (place, none) ∷ unanswered q
  unanswered (done ∷ q) = unanswered q

  -- `CarrierInfo.export`
  unfoldable pub ask_at : Bool → ℕ → Req → Channel Req Val → Channel Req Val
  ask_at true place r c = record c { replies = c.replies ++ (place, none) ∷ [] }
  ask_at false place r c = record c { queue = c.queue ++ export place r ∷ [] }

  unfoldable pub return_at : Bool → Channel Req Val → Channel Req Val
  return_at true c = c
  return_at false c = record c { returned = true; queue = c.queue ++ done ∷ [] }

  -- The loop of `with_info`, one turn; `give` is the carrier's exporter.
  unfoldable pub answer_at :
      (Req → Option Val) → Bool → List (Ask Req) → Channel Req Val → Channel Req Val
  answer_at give true q c = c
  answer_at give false [] c = c
  answer_at give false (export place r ∷ q) c = record c {
    queue = q;
    replies = c.replies ++ (place, give r) ∷ [];
  }
  answer_at give false (done ∷ q) c = record c {
    queue = [];
    over = true;
    replies = c.replies ++ unanswered q;
  }

  unfoldable pub step : (Req → Option Val) → Event Req → Channel Req Val → Channel Req Val
  unfolding ask_at return_at answer_at
  step give (asks place r) c = ask_at c.over place r c
  step give returns c = return_at c.returned c
  step give answers c = answer_at give c.over c.queue c

  unfoldable pub run : (Req → Option Val) → List (Event Req) → Channel Req Val → Channel Req Val
  unfolding step
  run give [] c = c
  run give (e ∷ es) c = run give es (step give e c)

abbrev pub opened : {Req Val : Type 0} → Channel Req Val
opened = record { queue = []; returned = false; over = false; replies = [] }

-- A verdict as Python holds it, with objects `O` for the value of an accept.
pub data Verdict (O : Type 0) : Type 0 where
  accept : (skip : ℕ) (value : Option O) → Verdict O
  fallback stall close : Verdict O

-- `zmux::Verdict`: `accept`, alone or with a value, and the others.
pub data Native (O : Type 0) : Type 0 where
  accepted : (skip : ℕ) → Native O
  accepted_with : (skip : ℕ) → O → Native O
  falls_back stalls closes : Native O

-- What an object that the decider gives is: a verdict, or something else.
pub data Given (O : Type 0) : Type 0 where
  verdict_obj : Verdict O → Given O
  other_obj : Given O

-- What a call of the decider gives: it raises, it gives an object, or a coroutine with what that
-- comes to, where it can be started on the loop.
pub data Called (O : Type 0) : Type 0 where
  raises : PyErr → Called O
  gives : Given O → Called O
  awaits : (started : PyResult (Unit {0})) (result : PyResult (Given O)) → Called O

abbrev pub no_loop : PyErr
no_loop = value_error "an async decide needs its Listener made inside a running event loop"

module _ {O : Type 0} where
  -- `Verdict::native`
  unfoldable pub native : Verdict O → Native O
  native (accept skip none) = accepted skip
  native (accept skip (some o)) = accepted_with skip o
  native fallback = falls_back
  native stall = stalls
  native close = closes

  -- `PyDecide::verdict`: anything but a verdict closes.
  unfoldable pub verdict : PyResult (Given O) → Native O
  unfolding native
  verdict (ok (verdict_obj v)) = native v
  verdict (ok other_obj) = closes
  verdict (err e) = closes

  -- `PyDecide::start` and what its future comes to: `called` is what `with_info` gives, which may
  -- fail itself; `has_locals` says whether an event loop was taken.
  unfoldable pub start : Bool → PyResult (Called O) → PyResult (Given O)
  start has_locals (err e) = err (value_error "with_info failed")
  start has_locals (ok (raises e)) = err e
  start has_locals (ok (gives g)) = ok g
  start false (ok (awaits started result)) = err no_loop
  start true (ok (awaits (err e) result)) = err e
  start true (ok (awaits (ok u) result)) = result

  -- `Decide::decide`
  unfoldable pub decide : Bool → PyResult (Called O) → Native O
  unfolding verdict start
  decide has_locals called = verdict (start has_locals called)

  -- `Verdict.__eq__` of two values, with Python's `==` of the values
  unfoldable pub values_eq : (O → O → PyResult Bool) → Option O → Option O → PyResult Bool
  values_eq eq none none = ok true
  values_eq eq (some x) (some y) = eq x y
  values_eq eq x y = ok false

  unfoldable pub verdicts_eq : (O → O → PyResult Bool) → Verdict O → Verdict O → PyResult Bool
  unfolding values_eq
  verdicts_eq eq (accept a x) (accept b y) = if a == b then values_eq eq x y else ok false
  verdicts_eq eq fallback fallback = ok true
  verdicts_eq eq stall stall = ok true
  verdicts_eq eq close close = ok true
  verdicts_eq eq v w = ok false
