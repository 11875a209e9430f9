-- ===== src/Helpers/Limiter.antt =====
-- src/helpers.rs, `PyLimiter`: a Python limiter as the limiter of a splice direction.
pub mod Balance
use zmux_python.Prelude.{ℕ, Bool, true, false, Option, none, some, PyErr, PyResult, ok, err, ◌>>=◌}
use zmux_python.Layer.Channel.{Poll, ready, pending}

-- The limiter: Python, which its calls change, and the coroutine of a call of `ready` that has not
-- ended.
pub record PyLimiter (World Fut : Type 0) : Type 0 where
  pub world : World
  pub running : Option Fut

-- What a poll did: its answer, whether it called `ready`, and what it reported as unraisable.
pub record Turn : Type 0 where
  pub answer : Poll ℕ
  pub called : Bool
  pub reported : Option PyErr

-- A call whose outcome is a count, and what it reported.
pub record Allowance : Type 0 where
  pub count : ℕ
  pub unraisable : Option PyErr

-- `extract` is PyO3's `usize`.
module _ {Obj : Type 0} (extract : Obj → PyResult ℕ) where
  abbrev pub counted : PyResult ℕ → Allowance
  counted (ok n) = record { count = n; unraisable = none }
  counted (err e) = record { count = 0; unraisable = some e }

  unfoldable pub allowance : PyResult Obj → Allowance
  allowance r = counted (r >>= extract)

-- The calls of Python: `call_ready` is `ready(min, max)` with `into_future`, `poll` a poll of the
-- future that gave.
module _ {World Fut Obj : Type 0} (extract : Obj → PyResult ℕ)
    (call_ready : ℕ → ℕ → World → PyResult Fut × World)
    (poll : Fut → World → Poll (PyResult Obj) × (Fut × World)) where
  abbrev answered : Bool → Allowance → Turn
  answered called a = record { answer = ready a.count; called = called; reported = a.unraisable }

  unfoldable pub poll_at : Bool → Poll (PyResult Obj) × (Fut × World) → Turn × PyLimiter World Fut
  unfolding allowance
  poll_at called (ready r, (f, w)) =
      (answered called (allowance extract r), record { world = w; running = none })
  poll_at called (pending, (f, w)) = (
    record { answer = pending; called = called; reported = none },
    record { world = w; running = some f },
  )

  unfoldable pub start_at : PyResult Fut × World → Turn × PyLimiter World Fut
  unfolding poll_at allowance
  start_at (err e, w) =
      (answered true (allowance extract (err e)), record { world = w; running = none })
  start_at (ok f, w) = poll_at true (poll f w)

  -- `PyLimiter::poll_ready`
  unfoldable pub poll_ready : ℕ → ℕ → PyLimiter World Fut → Turn × PyLimiter World Fut
  unfolding start_at
  poll_ready least most l = elim l.running [
    | none ↦ start_at (call_ready least most l.world)
    | some f ↦ poll_at false (poll f l.world)
  ]

abbrev failure : {Obj : Type 0} → PyResult Obj → Option PyErr
failure (ok o) = none
failure (err e) = some e

-- The calls of a limiter that the splice makes.
pub data Op : Type 0 where
  polls : ℕ → ℕ → Op
  tries charges : ℕ → Op

-- `call` is the method `try_ready` or `charge`.
module _ {World Fut Obj : Type 0} (extract : Obj → PyResult ℕ)
    (call : ℕ → World → PyResult Obj × World) where
  -- `PyLimiter::try_ready`
  unfoldable pub try_ready : ℕ → PyLimiter World Fut → Allowance × PyLimiter World Fut
  unfolding allowance
  try_ready most l = let (r, w) = call most l.world in (allowance extract r, record l { world = w })

  -- `PyLimiter::charge`, which reports what the call raised
  unfoldable pub charge : ℕ → PyLimiter World Fut → Option PyErr × PyLimiter World Fut
  charge n l = let (r, w) = call n l.world in (failure r, record l { world = w })
