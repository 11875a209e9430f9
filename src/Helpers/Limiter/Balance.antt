-- ===== src/Helpers/Limiter/Balance.antt =====
-- src/helpers.rs, `PyLimiter`: each answer comes from one call of the Python limiter.
use zmux_python.Prelude.{
  ℕ, ◌+◌, ◌≡◌, refl, Bool, true, false, Option, none, some, List, [], ◌∷◌, PyErr, PyResult, ok, err,
  arith, is_some, All, ◌>>=◌,
}
use zmux_python.Layer.Channel.{Poll, ready, pending}
use zmux_python.Helpers.Limiter.{
  PyLimiter, Op, polls, tries, charges, Turn, Allowance, counted, allowance, poll_at, start_at,
  poll_ready, try_ready, charge,
}

-- A count as a number of calls
abbrev one_if : Bool → ℕ
one_if true = 1
one_if false = 0

abbrev is_ready : Poll ℕ → Bool
is_ready (ready n) = true
is_ready pending = false

-- An answer to which an exception was reported allows nothing, and only an answer reports one.
abbrev AllowsNothing : Poll ℕ → Option PyErr → Type 0
AllowsNothing (ready n) (some e) = n ≡ 0
AllowsNothing pending (some e) = ⊥
AllowsNothing answer none = Unit

-- What became of one call: the turn of a poll, or what the method of Python gave, with what
-- `try_ready` allows or what `charge` reports.
pub data Outcome (Obj : Type 0) : Type 0 where
  polled : Turn → Outcome Obj
  tried : PyResult Obj → Allowance → Outcome Obj
  charged : PyResult Obj → Option PyErr → Outcome Obj

-- The count that Python gave, or nothing for an exception, which is reported.
abbrev Allows : PyResult ℕ → Allowance → Type 0
Allows (ok n) a = (a.count ≡ n) × (a.unraisable ≡ none)
Allows (err e) a = (a.count ≡ 0) × (a.unraisable ≡ some e)

module _ {Obj : Type 0} where
  abbrev calls : List (Outcome Obj) → ℕ
  calls [] = 0
  calls (polled t ∷ ts) = one_if t.called + calls ts
  calls (o ∷ ts) = calls ts

  abbrev answers : List (Outcome Obj) → ℕ
  answers [] = 0
  answers (polled t ∷ ts) = one_if (is_ready t.answer) + answers ts
  answers (o ∷ ts) = answers ts

  abbrev Reports : PyResult Obj → Option PyErr → Type 0
  Reports (ok o) r = r ≡ none
  Reports (err e) r = r ≡ some e

  abbrev IsFair : (Obj → PyResult ℕ) → Outcome Obj → Type 0
  IsFair extract (polled t) = AllowsNothing t.answer t.reported
  IsFair extract (tried r a) = Allows (r >>= extract) a
  IsFair extract (charged r x) = Reports r x

module _ {World Fut Obj : Type 0} (extract : Obj → PyResult ℕ)
    (call_ready : ℕ → ℕ → World → PyResult Fut × World)
    (poll : Fut → World → Poll (PyResult Obj) × (Fut × World)) where
  allows :
      (r : PyResult ℕ)
      → AllowsNothing (ready (counted extract r).count) (counted extract r).unraisable
  allows (ok n) = tt
  allows (err e) = refl

  -- One poll
  abbrev Step : Option Fut → Turn × PyLimiter World Fut → Type 0
  Step before (t, l) =
      (one_if (is_some before) + one_if t.called
        ≡ one_if (is_ready t.answer) + one_if (is_some l.running))
      × AllowsNothing t.answer t.reported

  poll_turn :
      (called : Bool) (r : Poll (PyResult Obj) × (Fut × World)) (before : Option Fut)
      → one_if (is_some before) + one_if called ≡ 1
      → Step before (poll_at extract call_ready poll called r)
  unfolding poll_at allowance
  poll_turn called (ready r, (f, w)) before e = (omega arith, allows (r >>= extract))
  poll_turn called (pending, (f, w)) before e = (omega arith, tt)

  start_turn : (r : PyResult Fut × World) → Step none (start_at extract call_ready poll r)
  unfolding start_at allowance
  start_turn (err e, w) = (omega arith, refl)
  start_turn (ok f, w) = poll_turn true (poll f w) none (omega arith)

  ready_turn :
      (least most : ℕ) (w : World) (running : Option Fut)
      → Step running
          (poll_ready extract call_ready poll least most (record { world = w; running = running }))
  unfolding poll_ready
  ready_turn least most w none = start_turn (call_ready least most w)
  ready_turn least most w (some f) = poll_turn false (poll f w) (some f) (omega arith)

  module _ (call_try_ready call_charge : ℕ → World → PyResult Obj × World) where
    -- What became of each call, and the limiter at the end.
    unfoldable pub run : List Op → PyLimiter World Fut → List (Outcome Obj) × PyLimiter World Fut
    unfolding poll_ready try_ready charge
    run [] l = ([], l)
    run (polls least most ∷ ops) l =
        let (t, m) = poll_ready extract call_ready poll least most l in
        let (ts, end) = run ops m in (polled t ∷ ts, end)
    run (tries n ∷ ops) l =
        let (a, m) = try_ready extract call_try_ready n l in
        let (ts, end) = run ops m in (tried (call_try_ready n l.world).0 a ∷ ts, end)
    run (charges n ∷ ops) l =
        let (x, m) = charge extract call_charge n l in
        let (ts, end) = run ops m in (charged (call_charge n l.world).0 x ∷ ts, end)

    abbrev pub Balanced : Option Fut → List (Outcome Obj) × PyLimiter World Fut → Type 0
    Balanced before r =
        (one_if (is_some before) + calls r.0 ≡ answers r.0 + one_if (is_some r.1.running))
        × All (IsFair extract) r.0

    turns_add :
        (before : Option Fut) (r : Turn × PyLimiter World Fut)
        (rest : List (Outcome Obj) × PyLimiter World Fut)
        → Step before r
        → Balanced r.1.running rest
        → Balanced before (polled r.0 ∷ rest.0, rest.1)
    turns_add before (t, m) (ts, l) (e, a) (es, all) = (omega (arith, e, es), (a, all))

    tried_fairly : (r : PyResult Obj) → Allows (r >>= extract) (allowance extract r)
    unfolding allowance
    tried_fairly r = by_count (r >>= extract)
      where
        by_count : (c : PyResult ℕ) → Allows c (counted extract c)
        by_count (ok n) = (refl, refl)
        by_count (err e) = (refl, refl)

    charged_fairly :
        (n : ℕ) (l : PyLimiter World Fut) (r : PyResult Obj × World)
        → call_charge n l.world ≡ r
        → Reports r.0 (charge extract call_charge n l).0
    unfolding charge
    charged_fairly n l (ok o, w) e = rw e refl
    charged_fairly n l (err x, w) e = rw e refl

    run_from :
        (ops : List Op) (w : World) (running : Option Fut)
        → Balanced running (run ops (record { world = w; running = running }))
    unfolding run
    run_from [] w running = (omega arith, tt)
    run_from (polls least most ∷ ops) w running =
        let r =
          poll_ready extract call_ready poll least most (record { world = w; running = running }) in
        turns_add running r (run ops r.1) (ready_turn least most w running)
          (run_from ops r.1.world r.1.running)
    run_from (tries n ∷ ops) w running =
        let rest = run_from ops (call_try_ready n w).1 running in
        (rest.0, (tried_fairly (call_try_ready n w).0, rest.1))
    run_from (charges n ∷ ops) w running =
        let rest = run_from ops (call_charge n w).1 running in
        (
          rest.0,
          (
            charged_fairly n (record { world = w; running = running }) (call_charge n w) refl,
            rest.1,
          ),
        )

    -- In any order of calls of the limiter, `ready` was called once for each answer of a poll, and
    -- once more where a coroutine has not ended: a poll that finds one starts no second. A poll whose
    -- answer comes with a reported exception allows nothing, and no poll reports one without an
    -- answer. `try_ready` allows the count that Python gave, or nothing where it raised or gave no
    -- count, which alone it reports; `charge` reports what Python raised and nothing else.
    pub run-Balanced :
        (ops : List Op) (w : World) → Balanced none (run ops (record { world = w; running = none }))
    run-Balanced ops w = run_from ops w none
