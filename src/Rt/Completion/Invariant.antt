-- ===== src/Rt/Completion/Invariant.antt =====
-- src/rt.rs, `future_into_py`: what `target` may come to, and when the Rust future is dropped.
use zmux_python.Prelude.{◌≡◌, refl, ◌≢◌, Option, none, some, List, [], ◌∷◌, arith, All}
use zmux_python.Rt.Completion.{
  Target, pending, cancelled, resolved, Task, running, finished, scheduled, over, aborted, used,
  collected, Bridge, initial, Event, cancel, callback, poll, step, run,
}

abbrev Fits : {R : Type 0} → Task R → Bridge R → Type 0
Fits running b = (b.cancel_tx ≢ collected) × (b.produced ≡ none)
Fits (finished r) b = b.produced ≡ some r
Fits (scheduled r) b = b.produced ≡ some r
Fits over b = Unit
Fits aborted b = (b.target ≡ cancelled) × (b.produced ≡ none)

abbrev Result : {R : Type 0} → Target R → Bridge R → Type 0
Result pending b = b.cancel_tx ≢ used
Result cancelled b = Unit
Result (resolved r) b = (b.produced ≡ some r) × (b.task ≡ over) × (b.cancel_tx ≢ used)

record Inv {R : Type 0} (b : Bridge R) : Type 0 where
  task_fits : Fits b.task b
  target_fits : Result b.target b

module _ {R : Type 0} where
  step-Inv : (e : Event R) (b : Bridge R) → Inv b → Inv (step e b)
  unfolding step
  step-Inv cancel b inv = ground arith
  step-Inv e b inv = ground arith

  run-Inv : (es : List (Event R)) (b : Bridge R) → Inv b → Inv (run es b)
  unfolding run
  run-Inv [] b inv = inv
  run-Inv (e ∷ es) b inv = run-Inv es (step e b) (step-Inv e b inv)

  reached-Inv : (es : List (Event R)) → Inv (run es initial)
  reached-Inv es = run-Inv es initial (ground arith)

  -- What `target` came to, by what became of the Rust future and what it ended with.
  abbrev pub Explains : Target R → Task R → Option R → Type 0
  Explains (resolved r) aborted p = ⊥
  Explains (resolved r) t p = p ≡ some r
  Explains cancelled aborted p = p ≡ none
  Explains pending aborted p = ⊥
  Explains target t p = Unit

  Inv-Explains :
      (target : Target R) (t : Task R) (b : Bridge R)
      → b.target ≡ target
      → b.task ≡ t
      → Inv b
      → Explains target t b.produced
  Inv-Explains (resolved r) t b et ek inv = ground arith
  Inv-Explains cancelled t b et ek inv = ground arith
  Inv-Explains pending t b et ek inv = ground arith

  -- In every order of events: `target` is resolved only with what the Rust future ended with, and
  -- a Rust future that was dropped had its `target` cancelled and gave nothing.
  pub run-target :
      (es : List (Event R)) → let b = run es initial in Explains b.target b.task b.produced
  run-target es =
      Inv-Explains (run es initial).target (run es initial).task (run es initial) refl refl
        (reached-Inv es)

  -- When the application cancels a `target` that is pending while the Rust future runs, then once
  -- the callback has run the next poll drops the Rust future, whatever it would give.
  pub cancel_drops :
      (es : List (Event R)) (ready : Option R)
      → (run es initial).target ≡ pending
      → (run es initial).task ≡ running
      → (step (poll ready) (step callback (step cancel (run es initial)))).task ≡ aborted
  unfolding step
  cancel_drops es ready waits runs = drops (run es initial) (reached-Inv es) waits runs
    where
      drops :
          (b : Bridge R)
          → Inv b
          → b.target ≡ pending
          → b.task ≡ running
          → (step (poll ready) (step callback (step cancel b))).task ≡ aborted
      drops b inv waits runs = ground arith

  step-cancelled :
      (e : Event R) (b : Bridge R) → b.target ≡ cancelled → (step e b).target ≡ cancelled
  unfolding step
  step-cancelled cancel b c = ground arith
  step-cancelled e b c = ground arith

  -- A cancelled `target` stays cancelled: no result is set on it later.
  pub run-cancelled :
      (es : List (Event R)) (b : Bridge R) → b.target ≡ cancelled → (run es b).target ≡ cancelled
  unfolding run
  run-cancelled [] b c = c
  run-cancelled (e ∷ es) b c = run-cancelled es (step e b) (step-cancelled e b c)

  abbrev pub NotCancel : Event R → Type 0
  NotCancel cancel = ⊥
  NotCancel e = Unit

  step-ne-cancelled :
      (e : Event R) (b : Bridge R)
      → NotCancel e
      → b.target ≢ cancelled
      → (step e b).target ≢ cancelled
  unfolding step
  step-ne-cancelled cancel b h u = absurd h
  step-ne-cancelled e b h u = ground arith

  run-ne-cancelled :
      (es : List (Event R)) (b : Bridge R)
      → All NotCancel es
      → b.target ≢ cancelled
      → (run es b).target ≢ cancelled
  unfolding run
  run-ne-cancelled [] b h u = u
  run-ne-cancelled (e ∷ es) b h u = run-ne-cancelled es (step e b) h.1 (step-ne-cancelled e b h.0 u)

  -- Without a call of `cancel` the Rust future is never dropped, also when the application has
  -- dropped `target` without awaiting it: the spawned block keeps it alive.
  pub unawaited_runs : (es : List (Event R)) → All NotCancel es → (run es initial).task ≢ aborted
  unawaited_runs es h =
      go (run es initial) (reached-Inv es) (run-ne-cancelled es initial h (λ e. cc))
    where
      go : (b : Bridge R) → Inv b → b.target ≢ cancelled → b.task ≢ aborted
      go b inv u = ground arith
