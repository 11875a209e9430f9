-- ===== src/Rt/Awaited/Invariant.antt =====
-- src/rt.rs, `into_future`: no task outlives its Rust future uncancelled, and no result is lost.
use zmux_python.Prelude.{
  ℕ, ◌≤◌, ◌≡◌, refl, ◌≢◌, ◌⊎◌, true, false, none, some, List, [], ◌∷◌, arith, is_some,
}
use zmux_python.Rt.Awaited.{
  in_start, in_done, used, lost, Coroutine, fresh, unstarted, refused, running, ended, abandoned,
  Rust, awaiting, returned, orphaned, dropped, Bridge, initial, Event, start, poll, drop, step, run,
}

-- What each state of the awaitable says of the rest.
abbrev pub Fits : {R : Type 0} → Coroutine → Bridge R → Type 0
Fits fresh b = (b.awaitable ≡ true) × (b.tx ≡ in_start) × (b.task ≡ false) × (b.cancels ≡ 0)
Fits running b =
    (b.awaitable ≡ false)
    × (b.tx ≡ in_done)
    × ((b.task ≡ true) × (b.cancels ≡ 0) × (b.slot_dropped ≡ false)
        ⊎ (b.task ≡ false) × (b.cancels ≡ 1) × (b.slot_dropped ≡ true))
Fits ended b =
    (b.awaitable ≡ false)
    × (b.tx ≡ used)
    × (is_some b.received ≡ true)
    × ((b.task ≡ true) × (b.cancels ≡ 0) × (b.slot_dropped ≡ false)
        ⊎ (b.task ≡ false) × (b.cancels ≡ 1) × (b.slot_dropped ≡ true))
Fits abandoned b =
    (b.awaitable ≡ false)
    × (b.tx ≡ lost)
    × ((b.task ≡ true) × (b.cancels ≡ 0) × (b.slot_dropped ≡ false)
        ⊎ (b.task ≡ false) × (b.cancels ≡ 1) × (b.slot_dropped ≡ true))
Fits unstarted b = (b.awaitable ≡ false) × (b.tx ≡ lost) × (b.task ≡ false) × (b.cancels ≡ 0)
Fits refused b =
    (b.awaitable ≡ false) × (b.tx ≢ used) × (b.tx ≢ in_done) × (b.task ≡ false) × (b.cancels ≡ 0)
Fits c b =
    (b.awaitable ≡ false)
    × (b.tx ≢ used)
    × (b.tx ≢ in_done)
    × (b.task ≡ false)
    × (b.cancels ≡ 0)
    × (b.slot_dropped ≡ true)

abbrev pub Result : {R : Type 0} → Rust R → Bridge R → Type 0
Result awaiting b = b.slot_dropped ≡ false
Result (returned r) b = (b.slot_dropped ≡ false) × (b.received ≡ some r)
Result orphaned b = (b.slot_dropped ≡ false) × (b.tx ≡ lost) × (b.received ≡ none)
Result dropped b = b.slot_dropped ≡ true

pub record Inv {R : Type 0} (b : Bridge R) : Type 0 where
  pub awaitable_fits : Fits b.coroutine b
  pub rust_fits : Result b.rust b
  pub unsent : b.tx ≢ used → b.received ≡ none

module _ {R : Type 0} where
  step-Inv : (e : Event R) (b : Bridge R) → Inv b → Inv (step e b)
  unfolding step
  step-Inv (start h r) b inv = ground arith
  step-Inv e b inv = ground arith

  run-Inv : (es : List (Event R)) (b : Bridge R) → Inv b → Inv (run es b)
  unfolding run
  run-Inv [] b inv = inv
  run-Inv (e ∷ es) b inv = run-Inv es (step e b) (step-Inv e b inv)

  initial-Inv : Inv (initial {R = R})
  initial-Inv = ground arith

  pub reached-Inv : (es : List (Event R)) → Inv (run es initial)
  reached-Inv es = run-Inv es initial initial-Inv

  -- How often the task is cancelled, by what became of the Rust future and of the awaitable.
  abbrev pub Cancels : Rust R → Coroutine → ℕ → Type 0
  Cancels dropped running n = n ≡ 1
  Cancels dropped abandoned n = n ≡ 1
  Cancels dropped c n = n ≤ 1
  Cancels rust c n = n ≡ 0

  Inv-Cancels :
      (rust : Rust R) (c : Coroutine) (b : Bridge R)
      → b.rust ≡ rust
      → b.coroutine ≡ c
      → Inv b
      → Cancels rust c b.cancels
  Inv-Cancels dropped running b er ec inv = ground arith
  Inv-Cancels dropped abandoned b er ec inv = ground arith
  Inv-Cancels dropped c b er ec inv = ground arith
  Inv-Cancels rust c b er ec inv = ground arith

  -- In every order of events: the task is cancelled at most once, and only if the Rust future was
  -- dropped before its result; a future that is dropped leaves no task running that is not
  -- cancelled.
  pub run-cancels :
      (es : List (Event R)) → let b = run es initial in Cancels b.rust b.coroutine b.cancels
  run-cancels es =
      Inv-Cancels (run es initial).rust (run es initial).coroutine (run es initial) refl refl
        (reached-Inv es)

  -- What the Rust future comes to, by the awaitable: a result of the task that ended, which a poll
  -- gives to a future that waits, or `CancelledError`, where the task was refused, the loop dropped
  -- the awaitable before it was started or the task's `Done` before it was called; in the latter two
  -- cases a poll gives it to a future that waits.
  abbrev pub Returns : Rust R → Coroutine → Bridge R → Type 0
  Returns (returned r) ended b = b.received ≡ some r
  Returns (returned r) c b = ⊥
  Returns awaiting ended b = (r : R) × (b.received ≡ some r) × ((step poll b).rust ≡ returned r)
  Returns awaiting unstarted b = (step poll b).rust ≡ orphaned
  Returns awaiting abandoned b = (step poll b).rust ≡ orphaned
  Returns orphaned refused b = Unit
  Returns orphaned unstarted b = Unit
  Returns orphaned abandoned b = Unit
  Returns orphaned c b = ⊥
  Returns rust c b = Unit

  ended_result : (b : Bridge R) → Inv b → b.coroutine ≡ ended → (r : R) × (b.received ≡ some r)
  ended_result b inv e = ground arith

  Inv-Returns :
      (rust : Rust R) (c : Coroutine) (b : Bridge R)
      → b.rust ≡ rust
      → b.coroutine ≡ c
      → Inv b
      → Returns rust c b
  unfolding step
  Inv-Returns (returned r) c b er ec inv = ground arith
  Inv-Returns awaiting ended b er ec inv =
      let (r, got) = ended_result b inv ec in (r, got, ground arith)
  Inv-Returns awaiting unstarted b er ec inv = ground arith
  Inv-Returns awaiting abandoned b er ec inv = ground arith
  Inv-Returns awaiting c b er ec inv = ground arith
  Inv-Returns orphaned c b er ec inv = ground arith
  Inv-Returns dropped c b er ec inv = tt

  -- In every order of events: the Rust future returns only what the task ended with; once the task
  -- has ended and `Done` was called, a poll of a future that waits returns that; and it returns
  -- `CancelledError` only where `ensure_future` raised, or where the awaitable was dropped before it
  -- was started or `Done` before it was called, in which a poll of a future that waits returns it.
  pub run-result : (es : List (Event R)) → let b = run es initial in Returns b.rust b.coroutine b
  run-result es =
      Inv-Returns (run es initial).rust (run es initial).coroutine (run es initial) refl refl
        (reached-Inv es)

  -- An awaitable whose future is dropped before the loop starts it never runs.
  abbrev NeverRuns : Bridge R → Type 0
  NeverRuns b =
      (b.slot_dropped ≡ true)
      × (b.rust ≡ dropped)
      × (b.coroutine ≢ running)
      × (b.coroutine ≢ ended)
      × (b.cancels ≡ 0)

  step-NeverRuns : (e : Event R) (b : Bridge R) → NeverRuns b → NeverRuns (step e b)
  unfolding step
  step-NeverRuns (start h r) b n = ground arith
  step-NeverRuns e b n = ground arith

  run-NeverRuns : (es : List (Event R)) (b : Bridge R) → NeverRuns b → NeverRuns (run es b)
  unfolding run
  run-NeverRuns [] b n = n
  run-NeverRuns (e ∷ es) b n = run-NeverRuns es (step e b) (step-NeverRuns e b n)

  -- If the Rust future is dropped before the loop has started the awaitable, the awaitable is never
  -- run, whatever happens next: when the loop comes to it, it is closed.
  pub drop_before_start :
      (es fs : List (Event R))
      → (run es initial).coroutine ≡ fresh
      → (run es initial).rust ≡ awaiting
      → let b = run fs (step drop (run es initial)) in
        (b.coroutine ≢ running) × (b.coroutine ≢ ended) × (b.cancels ≡ 0)
  unfolding step
  drop_before_start es fs at waits =
      let n =
        run-NeverRuns fs (step drop (run es initial))
          (gone (run es initial) (reached-Inv es) at waits) in
      (n.2, n.3, n.4)
    where
      gone :
          (b : Bridge R) → Inv b → b.coroutine ≡ fresh → b.rust ≡ awaiting → NeverRuns (step drop b)
      gone b inv at waits = ground arith
