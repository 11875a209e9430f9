-- ===== src/Rt/BridgeTests.antt =====
-- src/rt.rs, `into_future` and `future_into_py` at concrete inputs.
use zmux_python.Prelude.{ℕ, ◌≡◌, refl, ◌≢◌, true, false, none, some, List, [], ◌∷◌}
use zmux_python.Rt.Awaited
use zmux_python.Rt.Awaited.Invariant.{Cancels, run-cancels, Returns, run-result}
use zmux_python.Rt.Completion
use zmux_python.Rt.Completion.Invariant.{
  Explains, run-target, cancel_drops, run-cancelled, unawaited_runs,
}

-- The task is started, then the Rust future is dropped.
abbrev given_up : List (Awaited.Event ℕ)
given_up = Awaited.start true false ∷ Awaited.drop ∷ []

run-cancels_example :
    let b = Awaited.run given_up Awaited.initial in Cancels b.rust b.coroutine b.cancels
run-cancels_example = run-cancels given_up

abbrev delivered : List (Awaited.Event ℕ)
delivered = Awaited.start true false ∷ Awaited.done 5 ∷ Awaited.poll ∷ []

run-result_example : let b = Awaited.run delivered Awaited.initial in Returns b.rust b.coroutine b
run-result_example = run-result delivered

-- The future is cancelled while the Rust future runs, and its callback has run.
abbrev cancelled_first : List (Completion.Event ℕ)
cancelled_first = Completion.cancel ∷ Completion.callback ∷ []

run-target_example :
    let b = Completion.run cancelled_first Completion.initial in Explains b.target b.task b.produced
run-target_example = run-target cancelled_first

cancel_drops_example :
    (Completion.step (Completion.poll (some 5)) (
      Completion.step Completion.callback
        (Completion.step Completion.cancel (Completion.run [] (Completion.initial {R = ℕ}))))).task
    ≡ Completion.Task.aborted
unfolding Completion.run
cancel_drops_example = cancel_drops {R = ℕ} [] (some 5) refl refl

run-cancelled_example :
    (Completion.run
      (Completion.poll (some 5) ∷ Completion.hand_over true ∷ Completion.complete ∷ [])
      (Completion.step Completion.cancel (Completion.initial {R = ℕ}))).target
    ≡ Completion.Target.cancelled
unfolding Completion.step
run-cancelled_example =
    run-cancelled (Completion.poll (some 5) ∷ Completion.hand_over true ∷ Completion.complete ∷ [])
      (Completion.step Completion.cancel (Completion.initial {R = ℕ})) refl

unawaited_runs_example :
    (Completion.run
      (Completion.forget ∷ Completion.collect ∷ Completion.poll none ∷ [])
      (Completion.initial {R = ℕ})).task
    ≢ Completion.Task.aborted
unawaited_runs_example =
    unawaited_runs {R = ℕ} (Completion.forget ∷ Completion.collect ∷ Completion.poll none ∷ [])
      (tt, (tt, (tt, tt)))
