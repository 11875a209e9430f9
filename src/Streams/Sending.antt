-- ===== src/Streams/Sending.antt =====
-- src/lib.rs, `SendStream`: the guards of each call in their order, and what becomes of the part.
use zmux_python.Prelude.{
  ℕ, zero, suc, String, ◌≡◌, refl, sym, arith, ◌==◌, PyErr, value_error, raise_if, ◌⊎◌, inl, inr,
  Bool, true, false, Bool-cases, Option, none, some, PyResult, ok, err,
}
use mathlib.Core.Path.{subst}
use zmux_python.Prelude.Stateful.{lift, ◌>>◌}
use zmux_python.Handles.Parts.{Part}
use zmux_python.Streams.{
  CrateResult, done, failed, on_held, on_now, Answer, truth, SendCall, Zmux, do_send, send_aexit,
  finished, varint, new_priority_at, find_scheduler, on_now_with,
}
use zmux_python.Streams.Steps.{
  part_of, failure, Steps, Guarded, call_of, on_held-Guarded, on_now-Guarded, on_now_with-Guarded,
  lift-Steps,
}

abbrev pub refused : {A : Type 0} → Option A → String → Option PyErr
refused none text = some (value_error text)
refused (some a) text = none

not_zero : (n : ℕ) → (suc n == 0) ≡ false
not_zero n = ground arith

-- The calls that wait for an operation in progress.
abbrev pub send_waits : SendCall → Bool
send_waits SendCall.write = true
send_waits (SendCall.write_chunk lent) = true
send_waits SendCall.finish = true
send_waits (SendCall.reset code) = true
send_waits (SendCall.wait_send_capacity least) = true
send_waits SendCall.stopped = true
send_waits c = false

module _ (z : Zmux) where
  open z use {
    Send, Recv, Err, send, finish_part, reset_part, is_closed_locally, to_py, from_u64,
    new_priority, find_policy,
  }

  abbrev pub Ended : CrateResult Err (Unit {0}) → PyResult Answer → Type 0
  Ended (done u) r = r ≡ ok (truth false)
  Ended (failed e) r =
      ((is_closed_locally e ≡ true) × (r ≡ ok (truth false)))
      ⊎ ((is_closed_locally e ≡ false) × (r ≡ err (to_py e)))

  -- What an argument is refused with before the part is looked at, and after that.
  abbrev pub send_early : SendCall → Option PyErr
  send_early (SendCall.write_chunk lent) = failure lent
  send_early (SendCall.reset code) = refused (from_u64 code) "code exceeds 2**62-1"
  send_early (SendCall.wait_send_capacity zero) = some (value_error "min is at least 1")
  send_early (SendCall.set_scheduler (some name)) = failure (find_policy name)
  send_early c = none

  abbrev pub send_late : SendCall → Option PyErr
  send_late (SendCall.set_priority u) = refused (new_priority u) "urgency out of range"
  send_late c = none

  -- Leaving an `async with`: a normal exit finishes the part, an exception resets it with code 0;
  -- a handle that was used up is left alone.
  abbrev pub Exits : Bool → Option Send → PyResult Answer → Option Send → Type 0
  Exits normal none r part = (r ≡ ok (truth false)) × (part ≡ none)
  Exits false (some s) r part = (r ≡ ok (truth false)) × (part ≡ some (reset_part 0 s).1)
  Exits true (some s) r part = Ended (finish_part s).0 r × (part ≡ some (finish_part s).1)

  abbrev pub Sends : SendCall → Bool → Option Send → PyResult Answer × Part Send → Type 0
  Sends (SendCall.aexit normal) busy part x = (x.1.busy ≡ busy) × Exits normal part x.0 x.1.part
  Sends c busy part x =
      Steps (send_early c) (send_waits c) (send_late c) (call_of to_py (send c)) busy part x

  finished-Ended : (r : CrateResult Err (Unit {0})) → Ended r (finished z r)
  unfolding finished
  finished-Ended (done u) = refl
  finished-Ended (failed e) = elim (Bool-cases (is_closed_locally e)) [
    | inl h ↦ inl (h, rw h refl)
    | inr h ↦ inr (h, rw h refl)
  ]

  send_aexit-Sends :
      (normal busy : Bool) (part : Option Send)
      → Sends (SendCall.aexit normal) busy part (send_aexit z normal part (part_of busy part))
  unfolding send_aexit
  send_aexit-Sends true busy none = (refl, (refl, refl))
  send_aexit-Sends false busy none = (refl, (refl, refl))
  send_aexit-Sends true busy (some s) = (refl, (finished-Ended (finish_part s).0, refl))
  send_aexit-Sends false busy (some s) = (refl, (refl, refl))

  pub code_refused :
      (code : ℕ) → failure (varint z code) ≡ refused (from_u64 code) "code exceeds 2**62-1"
  unfolding varint
  code_refused code = at_code (from_u64 code)
    where
      at_code :
          (o : Option ℕ)
          → failure (elim o [ none ↦ err (value_error "code exceeds 2**62-1") | some v ↦ ok v ])
            ≡ refused o "code exceeds 2**62-1"
      at_code none = refl
      at_code (some v) = refl

  pub urgency_refused :
      (u : ℕ) → failure (new_priority_at z u) ≡ refused (new_priority u) "urgency out of range"
  unfolding new_priority_at
  urgency_refused u = at_urgency (new_priority u)
    where
      at_urgency :
          (o : Option ℕ)
          → failure (elim o [ none ↦ err (value_error "urgency out of range") | some v ↦ ok v ])
            ≡ refused o "urgency out of range"
      at_urgency none = refl
      at_urgency (some v) = refl

  scheduler_refused :
      (o : Option String) → failure (find_scheduler z o) ≡ send_early (SendCall.set_scheduler o)
  unfolding find_scheduler
  scheduler_refused none = refl
  scheduler_refused (some name) = at_policy (find_policy name)
    where
      at_policy :
          (r : PyResult ℕ) → failure (elim r [ ok p ↦ ok (some p) | err e ↦ err e ]) ≡ failure r
      at_policy (ok p) = refl
      at_policy (err e) = refl

  do_send-Sends_at :
      (c : SendCall) (busy : Bool) (part : Option Send)
      → Sends c busy part (do_send z c (part_of busy part))
  unfolding do_send
  do_send-Sends_at (SendCall.aexit normal) busy part = send_aexit-Sends normal busy part
  do_send-Sends_at SendCall.write busy part = on_held-Guarded to_py (send SendCall.write) busy part
  do_send-Sends_at SendCall.finish busy part =
      on_held-Guarded to_py (send SendCall.finish) busy part
  do_send-Sends_at SendCall.stopped busy part =
      on_held-Guarded to_py (send SendCall.stopped) busy part
  do_send-Sends_at (SendCall.write_chunk lent) busy part =
      let m = send (SendCall.write_chunk lent) in
      lift-Steps lent (on_held to_py m) true none (call_of to_py m) busy part
        (on_held-Guarded to_py m busy part)
  do_send-Sends_at (SendCall.reset code) busy part =
      let m = send (SendCall.reset code) in
      subst
        (λ early.
          Steps early true none (call_of to_py m) busy part
            ((lift (varint z code) >> on_held to_py m) (part_of busy part)))
        (code_refused code)
        (lift-Steps (varint z code) (on_held to_py m) true none (call_of to_py m) busy part
          (on_held-Guarded to_py m busy part))
  do_send-Sends_at (SendCall.set_scheduler o) busy part =
      let m = send (SendCall.set_scheduler o) in
      subst
        (λ early.
          Steps early false none (call_of to_py m) busy part
            ((lift (find_scheduler z o) >> on_now to_py m) (part_of busy part)))
        (scheduler_refused o)
        (lift-Steps (find_scheduler z o) (on_now to_py m) false none (call_of to_py m) busy part
          (on_now-Guarded to_py m busy part))
  do_send-Sends_at (SendCall.set_priority u) busy part =
      let m = send (SendCall.set_priority u) in
      subst
        (λ late.
          Guarded false late (call_of to_py m) busy part
            (on_now_with (new_priority_at z u) to_py (λ _. m) (part_of busy part)))
        (urgency_refused u) (on_now_with-Guarded to_py m (new_priority_at z u) busy part)
  do_send-Sends_at (SendCall.wait_send_capacity zero) busy part = refl
  do_send-Sends_at (SendCall.wait_send_capacity (suc n)) busy part =
      let m = send (SendCall.wait_send_capacity (suc n)) in
      subst
        (λ b. Guarded true none (call_of to_py m) busy part (
          (lift (raise_if b (value_error "min is at least 1")) >> on_held to_py m)
            (part_of busy part)))
        (sym (not_zero n)) (on_held-Guarded to_py m busy part)
  do_send-Sends_at c busy part = on_now-Guarded to_py (send c) busy part

  -- Each call is stopped, with the exception of the guard and the part untouched, by an argument
  -- that is refused (`lent`, the code, the least capacity 0, the scheduler), by an operation in
  -- progress unless it waits for that, by a part that is not there, or by an urgency out of range, in
  -- that order; else it makes its own call of the crate once and gives its answer or its error.
  -- Leaving an `async with` finishes the part, or resets it on an exception, does nothing without a
  -- part, and raises only what `finish` raises for a part that had not ended.
  pub do_send-Sends : (c : SendCall) (p : Part Send) → Sends c p.busy p.part (do_send z c p)
  do_send-Sends c p = do_send-Sends_at c p.busy p.part
