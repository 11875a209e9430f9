-- ===== src/Rt/Gate/Invariant.antt =====
-- src/rt.rs, `attach` and `_shutdown`: what INFLIGHT counts, and what every step keeps.
use zmux_python.Prelude.{
  ◌-◌, sym, inl, inr, Bool-cases, ltb, Option-cases, ℕ, zero, suc, ◌+◌, ◌%◌, ◌≤◌, ◌<◌, ◌≡◌, refl,
  ◌≢◌, Bool, true, false, some, List, [], ◌∷◌, arith, get_elem?, set, All, All-get_elem?, All-set,
  length,
}
use mathlib.Core.Path.{subst}
use mathlib.Core.Option.{some-injective}
use zmux_python.Rt.Gate.{
  Pc, python, run, entering, refused, admitted, returning, parked, Hook, before, waiting, drained,
  timed_out, State, usize_mod, Action, call, attach_step, shutdown_at, shutdown_step, Event, thread,
  shutdown, step, run_schedule, start,
}

-- What a thread adds to INFLIGHT.
abbrev pub counted : Pc → ℕ
counted (python d) = 0
counted (run d) = d
counted (entering d) = suc d
counted (refused d) = suc d
counted (admitted d) = suc d
counted (returning d) = suc d
counted (parked d) = d

-- The attaches of a runtime thread that hold Python or are bound to: the check has been passed.
abbrev pub attached : Pc → ℕ
attached (python d) = 0
attached (run d) = d
attached (entering d) = d
attached (refused d) = d
attached (admitted d) = suc d
attached (returning d) = d
attached (parked d) = d

abbrev pub total : List Pc → ℕ
total [] = 0
total (p ∷ ps) = counted p + total ps

abbrev pub IsOutside : Pc → Type 0
IsOutside p = attached p ≡ 0

total-set :
    (ps : List Pc) (i : ℕ) (p q : Pc)
    → get_elem? ps i ≡ some p
    → total (set ps i q) + counted p ≡ total ps + counted q
total-set [] i p q e = absurd (cc)
total-set (x ∷ ps) zero p q e = ground arith
total-set (x ∷ ps) (suc i) p q e = omega (arith, total-set ps i p q e)

All-IsOutside_of_total : (ps : List Pc) → total ps ≡ 0 → All IsOutside ps
All-IsOutside_of_total [] h = tt
All-IsOutside_of_total (python d ∷ ps) h = (refl, All-IsOutside_of_total ps (omega arith))
All-IsOutside_of_total (p ∷ ps) h = (ground arith, All-IsOutside_of_total ps (omega arith))

pub record Inv (k : ℕ) (s : State) : Type 0 where
  pub in_step : s.inflight ≡ total s.threads % usize_mod
  pub few : total s.threads ≤ k
  pub closed : s.hook ≢ before → s.exiting ≡ true
  pub quiet : s.hook ≡ drained → All IsOutside s.threads

-- One atomic step of a thread changes INFLIGHT by what the thread adds to it.
attach_step-counted :
    (ex : Bool) (a : Action) (p q : Pc) (n m t : ℕ)
    → attach_step ex a p n ≡ some (q, m)
    → n ≡ (t + counted p) % usize_mod
    → (m ≡ (t + counted q) % usize_mod) × (counted q ≤ counted p + 1)
unfolding attach_step
attach_step-counted ex call (python d) q n m t e h = ground arith
attach_step-counted ex a p q n m t e h = ground arith

-- Once EXITING is set no attach is begun that was not past the check before.
pub attach_step-attached :
    (a : Action) (p q : Pc) (n m : ℕ)
    → attach_step true a p n ≡ some (q, m)
    → attached q ≤ attached p
unfolding attach_step
attach_step-attached call (python d) q n m e = ground arith
attach_step-attached a p q n m e = ground arith

pub step_thread :
    (i : ℕ) (a : Action) (s : State) {t : State}
    → step (thread i a) s ≡ some t
    → (p q : Pc) × (m : ℕ) × (get_elem? s.threads i ≡ some p)
      × (attach_step s.exiting a p s.inflight ≡ some (q, m))
      × (t ≡ record s { inflight = m; threads = set s.threads i q })
unfolding step
step_thread i a s e = elim (Option-cases (get_elem? s.threads i)) [
  | inl gone ↦ absurd (ground arith)
  | inr (p, at) ↦ elim (Option-cases (attach_step s.exiting a p s.inflight)) [
    | inl stuck ↦ absurd (ground arith)
    | inr ((q, m), moves) ↦ (p, q, m, at, moves, ground arith)
  ]
]

module _ {k : ℕ} {s : State} (inv : Inv k s) where
  thread-Inv :
      (i : ℕ) (a : Action) (p q : Pc) (m : ℕ)
      → get_elem? s.threads i ≡ some p
      → attach_step s.exiting a p s.inflight ≡ some (q, m)
      → Inv (suc k) (record s { inflight = m; threads = set s.threads i q })
  thread-Inv i a p q m at moves = record {
    in_step = omega (arith, change, counts.0, held);
    few = omega (arith, change, counts.1, held);
    closed = inv.closed;
    quiet = λ out. All-set IsOutside s.threads i q (inv.quiet out) (
        omega (
          arith,
          All-get_elem? IsOutside s.threads i (inv.quiet out) at,
          attach_step-attached a p q s.inflight m (
              subst (λ b. attach_step b a p s.inflight ≡ some (q, m)) (inv.closed (λ early. cc))
                moves),
        ));
  }
    where
      rest : ℕ
      rest = total s.threads - counted p

      change : total (set s.threads i q) + counted p ≡ total s.threads + counted q
      change = total-set s.threads i p q at

      held : counted p ≤ total s.threads
      held = omega (arith, total-set s.threads i p (python 0) at)

      counts : (m ≡ (rest + counted q) % usize_mod) × (counted q ≤ counted p + 1)
      counts =
          attach_step-counted s.exiting a p q s.inflight m rest moves
            (omega (arith, inv.in_step, held))

  -- A state that differs in the hook alone, which has not been let through.
  hook-Inv : (h : Hook) → h ≢ drained → s.exiting ≡ true → Inv (suc k) (record s { hook = h })
  hook-Inv h shut set_ = record {
    in_step = inv.in_step;
    few = omega (arith, inv.few);
    closed = λ _. set_;
    quiet = λ out. absurd (shut out);
  }

  drained-Inv :
      k < usize_mod → s.exiting ≡ true → s.inflight ≡ 0 → Inv (suc k) (record s { hook = drained })
  drained-Inv small set_ zero_count = record {
    in_step = inv.in_step;
    few = omega (arith, inv.few);
    closed = λ _. set_;
    quiet = λ _. All-IsOutside_of_total s.threads (omega (arith, inv.in_step, inv.few, zero_count));
  }

  shutdown-Inv :
      (h : Hook) (late : Bool) {t : State}
      → k < usize_mod
      → s.hook ≡ h
      → shutdown_at h late s ≡ some t
      → Inv (suc k) t
  unfolding shutdown_at
  shutdown-Inv before late small at e = subst (Inv (suc k)) (some-injective _ _ e) (record {
    in_step = inv.in_step;
    few = omega (arith, inv.few);
    closed = λ _. refl;
    quiet = λ out. cc;
  })
  shutdown-Inv waiting true small at e = elim (Bool-cases (ltb 0 s.inflight)) [
    | inl busy ↦
        subst (Inv (suc k)) (ground arith) (hook-Inv timed_out (λ x. cc) (inv.closed (λ x. cc)))
    | inr quiet ↦
        subst (Inv (suc k)) (ground arith) (drained-Inv small (inv.closed (λ x. cc)) (ground arith))
  ]
  shutdown-Inv waiting false small at e = elim (Bool-cases (ltb 0 s.inflight)) [
    | inl busy ↦
        subst (Inv (suc k)) (ground arith) (hook-Inv waiting (λ x. cc) (inv.closed (λ x. cc)))
    | inr quiet ↦
        subst (Inv (suc k)) (ground arith) (drained-Inv small (inv.closed (λ x. cc)) (ground arith))
  ]
  shutdown-Inv drained late small at e = absurd (cc)
  shutdown-Inv timed_out late small at e = absurd (cc)

-- Each event keeps the invariant, as long as fewer than 2 ^ 64 have passed.
pub step-Inv :
    {k : ℕ} (e : Event) (s : State) {t : State}
    → k < usize_mod
    → Inv k s
    → step e s ≡ some t
    → Inv (suc k) t
unfolding step shutdown_step
step-Inv {k} (thread i a) s small inv e =
    let (p, q, m, at, moves, to) = step_thread i a s e in
    subst (Inv (suc k)) (sym to) (thread-Inv inv i a p q m at moves)
step-Inv (shutdown late) s small inv e = shutdown-Inv inv s.hook late small refl e

pub start-Inv : (ps : List Pc) → total ps ≡ 0 → Inv 0 (start ps)
start-Inv ps idle = record {
  in_step = omega (arith, idle);
  few = omega (arith, idle);
  closed = λ late. absurd (late refl);
  quiet = λ out. absurd (cc);
}

pub run_schedule-cons :
    (e : Event) (es : List Event) (s : State) {t : State}
    → run_schedule (e ∷ es) s ≡ some t
    → (m : State) × (step e s ≡ some m) × (run_schedule es m ≡ some t)
unfolding run_schedule
run_schedule-cons e es s ran = elim (Option-cases (step e s)) [
  | inl stuck ↦ absurd (ground arith)
  | inr (m, stepped) ↦ (m, stepped, ground arith)
]

pub run_schedule-Inv :
    {k : ℕ} (es : List Event) (s : State) {t : State}
    → k + length es < usize_mod
    → Inv k s
    → run_schedule es s ≡ some t
    → Inv (k + length es) t
unfolding run_schedule
run_schedule-Inv {k} [] s {t} small inv e =
    subst (λ n. Inv n t) (omega arith) (subst (Inv k) (some-injective _ _ e) inv)
run_schedule-Inv {k} (e ∷ es) s {t} small inv ran =
    let (m, stepped, rest) = run_schedule-cons e es s ran in
    subst (λ n. Inv n t) (omega arith)
      (run_schedule-Inv {k = suc k} es m (omega arith) (step-Inv e s (omega arith) inv stepped)
        rest)

pub reached-Inv :
    (ps : List Pc) (es : List Event) {t : State}
    → total ps ≡ 0
    → length es < usize_mod
    → run_schedule es (start ps) ≡ some t
    → Inv (length es) t
reached-Inv ps es {t} idle small ran =
    subst (λ n. Inv n t) (omega arith)
      (run_schedule-Inv {k = 0} es (start ps) (omega arith) (start-Inv ps idle) ran)
