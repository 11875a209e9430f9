-- ===== src/Rt/Gate/Safety.antt =====
-- src/rt.rs, `attach` and `_shutdown`: what the gate promises in every interleaving.
use mathlib.Core.Path.{subst}
use mathlib.Core.Option.{some-injective}
use zmux_python.Prelude.{
  ℕ, zero, suc, ◌+◌, ◌≤◌, ◌<◌, ◌≡◌, refl, sym, ◌≢◌, Bool, true, some, List, [], ◌∷◌, arith,
  get_elem?, set, All, All-get_elem?, length,
}
use zmux_python.Rt.Gate.{
  Pc, parked, Hook, before, drained, State, usize_mod, Action, call, attach_step, shutdown_at,
  shutdown_step, Event, thread, shutdown, step, run_schedule, start,
}
use zmux_python.Rt.Gate.Invariant.{
  attached, total, IsOutside, attach_step-attached, step_thread, run_schedule-Inv,
  run_schedule-cons, reached-Inv,
}

-- Whatever the interleaving, when the hook ends because INFLIGHT is 0, no thread of the runtime is
-- attached to Python or bound to attach: each is outside of `attach`, about to be refused or parked.
-- The threads start outside of `attach`, and fewer than 2 ^ 64 steps are made.
pub drained-IsOutside :
    (ps : List Pc) (es : List Event) {t : State}
    → total ps ≡ 0
    → length es < usize_mod
    → run_schedule es (start ps) ≡ some t
    → t.hook ≡ drained
    → All IsOutside t.threads
drained-IsOutside ps es idle small ran out = (reached-Inv ps es idle small ran).quiet out

-- What became of thread `j`: it is still there, with no attach more than it had.
abbrev pub NoneBegun : State → State → ℕ → Pc → Type 0
NoneBegun s t j p =
    (q : Pc) × (get_elem? t.threads j ≡ some q) × (attached q ≤ attached p) × (t.exiting ≡ true)

get_elem?-set :
    (ps : List Pc) (i j : ℕ) (p q r : Pc)
    → get_elem? ps i ≡ some p
    → get_elem? ps j ≡ some r
    → attached q ≤ attached p
    → (x : Pc) × (get_elem? (set ps i q) j ≡ some x) × (attached x ≤ attached r)
get_elem?-set [] i j p q r ei ej le = absurd (cc)
get_elem?-set (x ∷ ps) zero zero p q r ei ej le = (q, refl, ground arith)
get_elem?-set (x ∷ ps) zero (suc j) p q r ei ej le = (r, ej, omega arith)
get_elem?-set (x ∷ ps) (suc i) zero p q r ei ej le = (r, ej, omega arith)
get_elem?-set (x ∷ ps) (suc i) (suc j) p q r ei ej le = get_elem?-set ps i j p q r ei ej le

shutdown_keeps :
    (h : Hook) (late : Bool) (s : State) {t : State}
    → shutdown_at h late s ≡ some t
    → s.exiting ≡ true
    → (t.threads ≡ s.threads) × (t.exiting ≡ true)
unfolding shutdown_at
shutdown_keeps before late s e x = ground arith
shutdown_keeps h late s e x = ground arith

step_begins_none :
    (e : Event) (s : State) {t : State} (j : ℕ) (p : Pc)
    → step e s ≡ some t
    → s.exiting ≡ true
    → get_elem? s.threads j ≡ some p
    → NoneBegun s t j p
unfolding step shutdown_step
step_begins_none (thread i a) s {t} j p e x at =
    let (p₀, q, m, at₀, moves, to) = step_thread i a s e in
    let le : attached q ≤ attached p₀ =
      attach_step-attached a p₀ q s.inflight m
        (subst (λ b. attach_step b a p₀ s.inflight ≡ some (q, m)) x moves) in
    let (r, here, le') = get_elem?-set s.threads i j p₀ q p at₀ at le in
    (
      r,
      subst (λ u. get_elem? u.threads j ≡ some r) (sym to) here,
      le',
      subst (λ u. u.exiting ≡ true) (sym to) x,
    )
step_begins_none (shutdown late) s {t} j p e x at =
    let (same, x') = shutdown_keeps s.hook late s e x in (p, rw same at, omega arith, x')

-- Once EXITING is set, no schedule lets any thread begin an attach that it had not been admitted
-- to: the number of attaches that a thread holds or is bound to never grows.
pub attached_never_grows :
    (es : List Event) (s : State) {t : State} (j : ℕ) (p : Pc)
    → run_schedule es s ≡ some t
    → s.exiting ≡ true
    → get_elem? s.threads j ≡ some p
    → NoneBegun s t j p
unfolding run_schedule
attached_never_grows [] s j p e x at =
    subst (λ u. NoneBegun s u j p) (some-injective _ _ e) (p, at, omega arith, x)
attached_never_grows (e ∷ es) s {t} j p ran x at =
    let (m, stepped, rest) = run_schedule-cons e es s ran in
    let (q, at', le, x') = step_begins_none e s j p stepped x at in
    let (r, at'', le', x'') = attached_never_grows es m {t = t} j q rest x' at' in
    (r, at'', omega arith, x'')

get_elem?-set_parked :
    (ps : List Pc) (i j d n m : ℕ) (p q : Pc) (a : Action) (ex : Bool)
    → get_elem? ps i ≡ some p
    → attach_step ex a p n ≡ some (q, m)
    → get_elem? ps j ≡ some (parked d)
    → get_elem? (set ps i q) j ≡ some (parked d)
unfolding attach_step
get_elem?-set_parked [] i j d n m p q a ex ei e ej = absurd (cc)
get_elem?-set_parked (x ∷ ps) zero zero d n m p q call ex ei e ej = absurd (ground arith)
get_elem?-set_parked (x ∷ ps) zero zero d n m p q a ex ei e ej = absurd (ground arith)
get_elem?-set_parked (x ∷ ps) zero (suc j) d n m p q a ex ei e ej = ej
get_elem?-set_parked (x ∷ ps) (suc i) zero d n m p q a ex ei e ej = ej
get_elem?-set_parked (x ∷ ps) (suc i) (suc j) d n m p q a ex ei e ej =
    get_elem?-set_parked ps i j d n m p q a ex ei e ej

shutdown_threads :
    (h : Hook) (late : Bool) (s : State) {t : State}
    → shutdown_at h late s ≡ some t
    → t.threads ≡ s.threads
unfolding shutdown_at
shutdown_threads before late s e = ground arith
shutdown_threads h late s e = ground arith

parked_stays :
    (es : List Event) (s : State) {t : State} (j d : ℕ)
    → run_schedule es s ≡ some t
    → get_elem? s.threads j ≡ some (parked d)
    → get_elem? t.threads j ≡ some (parked d)
unfolding run_schedule step shutdown_step
parked_stays [] s j d e at = rw (← some-injective _ _ e) at
parked_stays (e ∷ es) s {t} j d ran at =
    let (m, stepped, rest) = run_schedule-cons e es s ran in
    parked_stays es m {t = t} j d rest (one e stepped)
  where
    one : (e : Event) {m : State} → step e s ≡ some m → get_elem? m.threads j ≡ some (parked d)
    one (thread i a) stepped =
        let (p₀, q, n, at₀, moves, to) = step_thread i a s stepped in
        rw to (get_elem?-set_parked s.threads i j d s.inflight n p₀ q a s.exiting at₀ moves at)
    one (shutdown late) stepped = rw (shutdown_threads s.hook late s stepped) at

-- A runtime thread that is refused inside another call of `attach` parks while it is attached: it
-- never leaves the outer call, so in no continuation does the hook find INFLIGHT at 0. The hook
-- then waits for all of `EXIT_WAIT`, and the thread stays attached after it.
pub nested_park_blocks :
    (ps : List Pc) (es fs : List Event) {s t : State} (j d : ℕ)
    → total ps ≡ 0
    → length es + length fs < usize_mod
    → run_schedule es (start ps) ≡ some s
    → get_elem? s.threads j ≡ some (parked (suc d))
    → run_schedule fs s ≡ some t
    → (t.hook ≢ drained) × (get_elem? t.threads j ≡ some (parked (suc d)))
nested_park_blocks ps es fs {s} {t} j d idle small reach at ran =
    let stays = parked_stays fs s j (suc d) ran at in
    let inv = run_schedule-Inv fs s small (reached-Inv ps es idle (omega arith) reach) ran in
    (
      λ out. absurd (omega (arith, All-get_elem? IsOutside t.threads j (inv.quiet out) stays)),
      stays,
    )
