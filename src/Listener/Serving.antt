-- ===== src/Listener/Serving.antt =====
-- src/lib.rs, `Listener`: no server's task is lost, and what starts one.
use zmux_python.Prelude.{
  ℕ, suc, ◌+◌, ◌<◌, ◌≡◌, refl, ap, Bool, true, false, ◌&&◌, List, [], ◌∷◌, ◌++◌, All, arith,
  PyResult, ok, err, ◌==◌, ltb, if◌then◌else◌, raise_if, PyErr, ◌>>◌,
}
use zmux_python.Listener.{
  Serve, h3, webtransport, quic, Setup, prepare, bind, State, spawn, serve, serve_at, Event, served,
  closes, shuts_down, drops, step, run, opened,
}

-- How often a task is in a list.
abbrev pub count : ℕ → List ℕ → ℕ
count i [] = 0
count i (x ∷ xs) = (if i == x then 1 else 0) + count i xs

count-append : (i : ℕ) (xs ys : List ℕ) → count i (xs ++ ys) ≡ count i xs + count i ys
count-append i [] ys = omega arith
count-append i (x ∷ xs) ys = omega (arith, count-append i xs ys)

abbrev pub Counted : ℕ → State → Type 0
Counted i s = count i s.tasks + count i s.aborted ≡ (if ltb i s.spawned then 1 else 0)

spawn-Counted : (i : ℕ) (s : State) → Counted i s → Counted i (spawn s)
unfolding spawn
spawn-Counted i s h = ground (arith, count-append i s.tasks (s.spawned ∷ []))

serve_at-Counted : (r : PyResult ℕ) (i : ℕ) (s : State) → Counted i s → Counted i (serve_at r s).1
serve_at-Counted (ok a) i s h = spawn-Counted i s h
serve_at-Counted (err e) i s h = h

step-Counted : (e : Event) (i : ℕ) (s : State) → Counted i s → Counted i (step e s)
unfolding step
step-Counted (served c u) i s h = serve_at-Counted (prepare s.admission c >> bind c u) i s h
step-Counted closes i s h = ground (arith, count-append i s.aborted s.tasks)
step-Counted shuts_down i s h = ground (arith, count-append i s.aborted s.tasks)
step-Counted drops i s h = ground (arith, count-append i s.aborted s.tasks)

run-Counted_from : (es : List Event) (i : ℕ) (s : State) → Counted i s → Counted i (run es s)
unfolding run
run-Counted_from [] i s h = h
run-Counted_from (e ∷ es) i s h = run-Counted_from es i (step e s) (step-Counted e i s h)

-- Whatever is called, in any order: each task that the listener started is either in its list or
-- aborted, and that once; no other task is in either.
pub run-Counted :
    (admission : Bool) (es : List Event) (i : ℕ) → Counted i (run es (opened admission))
run-Counted admission es i = run-Counted_from es i (opened admission) (ground arith)

-- The events that end the servers.
abbrev pub Closing : Event → Type 0
Closing (served c u) = ⊥
Closing e = Unit

abbrev Over : State → Type 0
Over s = (s.tasks ≡ []) × (s.closed ≡ true)

step-Over : (e : Event) (s : State) → Closing e → Over (step e s)
unfolding step
step-Over (served c u) s h = absurd h
step-Over closes s h = (refl, refl)
step-Over shuts_down s h = (refl, refl)
step-Over drops s h = (refl, refl)

run-Over : (es : List Event) (s : State) → All Closing es → Over s → Over (run es s)
unfolding run
run-Over [] s h o = o
run-Over (e ∷ es) s h o = run-Over es (step e s) h.1 (step-Over e s h.0)

-- After `close`, a `shutdown` that came to its end or the drop of the object, every task that was
-- started before is aborted, once, and the listener is closed; it stays so unless a call of
-- `serve_*` that was under way binds its socket later.
pub shut_aborts :
    (admission : Bool) (es : List Event) (e : Event) (fs : List Event) (i : ℕ)
    → Closing e
    → All Closing fs
    → i < (run fs (step e (run es (opened admission)))).spawned
    → let t = run fs (step e (run es (opened admission))) in
      (count i t.aborted ≡ 1) × (t.closed ≡ true)
shut_aborts admission es e fs i h hs small =
    let s = run es (opened admission) in
    let (none_left, shut) = run-Over fs (step e s) hs (step-Over e s h) in
    let counted =
      run-Counted_from fs i (step e s) (step-Counted e i s (run-Counted admission es i)) in
    (counts (run fs (step e s)) none_left counted small, shut)
  where
    counts : (t : State) → t.tasks ≡ [] → Counted i t → i < t.spawned → count i t.aborted ≡ 1
    counts t e h small = ground (arith, ap (count i) e, h)

-- A server that takes 0-RTT data.
abbrev pub is_zero_rtt : Serve → Bool
is_zero_rtt (quic zero_rtt server config) = zero_rtt
is_zero_rtt c = false

-- What a call of `serve_*` gives, and the listener after it.
abbrev pub Serves : Serve → Setup → State → PyResult ℕ × State → Type 0
Serves c u s (ok a, t) =
    (t.tasks ≡ s.tasks ++ s.spawned ∷ [])
    × (t.spawned ≡ suc s.spawned)
    × (t.aborted ≡ s.aborted)
    × (prepare s.admission c ≡ ok tt)
    × (u.bound ≡ ok tt)
    × (u.local ≡ ok a)
    × (is_zero_rtt c && s.admission ≡ false)
Serves c u s (err e, t) = t ≡ s

>>-eq-ok :
    {B : Type 0} (m : PyResult (Unit {0})) (k : PyResult B) (b : B)
    → (m >> k) ≡ ok b
    → (m ≡ ok tt) × (k ≡ ok b)
>>-eq-ok (ok u) k b h = (refl, h)
>>-eq-ok (err e) k b h = absurd (cc)

bind-eq-ok :
    (c : Serve) (u : Setup) (a : ℕ) → bind c u ≡ ok a → (u.bound ≡ ok tt) × (u.local ≡ ok a)
unfolding bind
bind-eq-ok (h3 server config) u a h =
    >>-eq-ok u.bound u.local a (>>-eq-ok u.resolved (u.bound >> u.local) a h).1
bind-eq-ok (webtransport server crypto) u a h =
    >>-eq-ok u.bound u.local a (>>-eq-ok u.resolved (u.bound >> u.local) a h).1
bind-eq-ok (quic zero_rtt server config) u a h =
    >>-eq-ok u.bound u.local a (>>-eq-ok u.resolved (u.bound >> u.local) a h).1
bind-eq-ok c u a h = >>-eq-ok u.bound u.local a h

raise_if-eq-ok : (b : Bool) (e : PyErr) → raise_if b e ≡ ok tt → b ≡ false
raise_if-eq-ok true e h = absurd (cc)
raise_if-eq-ok false e h = refl

prepare-zero_rtt :
    (admission : Bool) (c : Serve)
    → prepare admission c ≡ ok tt
    → is_zero_rtt c && admission ≡ false
unfolding prepare
prepare-zero_rtt admission (quic zero_rtt server config) h =
    raise_if-eq-ok (zero_rtt && admission) _ (>>-eq-ok _ (server >> config) tt h).0
prepare-zero_rtt admission c h = refl

serve_at-Serves :
    (c : Serve) (u : Setup) (s : State) (r : PyResult ℕ)
    → (prepare s.admission c >> bind c u) ≡ r
    → Serves c u s (serve_at r s)
unfolding spawn
serve_at-Serves c u s (err e) h = refl
serve_at-Serves c u s (ok a) h =
    let (prepared, bound) = >>-eq-ok (prepare s.admission c) (bind c u) a h in
    let (has_bound, has_local) = bind-eq-ok c u a bound in
    (refl, refl, refl, prepared, has_bound, has_local, prepare-zero_rtt s.admission c prepared)

-- A call of `serve_*` that gives an address has passed all of its tests and started one task, which
-- is in the list; one that raises has started none. 0-RTT data is never served together with an
-- admission.
pub serve-Serves : (c : Serve) (u : Setup) (s : State) → Serves c u s (serve c u s)
unfolding serve
serve-Serves c u s = serve_at-Serves c u s (prepare s.admission c >> bind c u) refl
