-- ===== src/Admission/Tests.antt =====
-- src/admission.rs at concrete inputs.
use zmux_python.Prelude.{ℕ, ◌+◌, ◌≡◌, refl, true, Option, none, some, List, [], ◌∷◌, ok}
use zmux_python.Admission.Credential.{new_locals, for_listener}
use zmux_python.Admission.Credential.Loops.{serves}
use zmux_python.Admission.{Event, asks, returns, opened, run, accept, awaits, verdict_obj, decide}
use zmux_python.Admission.Exporter.{answer_all, answering_ends}
use zmux_python.Admission.Decider.{Decided, decide-Decided}

abbrev give : ℕ → Option ℕ
give r = some (r + 100)

-- One export in the call, one after it returned.
abbrev events : List (Event ℕ)
events = asks 0 5 ∷ returns ∷ asks 1 6 ∷ []

answering_ends_example :
    let c = run give events opened in
    let c' = run give (answer_all give c.queue) c in
    (c'.over ≡ true) × (c'.replies ≡ (0, some 105) ∷ (1, none) ∷ [])
unfolding run
answering_ends_example = answering_ends give events refl

decide-Decided_example :
    Decided {O = ℕ}
      (some (accept 4 none))
      (decide true (ok (awaits (ok tt) (ok (verdict_obj (accept 4 none))))))
decide-Decided_example =
    decide-Decided true (ok (awaits (ok tt) (ok (verdict_obj (accept 4 none)))))

abbrev running : List (Option ℕ)
running = none ∷ some 4 ∷ some 5 ∷ []

serves-running : serves running (new_locals none) ≡ some 4
unfolding new_locals for_listener
serves-running = refl
