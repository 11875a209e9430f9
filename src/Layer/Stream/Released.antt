-- ===== src/Layer/Stream/Released.antt =====
-- src/layer.rs, `wrap`: a carrier whose layer failed is closed, though Python still holds the stream.
use zmux_python.Prelude.{◌≡◌, refl, List, [], ◌∷◌, PyResult, ok, err, All, none, some}
use zmux_python.Layer.Stream.{
  Carrier, Halves, Op, reads, writes, shuts, released, release, wrap, wrap_at, step, read, read_at,
  write, write_at, shutdown_half, shutdown_at,
}

module _ (c : Carrier) where
  open c use {R, W}

  -- The calls in order, each with its outcome.
  abbrev pub run : List (Op c) → Halves R W → List (PyResult (Unit {0})) × Halves R W
  run [] s = ([], s)
  run (o ∷ os) s = let (r, t) = step c o s in let (rs, u) = run os t in (r ∷ rs, u)

  step_empty :
      (o : Op c)
      → step c o (record { r = none; w = none }) ≡ (err released, record { r = none; w = none })
  unfolding step read read_at write write_at shutdown_half shutdown_at
  step_empty (reads n) = refl
  step_empty (writes b) = refl
  step_empty shuts = refl

  abbrev Refuses : List (PyResult (Unit {0})) × Halves R W → Type 0
  Refuses o = All (λ r. r ≡ err released) o.0 × (o.1 ≡ record { r = none; w = none })

  run-Refuses : (os : List (Op c)) → Refuses (run os (record { r = none; w = none }))
  run-Refuses [] = (tt, refl)
  run-Refuses (o ∷ os) = rw (step_empty o) (let (a, e) = run-Refuses os in ((refl, a), e))

  -- What the calls find after the layer ran.
  abbrev pub Shuts :
      List (Op c) → PyResult (Unit {0}) × Halves R W → PyResult (Unit {0}) × Halves R W → Type 0
  Shuts os (ok u, s) o = o ≡ (ok u, s)
  Shuts os (err e, s) o = (o.0 ≡ err e) × Refuses (run os o.1)

  ended_at : (os : List (Op c)) (l : PyResult (Unit {0}) × Halves R W) → Shuts os l (wrap_at c l)
  unfolding wrap_at release
  ended_at os (ok u, s) = refl
  ended_at os (err e, s) = (refl, run-Refuses os)

  -- A layer that ends well leaves the carrier as it left it. Where it fails, `wrap` fails with its
  -- error and both halves are dropped: every read, write and shutdown that Python makes on the
  -- stream after that, in any order, raises, and no half comes back.
  pub wrap-Shuts :
      (layer : Halves R W → PyResult (Unit {0}) × Halves R W) (r : R) (w : W) (os : List (Op c))
      → Shuts os (layer (record { r = some r; w = some w })) (wrap c layer r w)
  unfolding wrap
  wrap-Shuts layer r w os = ended_at os (layer (record { r = some r; w = some w }))
