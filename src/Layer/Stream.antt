-- ===== src/Layer/Stream.antt =====
-- src/layer.rs, `CarrierStream` and `wrap`: a carrier's halves as one byte stream, and a layer over
-- them that releases the carrier when it fails.
pub mod Released
use zmux_python.Prelude.{
  ℕ, zero, suc, ◌≡◌, refl, Option, none, some, List, PyErr, runtime_error, PyResult, ok, err,
}
use zmux_python.Layer.Channel.{Bytes}

-- The halves, which the Python object shares with the handle that `wrap` keeps.
pub record Halves (R W : Type 0) : Type 0 where
  pub r : Option R
  pub w : Option W

abbrev pub released : PyErr
released = runtime_error "carrier released"

abbrev pub at_least_one : ℕ → ℕ
at_least_one zero = 1
at_least_one (suc n) = suc n

-- The carrier: a read into a buffer, `write_all`, `flush` and `shutdown`, with their I/O errors.
pub record Carrier : Type 1 where
  pub R : Type 0
  pub W : Type 0
  pub read_some : ℕ → R → PyResult Bytes × R
  pub write_all : Bytes → W → PyResult (Unit {0}) × W
  pub flush : W → PyResult (Unit {0}) × W
  pub shutdown : W → PyResult (Unit {0}) × W

module _ (c : Carrier) where
  open c use {R, W, read_some, write_all, flush, shutdown}

  abbrev State : Type 0
  State = Halves R W

  unfoldable pub read_at : ℕ → Option R → State → PyResult Bytes × State
  read_at n none s = (err released, s)
  read_at n (some r) s =
      ((read_some (at_least_one n) r).0, record s { r = some (read_some (at_least_one n) r).1 })

  -- `CarrierStream.read`
  unfoldable pub read : ℕ → State → PyResult Bytes × State
  unfolding read_at
  read n s = read_at n s.r s

  abbrev flushed : PyResult (Unit {0}) × W → PyResult (Unit {0}) × W
  flushed (err e, w) = (err e, w)
  flushed (ok u, w) = flush w

  unfoldable pub write_at : Bytes → Option W → State → PyResult (Unit {0}) × State
  write_at data_ none s = (err released, s)
  write_at data_ (some w) s =
      let (r, v) = flushed (write_all data_ w) in (r, record s { w = some v })

  -- `CarrierStream.write`
  unfoldable pub write : Bytes → State → PyResult (Unit {0}) × State
  unfolding write_at
  write data_ s = write_at data_ s.w s

  unfoldable pub shutdown_at : Option W → State → PyResult (Unit {0}) × State
  shutdown_at none s = (err released, s)
  shutdown_at (some w) s = let (r, v) = shutdown w in (r, record s { w = some v })

  -- `CarrierStream.shutdown`
  unfoldable pub shutdown_half : State → PyResult (Unit {0}) × State
  unfolding shutdown_at
  shutdown_half s = shutdown_at s.w s

  -- `CarrierStream::release`
  unfoldable pub release : State → State
  release s = record { r = none; w = none }

  -- `wrap`: what the layer ran to on the stream that it was given; then, where it failed, the
  -- carrier is released although Python may still hold the stream.
  unfoldable pub wrap_at : PyResult (Unit {0}) × State → PyResult (Unit {0}) × State
  unfolding release
  wrap_at (ok u, s) = (ok u, s)
  wrap_at (err e, s) = (err e, release s)

  unfoldable pub wrap : (State → PyResult (Unit {0}) × State) → R → W → PyResult (Unit {0}) × State
  unfolding wrap_at
  wrap layer r w = wrap_at (layer (record { r = some r; w = some w }))

  -- The calls of the Python object.
  pub data Op : Type 0 where
    reads : ℕ → Op
    writes : Bytes → Op
    shuts : Op

  abbrev outcome : {A : Type 0} → PyResult A → PyResult (Unit {0})
  outcome (ok a) = ok tt
  outcome (err e) = err e

  unfoldable pub step : Op → State → PyResult (Unit {0}) × State
  unfolding read write shutdown_half
  step (reads n) s = let (r, t) = read n s in (outcome r, t)
  step (writes b) s = write b s
  step shuts s = shutdown_half s
