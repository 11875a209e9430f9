-- ===== src/Lib.antt =====
-- zmux-python: the Python binding of the zmux crate, `src/*.rs` of the repository.
--
-- The binding is a layer between asyncio and the crate. Its own logic is the bridge between the
-- event loop and the runtime's threads (`src/rt.rs`), the objects that Python holds and a call
-- uses up (`src/lib.rs`, `src/helpers.rs`), the layer channels between a carrier and a Python layer
-- (`src/layer.rs`), the seeded random source of a shaper (`src/shaping.rs`), what becomes of the
-- crate's errors, streams, listeners, options and configuration in Python (`src/lib.rs`), the pools of
-- pipes (`src/pool.rs`) and the admission of carriers (`src/admission.rs`).
--
-- The files:
-- - Prelude and its children: names of the library passed on, lists over the native numbers,
--   `PyResult` (what a call of Python gives or raises), calls on a shared object, xor and shifts.
-- - Rt.Gate: `attach` and `_shutdown` of src/rt.rs. Each access of EXITING and INFLIGHT is one step;
--   a schedule is the list of steps of all threads, in the order in which they are made. A thread
--   may call `attach` inside of `attach`.
-- - Rt.Awaited: `into_future` with `Start`, `Done`, `Slot` and `CancelOnDrop`, as a state and the
--   events of the loop and of the Rust side, in any order.
-- - Rt.Completion: `future_into_py` with `OnCancel` and `Complete`, in the same way.
-- - Shaping.SplitMix: `SplitMix` and `fold` of src/shaping.rs, on numbers below 2 ^ 64.
-- - Layer.Channel, Layer.Chan: the `mpsc` channel as an interface with laws, and `ChanIo` and
--   `LayerEnd` of src/layer.rs over it.
-- - Handles.PipeIo, Handles.Parts: `PipeIo`, `PipeReservation` and `Part` of src/lib.rs, and `pair`
--   of src/helpers.rs.
-- - Errors: the exception classes of src/lib.rs and `session_err`, `stream_err`, `open_err`,
--   `datagram_err`, `pipe_err`, `connect_err`, `io_err`; texts are lists of code points.
-- - Streams: every method of `SendStream` and `RecvStream` of src/lib.rs on the part that its handle
--   holds, over an interface of the crate's parts (Zmux).
-- - Listener: `Listener` of src/lib.rs. Its tasks are numbered in the order in which they start;
--   `Listener.new` is in Listener.Settings.
-- - Values, Options: `seconds`, `natural`, `pipe_options`, `options_obj` and `pipe_update` of
--   src/lib.rs, over an interface of what PyO3 converts (Python), with its laws.
-- - Pool: `PoolPolicy.decide`, `PoolPolicyDecision` and `PipePool` of src/pool.rs, over an interface
--   of `f64` (Floats); Pool.Callbacks: the callbacks that `native` makes, and `maintain`.
-- - Admission: the exporter requests of `with_info` of src/admission.rs, as a queue that the carrier's
--   thread answers, and `PyDecide` and `Verdict`.
-- - Config: `Config.new` of src/lib.rs with all of its fields, over the conversions of PyO3.
-- - Admission.Credential: `credential`, `PyCredential.call`, `PrefixAuth.new`, `with_times` and
--   `for_listener` of src/admission.rs.
-- - Helpers: `PyLimiter`, `splice`, `resolve_duplicate` and `snake` of src/helpers.rs.
-- - Shaping.ByKind: `carrier_kind`, `by_kind` and `ByKind` of src/shaping.rs.
-- - Unsent: `UnsentCount` of src/lib.rs, a word that two threads share.
-- - Hosts: `host_of` and the names of `exchange_endpoint` of src/lib.rs.
-- - Tls: `TlsConfig` of src/lib.rs, over an interface of rustls. Dials: every dial of src/lib.rs up to
--   the future that connects; Dials.Exchange: `ExchangeOptions.new`; Dials.QuicClient: `QuicClient`
--   with the parameters that it remembers.
-- - Sessions: `preamble`, `Prios`, `open_bi`, `try_open_bi`, `open_uni`, `open_pipe_stream` and
--   `set_shaper` of `Session` in src/lib.rs; Sessions.Events: `event_obj` and `EventStream`.
-- - Shaping.Limits: `session_limits`, `size_limits` and `options` of src/shaping.rs.
-- - Layer.Stream, Layer.Transform: `CarrierStream`, `wrap`, `call` and `transform` of src/layer.rs; what
--   Python does in between is any function of the objects.
-- - Modes: `Candidate`, `Mode`, `policy`, `CarrierCache` and `dial_mode` of src/mode.rs.
-- The modules named Tests and Sample hold concrete inputs.
--
-- Bounds and fuel: INFLIGHT wraps at 2 ^ 64, and schedules are shorter than that. The loop of
-- `poll_read` and `chunks` take fuel; the number of queued messages and the number of bytes are
-- enough.
--
-- Not modelled: the zmux crate, tokio, PyO3 and asyncio, of which the definitions take what they
-- give as arguments; memory ordering weaker than the SeqCst order that the source asks for; the
-- text of exceptions raised by the application; what the carrier crates do once a dial connects;
-- the pipe calls and the statistics of a session; the classes that only pass calls on.
pub mod Prelude
pub mod Rt
pub mod Shaping
pub mod Layer
pub mod Handles
pub mod Errors
pub mod Streams
pub mod Listener
pub mod Helpers
pub mod Hosts
pub mod Tls
pub mod Dials
pub mod Sessions
pub mod Modes
pub mod Unsent
pub mod Values
pub mod Options
pub mod Pool
pub mod Admission
pub mod Config
