-- ===== src/Listener.antt =====
-- src/lib.rs, `Listener`: the servers it starts, each a task whose handle it keeps, and the calls
-- that end them.
pub mod Serving
pub mod Settings
mod Tests
use zmux_python.Prelude.{
  ℕ, suc, Bool, true, false, ◌&&◌, Option, none, some, List, [], ◌∷◌, ◌++◌, PyErr, value_error,
  PyResult, ok, err, raise_if, ◌>>=◌, ◌>>◌,
}

-- The calls that start a server, with what the conversions of their arguments give: the TLS
-- configuration, the exchange server, the carrier's own configuration.
pub data Serve : Type 0 where
  tcp : Serve
  tls : (server : PyResult (Unit {0})) → Serve
  http : (exchange tls : Option (PyResult (Unit {0}))) → Serve
  websocket : (tls : Option (PyResult (Unit {0}))) → Serve
  h3 : (server config : PyResult (Unit {0})) → Serve
  webtransport : (server crypto : PyResult (Unit {0})) → Serve
  quic : (zero_rtt : Bool) (server config : PyResult (Unit {0})) → Serve

-- What the asynchronous part meets: the name resolved, the socket bound, its address.
pub record Setup : Type 0 where
  pub resolved : PyResult (Unit {0})
  pub bound : PyResult (Unit {0})
  pub local : PyResult ℕ

abbrev pub given : Option (PyResult (Unit {0})) → PyResult (Unit {0})
given none = ok tt
given (some r) = r

-- The part of each `serve_*` before its future, in the order of its tests; `admission` says whether
-- the listener has one.
unfoldable pub prepare : Bool → Serve → PyResult (Unit {0})
prepare admission tcp = ok tt
prepare admission (tls server) = server
prepare admission (http exchange server) = do given exchange; given server
prepare admission (websocket server) = given server
prepare admission (h3 server config) = do server; config
prepare admission (webtransport server crypto) = do server; crypto
prepare admission (quic zero_rtt server config) = do
  raise_if (zero_rtt && admission) (value_error "zero_rtt and admission are mutually exclusive")
  server
  config

-- The future: the carriers over QUIC resolve the address first.
unfoldable pub bind : Serve → Setup → PyResult ℕ
bind (h3 server config) u = do u.resolved; u.bound; u.local
bind (webtransport server crypto) u = do u.resolved; u.bound; u.local
bind (quic zero_rtt server config) u = do u.resolved; u.bound; u.local
bind s u = do u.bound; u.local

-- The listener: the handles in `tasks`, the tasks that were aborted, and how many were started,
-- which names the next one.
pub record State : Type 0 where
  pub admission : Bool
  pub closed : Bool
  pub tasks : List ℕ
  pub aborted : List ℕ
  pub spawned : ℕ

-- `spawner`: the task is started and its handle kept.
unfoldable pub spawn : State → State
spawn s = record s { tasks = s.tasks ++ s.spawned ∷ []; spawned = suc s.spawned }

abbrev pub serve_at : PyResult ℕ → State → PyResult ℕ × State
serve_at (ok a) s = (ok a, spawn s)
serve_at (err e) s = (err e, s)

-- A call of `serve_*` and its future, which gives the address.
unfoldable pub serve : Serve → Setup → State → PyResult ℕ × State
unfolding prepare bind spawn
serve c u s = serve_at (prepare s.admission c >> bind c u) s

-- `tasks.drain(..)`, each aborted
unfoldable pub drain : State → State
drain s = record s { tasks = []; aborted = s.aborted ++ s.tasks }

unfoldable pub close : State → State
unfolding drain
close s = drain (record s { closed = true })

-- `shutdown` once the crate's shutdown has ended: the crate has closed the listener.
unfoldable pub shutdown : State → State
unfolding drain
shutdown s = drain (record s { closed = true })

-- What happens to the listener: a call of `serve_*` ends, `close` or `__aexit__` is called,
-- `shutdown` comes to its end, the object is dropped.
pub data Event : Type 0 where
  served : Serve → Setup → Event
  closes shuts_down drops : Event

unfoldable pub step : Event → State → State
unfolding serve close shutdown
step (served c u) s = (serve c u s).1
step closes s = close s
step shuts_down s = shutdown s
step drops s = close s

unfoldable pub run : List Event → State → State
unfolding step
run [] s = s
run (e ∷ es) s = run es (step e s)

abbrev pub opened : Bool → State
opened admission = record {
  admission = admission;
  closed = false;
  tasks = [];
  aborted = [];
  spawned = 0;
}
