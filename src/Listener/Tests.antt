-- ===== src/Listener/Tests.antt =====
-- src/lib.rs, `Listener` at concrete inputs.
use zmux_python.Prelude.{ℕ, ◌≡◌, true, false, none, some, [], ◌∷◌, ok, arith}
use zmux_python.Listener.{tcp, quic, Setup, served, closes, drops, serve, run, step, opened}
use zmux_python.Listener.Serving.{Counted, run-Counted, count, shut_aborts, Serves, serve-Serves}
use zmux_python.Listener.Settings.{Settings, Args, new_listener}
use zmux_python.Listener.Settings.Makes.{Makes, new_listener-Makes}

abbrev setup : Setup
setup = record { resolved = ok tt; bound = ok tt; local = ok 4433 }

run-Counted_example :
    Counted 1 (run (served tcp setup ∷ closes ∷ served tcp setup ∷ []) (opened false))
run-Counted_example = run-Counted false (served tcp setup ∷ closes ∷ served tcp setup ∷ []) 1

shut_aborts_example :
    let t = run (drops ∷ []) (step closes (run (served tcp setup ∷ []) (opened false))) in
    (count 0 t.aborted ≡ 1) × (t.closed ≡ true)
unfolding run
shut_aborts_example =
    shut_aborts false (served tcp setup ∷ []) closes (drops ∷ []) 0 tt (tt, tt) (omega arith)

serve-Serves_example :
    Serves
      (quic true (ok tt) (ok tt))
      setup
      (opened true)
      (serve (quic true (ok tt) (ok tt)) setup (opened true))
serve-Serves_example = serve-Serves (quic true (ok tt) (ok tt)) setup (opened true)

abbrev defaults : Settings ℕ ℕ (Unit {0}) ℕ
defaults = record {
  nets = [];
  forwarded_header = none;
  proxy_protocol = false;
  max_pending = 100;
  max_pending_per_source = 10;
  max_pending_per_session = 5;
  max_record_size = 65536;
  accept_sessions = true;
  max_suspended = 50;
  instance_id = [];
  memory_budget = 0;
  first_record_timeout = 10;
  handshake_timeout = 10;
  on_memory_pressure = none;
  admission = none;
  inbound_transform = none;
  answer_unknown_joins = false;
}

abbrev args : Args ℕ ℕ (Unit {0}) ℕ
args = record {
  nets = ok 10 ∷ [];
  forwarded_header = some (7 ∷ []);
  proxy_protocol = true;
  max_pending = some 7;
  max_pending_per_source = none;
  max_pending_per_session = none;
  max_record_size = none;
  accept_sessions = none;
  max_suspended = none;
  instance_id = some (1 ∷ 2 ∷ []);
  memory_budget = none;
  first_record_timeout = some (ok 3);
  handshake_timeout = none;
  on_memory_pressure = none;
  admission = some 2;
  inbound_transform = some tt;
  in_loop = true;
  answer_unknown_joins = false;
  config = ok tt;
}

new_listener-Makes_example : Makes 2 (λ a. a) defaults args (new_listener 2 (λ a. a) defaults args)
new_listener-Makes_example = new_listener-Makes 2 (λ a. a) defaults args
