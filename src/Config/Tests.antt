-- ===== src/Config/Tests.antt =====
-- src/lib.rs, `Config.new` at concrete inputs.
use zmux_python.Prelude.{ℕ, ◌≡◌, refl, false, none, List, [], ◌∷◌, All, ok}
use zmux_python.Handles.PipeIo.{pos}
use zmux_python.Values.Sample.{Value, none_value, int, sample}
use zmux_python.Config.{
  Key, Conversions, Config, new_config, auto, affinity, off, no_base, other_name,
}
use zmux_python.Config.Fields.{new_config-none, IsTaken, new_config-IsTaken}

-- Integers that are taken as they are.
abbrev conversions : Conversions sample
conversions = record {
  Protocols = ℕ;
  Limits = ℕ;
  Shaper = ℕ;
  uint = λ k v. ok 7;
  is_float = λ v. false;
  is_infinite = λ f. false;
  name_of = λ s. other_name;
  auth_attributes = λ v. ok (false, false, none);
  protocols_of = λ v. ok 1;
  limits_of = λ v. ok 1;
  shaper_of = λ v. ok 1;
}

abbrev defaults : Config sample conversions
defaults = record {
  handshake_timeout = none;
  max_idle_timeout = none;
  keep_alive_period = none;
  standby_probe = none;
  probe_interval = none;
  initial_stream_receive_window = 1;
  initial_connection_receive_window = 1;
  max_incoming_streams = 1;
  datagram_send_queue = 1;
  datagram_receive_queue = 1;
  datagram_stream_queue = 1;
  datagram_receive_bytes = 1;
  send_buffer = 1;
  max_pipes = 1;
  pipe_headroom = 1;
  spread_chunk = 1;
  max_incoming_uni_streams = none;
  replay_window = none;
  max_stream_receive_window = auto;
  max_connection_receive_window = auto;
  send_buffer_max = auto;
  enable_datagrams = false;
  early_data = false;
  carrier_early_data = false;
  latency_budget = 1;
  suspect_floor = 1;
  overflow_delay = 1;
  dead_timeout = none;
  probation = none;
  memory_budget = none;
  max_lanes = 1;
  resume_timeout = none;
  scheduler = affinity;
  probe_jitter = pos 0;
  redundancy = off;
  pipe_auth = record { base = no_base; psk = none };
  protocols = none;
  shaping_limits = 0;
  shaping = none;
}

-- `bogus=None`
abbrev bogus : List (Key × Value)
bogus = (Key.unknown 0, none_value) ∷ []

bogus_ignored :
    new_config sample conversions bogus defaults ≡ new_config sample conversions [] defaults
bogus_ignored =
    new_config-none sample conversions [] (Key.unknown 0) none_value [] defaults refl refl

abbrev fields : List (Key × Value)
fields = (Key.max_pipes, int (pos 7)) ∷ bogus

new_config-IsTaken_example : All (IsTaken sample conversions) fields
unfolding new_config
new_config-IsTaken_example =
    new_config-IsTaken sample conversions fields defaults (record defaults { max_pipes = 7 }) refl
