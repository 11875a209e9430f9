-- ===== src/Config.antt =====
-- src/lib.rs, `Config.new`: a session configuration from the fields of a Python `zmux.Config`.
pub mod Fields
mod Tests
use zmux_python.Prelude.{
  ℕ, zero, suc, Bool, true, false, not, Option, none, some, List, [], ◌∷◌, PyErr, value_error,
  type_error, PyResult, ok, err, raise_if, ◌>>=◌, ◌>>◌, ◌==◌, if◌then◌else◌,
}
use zmux_python.Values.{Python, natural, extract_secs}

-- The names of the fields, the timers and periods first, and any other name.
pub data Key : Type 0 where
  handshake_timeout max_idle_timeout keep_alive_period standby_probe probe_interval : Key
  initial_stream_receive_window initial_connection_receive_window max_incoming_streams
        datagram_send_queue datagram_receive_queue :
      Key
  datagram_stream_queue datagram_receive_bytes send_buffer max_pipes pipe_headroom : Key
  spread_chunk : Key
  max_incoming_uni_streams replay_window : Key
  max_stream_receive_window max_connection_receive_window send_buffer_max : Key
  enable_datagrams early_data carrier_early_data : Key
  latency_budget suspect_floor overflow_delay : Key
  dead_timeout probation : Key
  memory_budget max_lanes resume_timeout scheduler probe_jitter : Key
  redundancy pipe_auth protocols shaping_limits shaping : Key
  unknown : ℕ → Key

-- The timers and periods, for which `None` is no timeout or off.
abbrev pub is_timer : Key → Bool
is_timer handshake_timeout = true
is_timer max_idle_timeout = true
is_timer keep_alive_period = true
is_timer standby_probe = true
is_timer probe_interval = true
is_timer k = false

pub data Policy : Type 0 where
  affinity session_affinity spread_eta spread_round_robin spread_rate_weighted : Policy

pub data Redundancy : Type 0 where
  urgent off : Redundancy

pub data Budget : Type 0 where
  unlimited : Budget
  bytes : ℕ → Budget

pub data Cap : Type 0 where
  auto : Cap
  fixed : ℕ → Cap

-- The join credentials: the base and the pre-shared key.
pub data Base : Type 0 where
  exporter insecure no_base : Base

pub record PipeAuth : Type 0 where
  pub base : Base
  pub psk : Option (List ℕ)

-- What a text names, for `scheduler` and `redundancy`.
pub data Name : Type 0 where
  policy_name : Policy → Name
  redundancy_name : Redundancy → Name
  other_name : Name

-- The conversions of `Config.new` that stand in PyO3 or in other files: an integer at the width of
-- the field, the float test and its comparison with infinity, the attributes of a `PipeAuth`, the
-- lists of protocols, the limits and the definitions of a shaper.
pub record Conversions (py : Python) : Type 1 where
  pub Protocols : Type 0
  pub Limits : Type 0
  pub Shaper : Type 0
  pub uint : Key → py.Obj → PyResult ℕ
  pub is_float : py.Obj → Bool
  pub is_infinite : py.Float → Bool
  pub name_of : py.Str → Name
  pub auth_attributes : py.Obj → PyResult (Bool × Bool × Option (List ℕ))
  pub protocols_of : py.Obj → PyResult Protocols
  pub limits_of : py.Obj → PyResult Limits
  pub shaper_of : py.Obj → PyResult Shaper

abbrev pub not_budget : PyErr
not_budget = value_error "a non-negative integer or math.inf"

abbrev pub no_lanes : PyErr
no_lanes = value_error "max_lanes is at least 1"

abbrev pub no_policy : PyErr
no_policy = value_error "unknown scheduler"

abbrev pub no_redundancy : PyErr
no_redundancy = value_error "redundancy is urgent or off"

abbrev pub no_field : PyErr
no_field = type_error "unknown Config field"

module _ (py : Python) (cv : Conversions py) where
  open py use {Obj, Float, is_none, extract_bool, extract_f64, extract_str}
  open cv use {
    Protocols, Limits, Shaper, uint, is_float, is_infinite, name_of, auth_attributes, protocols_of,
    limits_of, shaper_of,
  }

  -- `zmux::Config` and `zmux::EarlyData`; durations are nanoseconds.
  pub record Config : Type 0 where
    pub handshake_timeout : Option ℕ
    pub max_idle_timeout : Option ℕ
    pub keep_alive_period : Option ℕ
    pub standby_probe : Option ℕ
    pub probe_interval : Option ℕ
    pub initial_stream_receive_window : ℕ
    pub initial_connection_receive_window : ℕ
    pub max_incoming_streams : ℕ
    pub datagram_send_queue : ℕ
    pub datagram_receive_queue : ℕ
    pub datagram_stream_queue : ℕ
    pub datagram_receive_bytes : ℕ
    pub send_buffer : ℕ
    pub max_pipes : ℕ
    pub pipe_headroom : ℕ
    pub spread_chunk : ℕ
    pub max_incoming_uni_streams : Option ℕ
    pub replay_window : Option ℕ
    pub max_stream_receive_window : Cap
    pub max_connection_receive_window : Cap
    pub send_buffer_max : Cap
    pub enable_datagrams : Bool
    pub early_data : Bool
    pub carrier_early_data : Bool
    pub latency_budget : ℕ
    pub suspect_floor : ℕ
    pub overflow_delay : ℕ
    pub dead_timeout : Option ℕ
    pub probation : Option ℕ
    pub memory_budget : Option Budget
    pub max_lanes : ℕ
    pub resume_timeout : Option ℕ
    pub scheduler : Policy
    pub probe_jitter : Float
    pub redundancy : Redundancy
    pub pipe_auth : PipeAuth
    pub protocols : Option Protocols
    pub shaping_limits : Limits
    pub shaping : Option Shaper

  -- `field_budget`
  unfoldable pub field_budget : Obj → PyResult Budget
  field_budget v =
      if is_float v
      then (extract_f64 v >>= λ f. if is_infinite f then ok unlimited else err not_budget)
      else (natural py v >>= λ n. ok (bytes n))

  -- `policy`, and the match of `redundancy`
  abbrev pub policy : Name → PyResult Policy
  policy (policy_name p) = ok p
  policy n = err no_policy

  abbrev pub redundancy_of : Name → PyResult Redundancy
  redundancy_of (redundancy_name r) = ok r
  redundancy_of n = err no_redundancy

  -- `pipe_auth`
  abbrev pub base_of : Bool → Bool → Base
  base_of true is_insecure = exporter
  base_of false true = insecure
  base_of false false = no_base

  unfoldable pub pipe_auth_of : Obj → PyResult PipeAuth
  pipe_auth_of v = auth_attributes v >>= λ a. ok (record { base = base_of a.0 a.1; psk = a.2 })

  -- `NonZeroU64::new`
  abbrev pub lanes : ℕ → PyResult ℕ
  lanes zero = err no_lanes
  lanes (suc n) = ok (suc n)

  -- `(!d.is_zero()).then_some(d)`
  abbrev pub nonzero : ℕ → Option ℕ
  nonzero zero = none
  nonzero (suc d) = some (suc d)

  -- `field_opt_secs`
  unfoldable pub field_opt_secs : Obj → PyResult (Option ℕ)
  field_opt_secs v = if is_none v then ok none else (extract_secs py v >>= λ d. ok (some d))

  -- The first match: the timers and periods.
  unfoldable pub set_timer : Key → Obj → Config → PyResult Config
  unfolding field_opt_secs
  set_timer handshake_timeout v c =
      field_opt_secs v >>= λ d. ok (record c { handshake_timeout = d })
  set_timer max_idle_timeout v c = field_opt_secs v >>= λ d. ok (record c { max_idle_timeout = d })
  set_timer keep_alive_period v c =
      field_opt_secs v >>= λ d. ok (record c { keep_alive_period = d })
  set_timer standby_probe v c = field_opt_secs v >>= λ d. ok (record c { standby_probe = d })
  set_timer probe_interval v c = field_opt_secs v >>= λ d. ok (record c { probe_interval = d })
  set_timer k v c = ok c

  -- The second match, which a value that is not `None` reaches.
  unfoldable pub set_value : Key → Obj → Config → PyResult Config
  unfolding field_budget pipe_auth_of
  set_value handshake_timeout v c = ok c
  set_value max_idle_timeout v c = ok c
  set_value keep_alive_period v c = ok c
  set_value standby_probe v c = ok c
  set_value probe_interval v c = ok c
  set_value initial_stream_receive_window v c = uint initial_stream_receive_window v >>= λ n.
      ok (record c { initial_stream_receive_window = n })
  set_value initial_connection_receive_window v c =
      uint initial_connection_receive_window v >>= λ n.
      ok (record c { initial_connection_receive_window = n })
  set_value max_incoming_streams v c =
      uint max_incoming_streams v >>= λ n. ok (record c { max_incoming_streams = n })
  set_value datagram_send_queue v c =
      uint datagram_send_queue v >>= λ n. ok (record c { datagram_send_queue = n })
  set_value datagram_receive_queue v c =
      uint datagram_receive_queue v >>= λ n. ok (record c { datagram_receive_queue = n })
  set_value datagram_stream_queue v c =
      uint datagram_stream_queue v >>= λ n. ok (record c { datagram_stream_queue = n })
  set_value datagram_receive_bytes v c =
      uint datagram_receive_bytes v >>= λ n. ok (record c { datagram_receive_bytes = n })
  set_value send_buffer v c = uint send_buffer v >>= λ n. ok (record c { send_buffer = n })
  set_value max_pipes v c = uint max_pipes v >>= λ n. ok (record c { max_pipes = n })
  set_value pipe_headroom v c = uint pipe_headroom v >>= λ n. ok (record c { pipe_headroom = n })
  set_value spread_chunk v c = uint spread_chunk v >>= λ n. ok (record c { spread_chunk = n })
  set_value max_incoming_uni_streams v c =
      uint max_incoming_uni_streams v >>= λ n. ok (record c { max_incoming_uni_streams = some n })
  set_value replay_window v c =
      uint replay_window v >>= λ n. ok (record c { replay_window = some n })
  set_value max_stream_receive_window v c = uint max_stream_receive_window v >>= λ n.
      ok (record c { max_stream_receive_window = fixed n })
  set_value max_connection_receive_window v c = uint max_connection_receive_window v >>= λ n.
      ok (record c { max_connection_receive_window = fixed n })
  set_value send_buffer_max v c =
      uint send_buffer_max v >>= λ n. ok (record c { send_buffer_max = fixed n })
  set_value enable_datagrams v c = extract_bool v >>= λ b. ok (record c { enable_datagrams = b })
  set_value early_data v c = extract_bool v >>= λ b. ok (record c { early_data = b })
  set_value carrier_early_data v c =
      extract_bool v >>= λ b. ok (record c { carrier_early_data = b })
  set_value latency_budget v c = extract_secs py v >>= λ d. ok (record c { latency_budget = d })
  set_value suspect_floor v c = extract_secs py v >>= λ d. ok (record c { suspect_floor = d })
  set_value overflow_delay v c = extract_secs py v >>= λ d. ok (record c { overflow_delay = d })
  set_value dead_timeout v c = extract_secs py v >>= λ d. ok (record c { dead_timeout = some d })
  set_value probation v c = extract_secs py v >>= λ d. ok (record c { probation = some d })
  set_value memory_budget v c = field_budget v >>= λ b. ok (record c { memory_budget = some b })
  set_value max_lanes v c = do n ← uint max_lanes v; m ← lanes n; ok (record c { max_lanes = m })
  set_value resume_timeout v c =
      extract_secs py v >>= λ d. ok (record c { resume_timeout = nonzero d })
  set_value scheduler v c = do
    s ← extract_str v
    p ← policy (name_of s)
    ok (record c { scheduler = p })
  set_value probe_jitter v c = extract_f64 v >>= λ f. ok (record c { probe_jitter = f })
  set_value redundancy v c = do
    s ← extract_str v
    r ← redundancy_of (name_of s)
    ok (record c { redundancy = r })
  set_value pipe_auth v c = pipe_auth_of v >>= λ a. ok (record c { pipe_auth = a })
  set_value protocols v c = protocols_of v >>= λ p. ok (record c { protocols = some p })
  set_value shaping_limits v c = limits_of v >>= λ l. ok (record c { shaping_limits = l })
  set_value shaping v c = shaper_of v >>= λ s. ok (record c { shaping = some s })
  set_value (unknown n) v c = err no_field

  -- One turn of the loop: `None` goes no further than the timers.
  unfoldable pub set_field : Key → Obj → Config → PyResult Config
  unfolding set_timer set_value
  set_field k v c = set_timer k v c >>= λ d. if is_none v then ok d else set_value k v d

  -- The loop, from the defaults
  unfoldable pub new_config : List (Key × Obj) → Config → PyResult Config
  unfolding set_field
  new_config [] c = ok c
  new_config (kv ∷ kvs) c = set_field kv.0 kv.1 c >>= new_config kvs
