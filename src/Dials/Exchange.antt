-- ===== src/Dials/Exchange.antt =====
-- src/lib.rs, `ExchangeOptions.new`: the options of the HTTP exchange carrier.
pub mod Makes
use zmux_python.Prelude.{
  ℕ, Bool, true, false, Option, none, some, [], ◌∷◌, PyErr, value_error, PyResult, ok, err, ok_or,
  ◌>>=◌, if◌then◌else◌,
}
use zmux_python.Errors.{Text}
use zmux_python.Hosts.{same_text}
use zmux_python.Tls.{Bytes}

-- The durations, in the order in which they are converted.
pub record Timers (A : Type 0) : Type 0 where
  pub request_timeout : A
  pub deadline : A
  pub hold : A
  pub coalesce : A
  pub idle_timeout : A
  pub gone_memory : A
  pub time_window : A
  pub backoff_initial : A
  pub backoff_max : A

-- `zmux_http::ExchangeOptions`; durations are nanoseconds, and an unset piece size follows the
-- encoding.
pub record Options : Type 0 where
  pub base64 : Bool
  pub unauthenticated : Bool
  pub psk : Bytes
  pub path : Text
  pub down_path : Option Text
  pub query : Text
  pub down_requests : ℕ
  pub up_requests : ℕ
  pub up_piece : Option ℕ
  pub max_down_piece : Option ℕ
  pub down_piece : Option ℕ
  pub max_up_piece : Option ℕ
  pub down_window : ℕ
  pub up_store : ℕ
  pub max_carriers : Option ℕ
  pub max_recorded : ℕ
  pub timers : Timers ℕ

-- The arguments.
pub record Given (Float : Type 0) : Type 0 where
  pub encoding : Text
  pub unauthenticated : Bool
  pub psk : Option Bytes
  pub path : Option Text
  pub down_path : Option Text
  pub query : Option Text
  pub down_requests : Option ℕ
  pub up_requests : Option ℕ
  pub up_piece : Option ℕ
  pub max_down_piece : Option ℕ
  pub down_piece : Option ℕ
  pub max_up_piece : Option ℕ
  pub down_window : Option ℕ
  pub up_store : Option ℕ
  pub max_carriers : Option ℕ
  pub max_recorded : Option ℕ
  pub timers : Timers (Option Float)

-- "binary"
abbrev pub binary : Text
binary = 98 ∷ 105 ∷ 110 ∷ 97 ∷ 114 ∷ 121 ∷ []

-- "base64"
abbrev pub base64_name : Text
base64_name = 98 ∷ 97 ∷ 115 ∷ 101 ∷ 54 ∷ 52 ∷ []

abbrev pub unknown_encoding : PyErr
unknown_encoding = value_error "unknown encoding"

abbrev pub not_seconds : PyErr
not_seconds = value_error "a non-negative number of seconds"

unfoldable pub encoding_of : Text → PyResult Bool
unfolding same_text
encoding_of name =
    if same_text name binary
    then ok false
    else if same_text name base64_name
    then ok true
    else err unknown_encoding

-- `if let Some(v)`: the argument where it is given, else the default
abbrev pub set : {A : Type 0} → Option A → A → A
set none d = d
set (some a) d = a

module _ {Float : Type 0} (from_secs : Float → Option ℕ) where
  abbrev pub set_secs : Option Float → ℕ → PyResult ℕ
  set_secs none d = ok d
  set_secs (some v) d = ok_or (from_secs v) not_seconds

  unfoldable pub set_timers : Timers (Option Float) → Timers ℕ → PyResult (Timers ℕ)
  set_timers g d = do
    request_timeout ← set_secs g.request_timeout d.request_timeout
    deadline ← set_secs g.deadline d.deadline
    hold ← set_secs g.hold d.hold
    coalesce ← set_secs g.coalesce d.coalesce
    idle_timeout ← set_secs g.idle_timeout d.idle_timeout
    gone_memory ← set_secs g.gone_memory d.gone_memory
    time_window ← set_secs g.time_window d.time_window
    backoff_initial ← set_secs g.backoff_initial d.backoff_initial
    backoff_max ← set_secs g.backoff_max d.backoff_max
    ok (record {
      request_timeout = request_timeout;
      deadline = deadline;
      hold = hold;
      coalesce = coalesce;
      idle_timeout = idle_timeout;
      gone_memory = gone_memory;
      time_window = time_window;
      backoff_initial = backoff_initial;
      backoff_max = backoff_max;
    })

  -- The options with all that needs no conversion.
  abbrev pub filled : Options → Given Float → Bool → Timers ℕ → Options
  filled d g base64 timers = record {
    base64 = base64;
    unauthenticated = g.unauthenticated;
    psk = set g.psk d.psk;
    path = set g.path d.path;
    down_path = g.down_path;
    query = set g.query d.query;
    down_requests = set g.down_requests d.down_requests;
    up_requests = set g.up_requests d.up_requests;
    up_piece = g.up_piece;
    max_down_piece = g.max_down_piece;
    down_piece = g.down_piece;
    max_up_piece = g.max_up_piece;
    down_window = set g.down_window d.down_window;
    up_store = set g.up_store d.up_store;
    max_carriers = g.max_carriers;
    max_recorded = set g.max_recorded d.max_recorded;
    timers = timers;
  }

  -- `ExchangeOptions.new`, over the crate's defaults
  unfoldable pub new_options : Options → Given Float → PyResult Options
  unfolding encoding_of set_timers
  new_options d g = do
    base64 ← encoding_of g.encoding
    timers ← set_timers g.timers d.timers
    ok (filled d g base64 timers)

-- The getter `encoding`
abbrev pub encoding : Options → Text
encoding o = if o.base64 then base64_name else binary
