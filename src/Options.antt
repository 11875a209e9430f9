-- ===== src/Options.antt =====
-- src/lib.rs, `pipe_options` and `options_obj`: the options of a pipe, from Python and to Python.
pub mod Convert
pub mod Update
mod Tests
use zmux_python.Prelude.{
  ℕ, Bool, true, false, not, Option, none, some, map, PyErr, value_error, PyResult, ok, err,
  raise_if, ◌>>=◌, ◌>>◌,
}
use zmux_python.Values.{Python, natural, extract_secs, opt, of_option}

pub data Period : Type 0 where
  off : Period
  every : ℕ → Period

-- `zmux::PipeOptions`; durations are nanoseconds.
pub record PipeOptions (Float Str : Type 0) : Type 0 where
  pub send_priority : Option ℕ
  pub receive_priority : ℕ
  pub send_standby : Option Bool
  pub receive_standby : Bool
  pub weight : ℕ
  pub probation : Option ℕ
  pub label : Option Str
  pub fate_group : ℕ
  pub suspect_floor : Option ℕ
  pub dead_timeout : Option ℕ
  pub probe_interval : Option Period
  pub probe_jitter : Option Float

-- The attributes of the Python `PipeOptions`.
pub record Attributes (Obj : Type 0) : Type 0 where
  pub send_priority : Obj
  pub receive_priority : Obj
  pub send_standby : Obj
  pub receive_standby : Obj
  pub weight : Obj
  pub probation : Obj
  pub label : Obj
  pub fate_group : Obj
  pub suspect_floor : Obj
  pub dead_timeout : Obj
  pub probe_interval : Obj
  pub idle_probes : Obj
  pub probe_jitter : Obj

-- A value set only when it is given.
abbrev pub or : {A : Type 0} → A → Option A → A
or d none = d
or d (some a) = a

abbrev pub probes_off : PyErr
probes_off = value_error "probe_interval is set only with idle probes on"

abbrev pub invalid : PyErr
invalid = value_error "suspect_floor, dead_timeout, probe_interval or probe_jitter out of range"

-- The match on `idle_probes` and `probe_interval`.
abbrev pub period : Option Bool → Option ℕ → PyResult (Option Period)
period (some false) (some d) = err probes_off
period (some false) none = ok (some off)
period _ none = ok none
period _ (some d) = ok (some (every d))

-- `Period::duration`, and whether the probes are on.
abbrev pub interval : Option Period → Option ℕ
interval (some (every d)) = some d
interval p = none

abbrev pub idle : Option Period → Option Bool
idle none = none
idle (some off) = some false
idle (some (every d)) = some true

-- `validate` is `PipeOptions::validate` of the crate, `new` its defaults.
module _ (py : Python) where
  open py use {
    Obj, Float, Str, extract_bool, extract_f64, extract_str, of_int, of_bool, of_float, of_str,
    as_secs,
  }

  unfoldable pub pipe_options :
      (PipeOptions Float Str → Bool)
      → PipeOptions Float Str
      → Option (Attributes Obj)
      → PyResult (PipeOptions Float Str)
  pipe_options validate new none = ok new
  pipe_options validate new (some a) = do
    send_priority ← opt py (natural py) a.send_priority
    receive_priority ← opt py (natural py) a.receive_priority
    send_standby ← opt py extract_bool a.send_standby
    receive_standby ← opt py extract_bool a.receive_standby
    weight ← opt py (natural py) a.weight
    probation ← opt py (extract_secs py) a.probation
    label ← opt py extract_str a.label
    fate_group ← opt py (natural py) a.fate_group
    suspect_floor ← opt py (extract_secs py) a.suspect_floor
    dead_timeout ← opt py (extract_secs py) a.dead_timeout
    idle_probes ← opt py extract_bool a.idle_probes
    probe_secs ← opt py (extract_secs py) a.probe_interval
    probe_interval ← period idle_probes probe_secs
    probe_jitter ← opt py extract_f64 a.probe_jitter
    let o : PipeOptions Float Str = record {
      send_priority = send_priority;
      receive_priority = or new.receive_priority receive_priority;
      send_standby = send_standby;
      receive_standby = or new.receive_standby receive_standby;
      weight = or new.weight weight;
      probation = probation;
      label = label;
      fate_group = or new.fate_group fate_group;
      suspect_floor = suspect_floor;
      dead_timeout = dead_timeout;
      probe_interval = probe_interval;
      probe_jitter = probe_jitter;
    }
    raise_if (not (validate o)) invalid
    ok o

  unfoldable pub options_obj : PipeOptions Float Str → Attributes Obj
  options_obj o = record {
    send_priority = of_option py of_int o.send_priority;
    receive_priority = of_int o.receive_priority;
    send_standby = of_option py of_bool o.send_standby;
    receive_standby = of_bool o.receive_standby;
    weight = of_int o.weight;
    probation = of_option py (λ d. of_float (as_secs d)) o.probation;
    label = of_option py of_str o.label;
    fate_group = of_int o.fate_group;
    suspect_floor = of_option py (λ d. of_float (as_secs d)) o.suspect_floor;
    dead_timeout = of_option py (λ d. of_float (as_secs d)) o.dead_timeout;
    probe_interval = of_option py (λ d. of_float (as_secs d)) (interval o.probe_interval);
    idle_probes = of_option py of_bool (idle o.probe_interval);
    probe_jitter = of_option py of_float o.probe_jitter;
  }
