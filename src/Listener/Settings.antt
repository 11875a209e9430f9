-- ===== src/Listener/Settings.antt =====
-- src/lib.rs, `Listener.new`: the settings of a listener from the arguments, in the order in which
-- the call converts and tests them.
pub mod Makes
use zmux_python.Prelude.{
  ℕ, ◌≤◌, ◌≡◌, refl, ap, Bool, true, false, not, ◌&&◌, Option, none, some, is_some, List, [], ◌∷◌,
  map, length, PyErr, value_error, runtime_error, PyResult, ok, err, raise_if, ◌>>=◌, ◌>>◌, Holds,
  ltb, arith,
}
use mathlib.Core.Path.{subst}

-- The fields of `ListenerConfig` that the call sets, those of `trusted_proxies` first; `Budget`,
-- `Net` and `Native` are the crate's types, `Fun` are the functions of Python that become a
-- callback or a transform, and a duration is a number.
pub record Settings (Budget Net Fun Native : Type 0) : Type 0 where
  pub nets : List Net
  pub forwarded_header : Option (List ℕ)
  pub proxy_protocol : Bool
  pub max_pending : ℕ
  pub max_pending_per_source : ℕ
  pub max_pending_per_session : ℕ
  pub max_record_size : ℕ
  pub accept_sessions : Bool
  pub max_suspended : ℕ
  pub instance_id : List ℕ
  pub memory_budget : Budget
  pub first_record_timeout : ℕ
  pub handshake_timeout : ℕ
  pub on_memory_pressure : Option Fun
  pub admission : Option Native
  pub inbound_transform : Option Fun
  pub answer_unknown_joins : Bool

-- The arguments, those that are converted with what the conversion gives; `config` is the session
-- configuration, and `in_loop` says whether an event loop runs.
pub record Args (Budget Net Fun Admission : Type 0) : Type 0 where
  pub nets : List (PyResult Net)
  pub forwarded_header : Option (List ℕ)
  pub proxy_protocol : Bool
  pub max_pending : Option ℕ
  pub max_pending_per_source : Option ℕ
  pub max_pending_per_session : Option ℕ
  pub max_record_size : Option ℕ
  pub accept_sessions : Option Bool
  pub max_suspended : Option ℕ
  pub instance_id : Option (List ℕ)
  pub memory_budget : Option (PyResult Budget)
  pub first_record_timeout : Option (PyResult ℕ)
  pub handshake_timeout : Option (PyResult ℕ)
  pub on_memory_pressure : Option Fun
  pub admission : Option Admission
  pub inbound_transform : Option Fun
  pub in_loop : Bool
  pub answer_unknown_joins : Bool
  pub config : PyResult (Unit {0})

-- `if let Some(v) = $f { l.$f = v; }`
abbrev pub or : {A : Type 0} → A → Option A → A
or d none = d
or d (some a) = a

-- The same for an argument that is converted.
abbrev pub or_convert : {A : Type 0} → A → Option (PyResult A) → PyResult A
or_convert d none = ok d
or_convert d (some r) = r

-- The same for a setting that is optional itself.
abbrev pub or_left : {A : Type 0} → Option A → Option A → Option A
or_left d none = d
or_left d (some a) = some a

abbrev pub mapped : {A B : Type 0} → (A → B) → Option A → Option B
mapped f none = none
mapped f (some a) = some (f a)

-- The loop over `trusted_proxies`, which ends at the first net that does not parse.
abbrev pub with_nets : {Net : Type 0} → List (PyResult Net) → PyResult (List Net)
with_nets [] = ok []
with_nets (ok n ∷ ns) = with_nets ns >>= λ l. ok (n ∷ l)
with_nets (err e ∷ ns) = err e

abbrev pub too_long : PyErr
too_long = value_error "instance_id is longer than the longest instance ID"

abbrev pub no_loop : PyErr
no_loop = runtime_error "inbound_transform needs the Listener made inside a running event loop"

-- `for_listener` is that of src/admission.rs.
module _ {Budget Net Fun Admission Native : Type 0} (max_id : ℕ) (for_listener : Admission → Native)
    (d : Settings Budget Net Fun Native) where
  abbrev Arguments : Type 0
  Arguments = Args Budget Net Fun Admission

  abbrev Made : Type 0
  Made = Settings Budget Net Fun Native

  abbrev pub made : Arguments → List Net → Budget → ℕ → ℕ → Made
  made a nets budget first handshake = record {
    nets = nets;
    forwarded_header = a.forwarded_header;
    proxy_protocol = a.proxy_protocol;
    max_pending = or d.max_pending a.max_pending;
    max_pending_per_source = or d.max_pending_per_source a.max_pending_per_source;
    max_pending_per_session = or d.max_pending_per_session a.max_pending_per_session;
    max_record_size = or d.max_record_size a.max_record_size;
    accept_sessions = or d.accept_sessions a.accept_sessions;
    max_suspended = or d.max_suspended a.max_suspended;
    instance_id = or d.instance_id a.instance_id;
    memory_budget = budget;
    first_record_timeout = first;
    handshake_timeout = handshake;
    on_memory_pressure = or_left d.on_memory_pressure a.on_memory_pressure;
    admission = mapped for_listener a.admission;
    inbound_transform = or_left d.inbound_transform a.inbound_transform;
    answer_unknown_joins = a.answer_unknown_joins;
  }

  unfoldable pub new_listener : Arguments → PyResult Made
  new_listener a = do
    nets ← with_nets a.nets
    budget ← or_convert d.memory_budget a.memory_budget
    first ← or_convert d.first_record_timeout a.first_record_timeout
    handshake ← or_convert d.handshake_timeout a.handshake_timeout
    raise_if (ltb max_id (length (or d.instance_id a.instance_id))) too_long
    raise_if (is_some a.inbound_transform && not a.in_loop) no_loop
    a.config
    ok (made a nets budget first handshake)
