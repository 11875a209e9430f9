-- ===== src/Sessions/Events.antt =====
-- src/lib.rs, `event_obj` with `direction_state` and `dur`: what Python is given of a session's event,
-- a kind and a dictionary of fields; and the iteration of `EventStream`.
pub mod Reading
use zmux_python.Prelude.{
  ℕ, String, Bool, Option, none, some, List, [], ◌∷◌, PyErr, PyResult, ok, err, ◌>>=◌,
  if◌then◌else◌,
}
use zmux_python.Errors.{Text, kind_of}
use text.Mathlib.Text.{◌==◌}

-- A value of Python.
pub data Value (Float : Type 0) : Type 0 where
  nothing : Value Float  -- `None`
  int : ℕ → Value Float
  truth : Bool → Value Float
  float : Float → Value Float
  str : Text → Value Float
  ints : List ℕ → Value Float

abbrev pub Fields : Type 0 → Type 0
Fields Float = List (String × Value Float)

-- `PyDict::set_item`: a field that is there keeps its place.
module _ {Float : Type 0} where
  unfoldable pub set_item : String → Value Float → Fields Float → Fields Float
  set_item k v [] = (k, v) ∷ []
  set_item k v ((j, w) ∷ d) =
      let rest = set_item k v d in if j == k then (k, v) ∷ d else (j, w) ∷ rest

  -- The calls of `set_item` on a dictionary, in their order.
  unfoldable pub set_items : List (String × Value Float) → Fields Float → Fields Float
  unfolding set_item
  set_items [] d = d
  set_items ((k, v) ∷ rest) d = set_items rest (set_item k v d)

-- `zmux::DirectionState`, of the states of either direction
pub data DirectionState (Out In : Type 0) : Type 0 where
  outbound : Out → DirectionState Out In
  inbound : In → DirectionState Out In

-- `zmux::SessionEvent`, over what stands for the state of a pipe's direction, a failure, a carrier's
-- kind, the outcome of a candidate, the source of a priority, and a duration. An event of another
-- kind is its `Debug` text.
pub data SessionEvent (State Failure Carrier Outcome Source Time : Type 0) : Type 0 where
  pipe_state :
      (id : ℕ)
      → State
      → Option Failure
      → Option Carrier
      → SessionEvent State Failure Carrier Outcome Source Time
  join_auth_failed :
      (carrier_bound : Bool) (count : ℕ) → SessionEvent State Failure Carrier Outcome Source Time
  join_security_unavailable : SessionEvent State Failure Carrier Outcome Source Time
  pipe_priority_changed :
      (id send_priority : ℕ) (standby : Bool) (weight : ℕ)
      → Source
      → SessionEvent State Failure Carrier Outcome Source Time
  pipe_quality_changed :
      (id : ℕ) (smoothed_rtt : Option Time) (delivery_rate : Option ℕ)
      → SessionEvent State Failure Carrier Outcome Source Time
  tier_saturation :
      (priority : ℕ) (saturated : Bool) → SessionEvent State Failure Carrier Outcome Source Time
  capacity_below : (rate : ℕ) → SessionEvent State Failure Carrier Outcome Source Time
  capacity_restored : (rate : ℕ) → SessionEvent State Failure Carrier Outcome Source Time
  go_away : (max_bidi max_uni code : ℕ) → SessionEvent State Failure Carrier Outcome Source Time
  suspended : SessionEvent State Failure Carrier Outcome Source Time
  resumed : SessionEvent State Failure Carrier Outcome Source Time
  pipes_retired :
      (retired failed closed dropped : ℕ) (last : List ℕ)
      → SessionEvent State Failure Carrier Outcome Source Time
  carrier_candidate :
      Carrier → Outcome → (joined : Bool) → SessionEvent State Failure Carrier Outcome Source Time
  carrier_chosen : Carrier → SessionEvent State Failure Carrier Outcome Source Time
  another : (debug : Text) → SessionEvent State Failure Carrier Outcome Source Time

-- The texts that the crate has for its values, and `as_secs_f64` of a duration in nanoseconds.
pub record Shows : Type 1 where
  pub Failure : Type 0
  pub Carrier : Type 0
  pub Outcome : Type 0
  pub Source : Type 0
  pub Out : Type 0
  pub In : Type 0
  pub Float : Type 0
  pub failure_text : Failure → Text
  pub carrier_name : Carrier → Text
  pub outcome_name : Outcome → Text
  pub source_debug : Source → Text
  pub out_debug : Out → Text
  pub in_debug : In → Text
  pub half_debug : DirectionState Out In → Text
  pub as_secs : ℕ → Float

abbrev pub stop_iteration : PyErr
stop_iteration = PyErr.raised "StopAsyncIteration"

module _ (z : Shows) where
  abbrev pub Event : Type 0
  Event = SessionEvent (DirectionState z.Out z.In) z.Failure z.Carrier z.Outcome z.Source ℕ

  unfoldable pub direction_state : DirectionState z.Out z.In → Text
  direction_state (outbound o) = kind_of (z.out_debug o)
  direction_state (inbound i) = kind_of (z.in_debug i)

  -- A value of an optional one.
  abbrev pub optional : {A : Type 0} → (A → Value z.Float) → Option A → Value z.Float
  optional f none = nothing
  optional f (some a) = f a

  unfoldable pub event_kind : Event → String
  event_kind (pipe_state p s f c) = "PipeState"
  event_kind (join_auth_failed b n) = "JoinAuthFailed"
  event_kind join_security_unavailable = "JoinSecurityUnavailable"
  event_kind (pipe_priority_changed p n b w s) = "PipePriorityChanged"
  event_kind (pipe_quality_changed p t r) = "PipeQualityChanged"
  event_kind (tier_saturation p b) = "TierSaturation"
  event_kind (capacity_below r) = "CapacityBelow"
  event_kind (capacity_restored r) = "CapacityRestored"
  event_kind (go_away b u c) = "GoAway"
  event_kind suspended = "Suspended"
  event_kind resumed = "Resumed"
  event_kind (pipes_retired r f c d l) = "PipesRetired"
  event_kind (carrier_candidate k o j) = "CarrierCandidate"
  event_kind (carrier_chosen k) = "CarrierChosen"
  event_kind (another e) = "Unknown"

  -- The calls of `set_item`, in their order.
  unfoldable pub event_items : Event → List (String × Value z.Float)
  unfolding direction_state
  event_items (pipe_state p s f c) =
      ("pipe", int p)
      ∷ ("half", str (z.half_debug s))
      ∷ ("state", str (direction_state s))
      ∷ ("failure", optional (λ f. str (z.failure_text f)) f)
      ∷ ("carrier", optional (λ c. str (z.carrier_name c)) c)
      ∷ []
  event_items (join_auth_failed b n) = ("carrier_bound", truth b) ∷ ("count", int n) ∷ []
  event_items join_security_unavailable = []
  event_items (pipe_priority_changed p n b w s) =
      ("pipe", int p)
      ∷ ("send_priority", int n)
      ∷ ("standby", truth b)
      ∷ ("weight", int w)
      ∷ ("source", str (z.source_debug s))
      ∷ []
  event_items (pipe_quality_changed p t r) =
      ("pipe", int p)
      ∷ ("smoothed_rtt", optional (λ t. float (z.as_secs t)) t)
      ∷ ("delivery_rate", optional int r)
      ∷ []
  event_items (tier_saturation p b) = ("priority", int p) ∷ ("saturated", truth b) ∷ []
  event_items (capacity_below r) = ("rate", int r) ∷ []
  event_items (capacity_restored r) = ("rate", int r) ∷ []
  event_items (go_away b u c) = ("max_bidi", int b) ∷ ("max_uni", int u) ∷ ("code", int c) ∷ []
  event_items suspended = []
  event_items resumed = []
  event_items (pipes_retired r f c d l) =
      ("retired", int r)
      ∷ ("failed", int f)
      ∷ ("closed", int c)
      ∷ ("dropped", int d)
      ∷ ("last", ints l)
      ∷ []
  event_items (carrier_candidate k o j) =
      ("carrier", str (z.carrier_name k))
      ∷ ("outcome", str (z.outcome_name o))
      ∷ ("joined", truth j)
      ∷ []
  event_items (carrier_chosen k) = ("carrier", str (z.carrier_name k)) ∷ []
  event_items (another e) = ("detail", str e) ∷ []

  -- `event_obj`: `make` is the `_event` of the Python package, or what looking it up raises.
  unfoldable pub event_obj :
      {Obj : Type 0} → PyResult (String → Fields z.Float → PyResult Obj) → Event → PyResult Obj
  unfolding event_kind event_items set_items
  event_obj make e = make >>= λ make. make (event_kind e) (set_items (event_items e) [])

  -- `EventStream.__anext__`, on the next event of the session
  unfoldable pub next_event :
      {Obj : Type 0}
      → PyResult (String → Fields z.Float → PyResult Obj)
      → Option Event
      → PyResult Obj
  unfolding event_obj
  next_event make (some e) = event_obj make e
  next_event make none = err stop_iteration
