-- ===== src/Sessions/Events/Reading.antt =====
-- src/lib.rs, `event_obj`: a reader by the names of the kinds and fields gets the event back.
use zmux_python.Prelude.{
  ℕ, String, ◌≡◌, refl, Bool, Option, none, some, List, [], ◌∷◌, PyResult, ok, if◌then◌else◌,
}
use zmux_python.Errors.{Text}
use zmux_python.Sessions.Events.{
  Value, nothing, int, truth, float, str, ints, Fields, set_items, SessionEvent, pipe_state,
  join_auth_failed, join_security_unavailable, pipe_priority_changed, pipe_quality_changed,
  tier_saturation, capacity_below, capacity_restored, go_away, suspended, resumed, pipes_retired,
  carrier_candidate, carrier_chosen, another, Shows, Event, direction_state, event_kind,
  event_items, event_obj,
}
use text.Mathlib.Text.{◌==◌}

-- An event as Python has it: names for what the crate has names for, seconds for durations.
abbrev pub Seen : (Float : Type 0) → Type 0
Seen Float = SessionEvent (Text × Text) Text Text Text Text Float

infixl 5 ◌>>=◌
abbrev ◌>>=◌ : {A B : Type 0} → Option A → (A → Option B) → Option B
none >>= f = none
some a >>= f = f a

module _ {Float : Type 0} where
  abbrev get : String → Fields Float → Option (Value Float)
  get k [] = none
  get k ((j, v) ∷ d) = let rest = get k d in if j == k then some v else rest

  abbrev as_int : Value Float → Option ℕ
  as_int (int n) = some n
  as_int v = none

  abbrev as_truth : Value Float → Option Bool
  as_truth (truth b) = some b
  as_truth v = none

  abbrev as_str : Value Float → Option Text
  as_str (str t) = some t
  as_str v = none

  abbrev as_float : Value Float → Option Float
  as_float (float x) = some x
  as_float v = none

  abbrev as_ints : Value Float → Option (List ℕ)
  as_ints (ints ns) = some ns
  as_ints v = none

  -- `None`, or what `f` reads.
  abbrev or_none : {A : Type 0} → (Value Float → Option A) → Value Float → Option (Option A)
  or_none f nothing = some none
  or_none f v = f v >>= λ a. some (some a)

  -- Reads an event by its kind and the names of its fields.
  pub read : String → Fields Float → Option (Seen Float)
  read kind d =
      if kind == "PipeState"
      then (do
        p ← get "pipe" d >>= as_int
        half ← get "half" d >>= as_str
        state ← get "state" d >>= as_str
        failure ← get "failure" d >>= or_none as_str
        carrier ← get "carrier" d >>= or_none as_str
        some (pipe_state p (half, state) failure carrier))
      else if kind == "JoinAuthFailed"
      then (do
        bound ← get "carrier_bound" d >>= as_truth
        n ← get "count" d >>= as_int
        some (join_auth_failed bound n))
      else if kind == "JoinSecurityUnavailable"
      then some join_security_unavailable
      else if kind == "PipePriorityChanged"
      then (do
        p ← get "pipe" d >>= as_int
        priority ← get "send_priority" d >>= as_int
        standby ← get "standby" d >>= as_truth
        weight ← get "weight" d >>= as_int
        source ← get "source" d >>= as_str
        some (pipe_priority_changed p priority standby weight source))
      else if kind == "PipeQualityChanged"
      then (do
        p ← get "pipe" d >>= as_int
        rtt ← get "smoothed_rtt" d >>= or_none as_float
        rate ← get "delivery_rate" d >>= or_none as_int
        some (pipe_quality_changed p rtt rate))
      else if kind == "TierSaturation"
      then (do
        priority ← get "priority" d >>= as_int
        saturated ← get "saturated" d >>= as_truth
        some (tier_saturation priority saturated))
      else if kind == "CapacityBelow"
      then (do rate ← get "rate" d >>= as_int; some (capacity_below rate))
      else if kind == "CapacityRestored"
      then (do rate ← get "rate" d >>= as_int; some (capacity_restored rate))
      else if kind == "GoAway"
      then (do
        max_bidi ← get "max_bidi" d >>= as_int
        max_uni ← get "max_uni" d >>= as_int
        code ← get "code" d >>= as_int
        some (go_away max_bidi max_uni code))
      else if kind == "Suspended"
      then some suspended
      else if kind == "Resumed"
      then some resumed
      else if kind == "PipesRetired"
      then (do
        retired ← get "retired" d >>= as_int
        failed ← get "failed" d >>= as_int
        closed ← get "closed" d >>= as_int
        dropped ← get "dropped" d >>= as_int
        last ← get "last" d >>= as_ints
        some (pipes_retired retired failed closed dropped last))
      else if kind == "CarrierCandidate"
      then (do
        carrier ← get "carrier" d >>= as_str
        outcome ← get "outcome" d >>= as_str
        joined ← get "joined" d >>= as_truth
        some (carrier_candidate carrier outcome joined))
      else if kind == "CarrierChosen"
      then (do carrier ← get "carrier" d >>= as_str; some (carrier_chosen carrier))
      else (do detail ← get "detail" d >>= as_str; some (another detail))

abbrev mapped : {A B : Type 0} → (A → B) → Option A → Option B
mapped f none = none
mapped f (some a) = some (f a)

module _ (z : Shows) where
  -- The event with its texts and seconds.
  abbrev pub seen : Event z → Seen z.Float
  seen (pipe_state p s f c) =
      pipe_state p (z.half_debug s, direction_state z s) (mapped z.failure_text f)
        (mapped z.carrier_name c)
  seen (join_auth_failed b n) = join_auth_failed b n
  seen join_security_unavailable = join_security_unavailable
  seen (pipe_priority_changed p n b w s) = pipe_priority_changed p n b w (z.source_debug s)
  seen (pipe_quality_changed p t r) = pipe_quality_changed p (mapped z.as_secs t) r
  seen (tier_saturation p b) = tier_saturation p b
  seen (capacity_below r) = capacity_below r
  seen (capacity_restored r) = capacity_restored r
  seen (go_away b u c) = go_away b u c
  seen suspended = suspended
  seen resumed = resumed
  seen (pipes_retired r f c d l) = pipes_retired r f c d l
  seen (carrier_candidate k o j) = carrier_candidate (z.carrier_name k) (z.outcome_name o) j
  seen (carrier_chosen k) = carrier_chosen (z.carrier_name k)
  seen (another e) = another e

  abbrev pub reader : String → Fields z.Float → PyResult (Option (Seen z.Float))
  reader kind d = ok (read kind d)

  -- A reader that knows an event's kind and its fields by their names gets from the object of each
  -- event the event itself, with texts for what the crate has names for and seconds for durations.
  pub event_obj-read : (e : Event z) → event_obj z (ok reader) e ≡ ok (some (seen e))
  unfolding event_obj read event_kind event_items set_items
  event_obj-read (pipe_state p s none none) = refl
  event_obj-read (pipe_state p s none (some c)) = refl
  event_obj-read (pipe_state p s (some f) none) = refl
  event_obj-read (pipe_state p s (some f) (some c)) = refl
  event_obj-read (join_auth_failed b n) = refl
  event_obj-read join_security_unavailable = refl
  event_obj-read (pipe_priority_changed p n b w s) = refl
  event_obj-read (pipe_quality_changed p none none) = refl
  event_obj-read (pipe_quality_changed p none (some r)) = refl
  event_obj-read (pipe_quality_changed p (some t) none) = refl
  event_obj-read (pipe_quality_changed p (some t) (some r)) = refl
  event_obj-read (tier_saturation p b) = refl
  event_obj-read (capacity_below r) = refl
  event_obj-read (capacity_restored r) = refl
  event_obj-read (go_away b u c) = refl
  event_obj-read suspended = refl
  event_obj-read resumed = refl
  event_obj-read (pipes_retired r f c d l) = refl
  event_obj-read (carrier_candidate k o j) = refl
  event_obj-read (carrier_chosen k) = refl
  event_obj-read (another e) = refl
