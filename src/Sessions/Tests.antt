-- ===== src/Sessions/Tests.antt =====
-- src/lib.rs, the calls of a session at concrete inputs.
use zmux_python.Prelude.{
  ℕ, suc, ◌≡◌, refl, Bool, true, false, Option, none, some, List, [], ◌∷◌, ◌++◌, ltb, if◌then◌else◌,
  raised, ok, err, traverse,
}
use zmux_python.Streams.{done, failed}
use zmux_python.Shaping.ByKind.Sample.{machines}
use zmux_python.Sessions.Preamble.{Builder, Said, Tlv, preamble, Says, given, preamble-Says}
use zmux_python.Sessions.Opening.{Crate, Prio, priority, open_pair, no_urgency, new_prios}
use zmux_python.Sessions.Opening.Opens.{Opens, open_pair-Opens}
use zmux_python.Errors.{Text, kind_of}
use zmux_python.Sessions.Events.{
  Shows, Event, inbound, pipe_state, event_obj, direction_state, next_event, stop_iteration,
}
use zmux_python.Sessions.Events.Reading.{reader, seen, event_obj-read}
use zmux_python.Sessions.Shapers.{set_shaper, Shapes, set_shaper-Shapes}

abbrev builder : Builder
builder = record {
  Preamble = Said;
  new = record { carrier = false; info = none; tlvs = [] };
  with_pipe_carrier = λ p. record p { carrier = true };
  with_info = λ i p. record p { info = some i };
  with_tlv = λ t p. record p { tlvs = p.tlvs ++ t ∷ [] };
  said = λ p. p;
  said-new = refl;
  said-with_pipe_carrier = λ p. refl;
  said-with_info = λ i p. refl;
  said-with_tlv = λ t p. refl;
}

abbrev two_tlvs : List Tlv
two_tlvs = (1, 5 ∷ []) ∷ (2, []) ∷ []

tlvs_said :
    Says builder
      (given builder none (some two_tlvs) true)
      (preamble builder none (some two_tlvs) true)
tlvs_said = preamble-Says builder none (some two_tlvs) true

-- A session that counts the streams it opened, whose parts are numbers that hold their priority.
abbrev crate : Crate builder
crate = record {
  Session = ℕ;
  Send = ℕ;
  Recv = ℕ;
  Err = Bool;
  Priority = ℕ;
  open_bi = λ p s. (done (0, 0), suc s);
  open_uni = λ p s. (done 0, suc s);
  open_pipe = λ p s. (done 0, suc s);
  set_priority = λ p part. (done tt, p);
  set_peer_priority = λ p part. (if ltb p 4 then done tt else failed true, p);
  new_priority = λ u i. if ltb u 8 then some u else none;
  open_err = λ e. raised "OpenError";
  stream_err = λ e. raised "StreamError";
}

-- The stream is opened although the peer's priority is then refused.
open_pair-refused :
    open_pair builder crate none none false none (some (5, true)) 0
    ≡ (err (raised "StreamError"), 1)
unfolding open_pair new_prios preamble
open_pair-refused = refl

-- No stream is opened with an urgency out of range.
open_pair-urgency :
    open_pair builder crate none none false (some (9, true)) none 0 ≡ (err no_urgency, 0)
unfolding open_pair new_prios preamble
open_pair-urgency = refl

abbrev prio : Option Prio
prio = some (3, false)

open_pair-Opens_example :
    Opens builder crate
      (traverse (priority builder crate) prio)
      (traverse (priority builder crate) none)
      (done (0, 0), 1)
      0
      (open_pair builder crate none none false prio none 0)
open_pair-Opens_example = open_pair-Opens builder crate none none false prio none 0

abbrev no_sequence : Unit {0} → ℕ → Option ℕ
no_sequence o q = none

json_given :
    Shapes machines no_sequence
      (ok tt)
      (some 4)
      none
      none
      none
      (set_shaper machines no_sequence (ok tt) (some 4) none none none)
json_given = set_shaper-Shapes machines no_sequence (ok tt) (some 4) none none none

-- The crate's values are their texts, and durations whole nanoseconds.
abbrev shows : Shows
shows = record {
  Failure = Text;
  Carrier = Text;
  Outcome = Text;
  Source = Text;
  Out = Text;
  In = Text;
  Float = ℕ;
  failure_text = λ t. t;
  carrier_name = λ t. t;
  outcome_name = λ t. t;
  source_debug = λ t. t;
  out_debug = λ t. t;
  in_debug = λ t. t;
  half_debug = λ s. 73 ∷ [];
  as_secs = λ n. n;
}

-- An inbound direction whose state has the text "Up(2)", over a carrier named "q".
abbrev went_up : Event shows
went_up = pipe_state 3 (inbound (85 ∷ 112 ∷ 40 ∷ 50 ∷ 41 ∷ [])) none (some (113 ∷ []))

went_up_seen :
    event_obj shows (ok (reader shows)) went_up
    ≡ ok (some (pipe_state 3 (73 ∷ [], 85 ∷ 112 ∷ []) none (some (113 ∷ []))))
unfolding direction_state kind_of
went_up_seen = event_obj-read shows went_up

event_obj-read_example :
    event_obj shows (ok (reader shows)) went_up ≡ ok (some (seen shows went_up))
event_obj-read_example = event_obj-read shows went_up

-- The iteration ends with the session.
events_end : next_event shows (ok (reader shows)) none ≡ err stop_iteration
unfolding next_event
events_end = refl
