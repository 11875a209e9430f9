-- ===== src/Options/Tests.antt =====
-- src/lib.rs, the options of a pipe at concrete inputs.
use zmux_python.Prelude.{◌≡◌, refl, true, none, some, List, [], ◌∷◌, All, ok, arith}
use zmux_python.Handles.PipeIo.{pos}
use zmux_python.Values.{to_u64}
use zmux_python.Values.Sample.{Value, none_value, int, sample}
use zmux_python.Options.{PipeOptions, every, pipe_options, options_obj}
use zmux_python.Options.Convert.{pipe_options-options_obj}
use zmux_python.Options.Update
use zmux_python.Options.Update.{
  is_updatable, pipe_update, no_change, sets, names, IsUpdatable, pipe_update-names,
}

abbrev options : PipeOptions sample.Float sample.Str
options = record {
  send_priority = some 3;
  receive_priority = 1;
  send_standby = none;
  receive_standby = true;
  weight = 16;
  probation = none;
  label = some 5;
  fate_group = 0;
  suspect_floor = none;
  dead_timeout = some 2000000000;
  probe_interval = some (every 3000000000);
  probe_jitter = none;
}

pipe_options-options_obj_example :
    pipe_options sample (λ o. true) options (some (options_obj sample options)) ≡ ok options
pipe_options-options_obj_example =
    pipe_options-options_obj sample (λ o. true) options options refl
      (omega arith, omega arith, omega arith, omega arith, tt, tt, refl, refl)

abbrev kvs : List (Update.Key × Value)
kvs = (Update.weight, int (pos 4)) ∷ (Update.send_priority, none_value) ∷ []

pipe_update-names_example : All (IsUpdatable sample) kvs × (true ≡ names sample Update.weight kvs)
unfolding pipe_update to_u64
pipe_update-names_example =
    pipe_update-names sample kvs (record no_change { weight = some 4; send_priority = some none })
      Update.weight refl refl
