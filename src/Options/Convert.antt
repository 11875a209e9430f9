-- ===== src/Options/Convert.antt =====
-- src/lib.rs, `pipe_options` and `options_obj`: options that went to Python come back the same.
use zmux_python.Prelude.{◌≡◌, refl, Bool, true, Option, none, some, ok}
use zmux_python.Values.{Python, IsU64, IsExact, opt-int, opt-bool, opt-float, opt-str, opt-secs}
use zmux_python.Options.{
  Period, off, every, PipeOptions, period, interval, idle, pipe_options, options_obj,
}

period-interval : (p : Option Period) → period (idle p) (interval p) ≡ ok p
period-interval none = refl
period-interval (some off) = refl
period-interval (some (every d)) = refl

module _ (py : Python) where
  open py use {Float, Str}

  -- Options that Python can hold: the integers are u64, the durations are exact as floats.
  abbrev pub IsHeld : PipeOptions Float Str → Type 0
  IsHeld o =
      IsU64 py o.send_priority
      × IsU64 py (some o.receive_priority)
      × IsU64 py (some o.weight)
      × IsU64 py (some o.fate_group)
      × IsExact py o.probation
      × IsExact py o.suspect_floor
      × IsExact py o.dead_timeout
      × IsExact py (interval o.probe_interval)

  -- The options that `options_obj` gives to Python, and so to the callable of a pool, are read back
  -- by `pipe_options` as they were, for valid options whose durations are exact as floats.
  pub pipe_options-options_obj :
      (validate : PipeOptions Float Str → Bool) (new o : PipeOptions Float Str)
      → validate o ≡ true
      → IsHeld o
      → pipe_options py validate new (some (options_obj py o)) ≡ ok o
  unfolding pipe_options options_obj
  pipe_options-options_obj validate new o valid (sp, rp, w, fg, pr, sf, dt, pi) =
      rw
        (
          opt-int py o.send_priority sp,
          opt-int py (some o.receive_priority) rp,
          opt-bool py o.send_standby,
          opt-bool py (some o.receive_standby),
          opt-int py (some o.weight) w,
          opt-secs py o.probation pr,
          opt-str py o.label,
          opt-int py (some o.fate_group) fg,
          opt-secs py o.suspect_floor sf,
          opt-secs py o.dead_timeout dt,
          opt-bool py (idle o.probe_interval),
          opt-secs py (interval o.probe_interval) pi,
          period-interval o.probe_interval,
          opt-float py o.probe_jitter,
          valid,
        )
        refl
