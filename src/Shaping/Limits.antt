-- ===== src/Shaping/Limits.antt =====
-- src/shaping.rs, `session_limits`, `size_limits` and `options`: the bounds of a shaper from the
-- attributes of a Python object, and the source that a seed gives.
use zmux_python.Prelude.{
  ℕ, Bool, not, Option, none, some, List, PyErr, value_error, PyResult, ok, ok_or, traverse,
  raise_if, ◌>>=◌, ◌>>◌,
}
use zmux_python.Shaping.SplitMix.{fold}

-- The attributes of a `ShapingLimits` and of a `ShapingSizeLimits`.
pub data Bound : Type 0 where
  max_padding_bytes max_padding_ratio max_injected max_pause_total max_delay : Bound

pub data Size : Type 0 where
  max_bytes max_machines max_states max_actions max_transitions max_points : Size

-- The crate's limits: a count, a ratio, and durations in nanoseconds where there is a bound.
pub record Limits (Count Ratio : Type 0) : Type 0 where
  pub max_padding_bytes : Count
  pub max_padding_ratio : Ratio
  pub max_injected : Count
  pub max_pause_total : Option ℕ
  pub max_delay : Option ℕ

pub record SizeLimits : Type 0 where
  pub max_bytes : ℕ
  pub max_machines : ℕ
  pub max_states : ℕ
  pub max_actions : ℕ
  pub max_transitions : ℕ
  pub max_points : ℕ

-- The executor options: the bounds, the defaults where there are none, and the state of the seeded
-- source, the operating system's generator where there is none.
pub record Options : Type 0 where
  pub limits : Option SizeLimits
  pub source : Option ℕ

abbrev pub negative : PyErr
negative = value_error "a non-negative number of seconds"

abbrev pub invalid : PyErr
invalid = value_error "limits that the crate refuses"

-- What PyO3 extracts; `attr` is `getattr` of a bound, `size` that of a size.
module _ {Obj Float Count Ratio : Type 0} (extract_count : Obj → PyResult Count)
    (extract_ratio : Obj → PyResult Ratio) (extract_float : Obj → PyResult (Option Float))
    (from_secs : Float → Option ℕ) where
  -- `secs`
  unfoldable pub secs : PyResult Obj → PyResult (Option ℕ)
  secs a = do o ← a; v ← extract_float o; traverse (λ f. ok_or (from_secs f) negative) v

  unfoldable pub session_limits :
      (Limits Count Ratio → Bool) → (Bound → PyResult Obj) → PyResult (Limits Count Ratio)
  unfolding secs
  session_limits validate attr = do
    bytes ← attr Bound.max_padding_bytes >>= extract_count
    ratio ← attr Bound.max_padding_ratio >>= extract_ratio
    injected ← attr Bound.max_injected >>= extract_count
    pause ← secs (attr Bound.max_pause_total)
    delay ← secs (attr Bound.max_delay)
    let l : Limits Count Ratio = record {
      max_padding_bytes = bytes;
      max_padding_ratio = ratio;
      max_injected = injected;
      max_pause_total = pause;
      max_delay = delay;
    }
    raise_if (not (validate l)) invalid
    ok l

module _ {Obj : Type 0} (extract_size : Obj → PyResult ℕ) where
  unfoldable pub size_limits : (Size → PyResult Obj) → PyResult SizeLimits
  size_limits attr = do
    bytes ← attr Size.max_bytes >>= extract_size
    machines ← attr Size.max_machines >>= extract_size
    states ← attr Size.max_states >>= extract_size
    actions ← attr Size.max_actions >>= extract_size
    transitions ← attr Size.max_transitions >>= extract_size
    points ← attr Size.max_points >>= extract_size
    ok (record {
      max_bytes = bytes;
      max_machines = machines;
      max_states = states;
      max_actions = actions;
      max_transitions = transitions;
      max_points = points;
    })

  abbrev seeded : Option (List ℕ) → Option ℕ
  seeded none = none
  seeded (some seed) = some (fold seed)

  unfoldable pub options : Option (Size → PyResult Obj) → Option (List ℕ) → PyResult Options
  unfolding size_limits
  options limits seed = do
    l ← traverse size_limits limits
    ok (record { limits = l; source = seeded seed })
