-- ===== src/Modes/Cache.antt =====
-- src/mode.rs, `CarrierCache` and `kind`: the calls on a cache that dials share.
use zmux_python.Prelude.{
  ℕ, ◌≡◌, refl, ap, ◌∙◌, Bool, Option, none, some, List, [], ◌∷◌, PyErr, value_error, PyResult, ok,
  err, ok_or, ◌>>=◌, is_some,
}
use zmux_python.Prelude.Stateful.{Call}

-- The crate's cache, its snapshots and the kinds it knows; `seconds` converts a float.
pub record Crate : Type 1 where
  pub Cache : Type 0
  pub Snapshot : Type 0
  pub Kind : Type 0
  pub Str : Type 0
  pub Float : Type 0
  pub seconds : Float → PyResult ℕ
  pub new : ℕ → ℕ → ℕ → Cache
  pub from_name : Str → Option Kind
  pub is_usable : Str → Kind → Cache → Bool
  pub failed_until : Str → Kind → Cache → Option ℕ
  pub snapshot : Cache → Snapshot
  pub to_json : Snapshot → Str
  pub from_json : Str → Option Snapshot
  pub restore : Snapshot → Cache → Cache

abbrev pub unknown_kind : PyErr
unknown_kind = value_error "unknown carrier kind"

abbrev pub malformed : PyErr
malformed = value_error "a snapshot that does not parse"

module _ (z : Crate) where
  open z use {Cache, Snapshot, Kind, Str, Float, from_name, from_json, to_json}

  -- `CarrierCache.new`
  unfoldable pub new_cache : Float → Float → Float → PyResult Cache
  new_cache ttl least most = do
    t ← z.seconds ttl
    l ← z.seconds least
    m ← z.seconds most
    ok (z.new t l m)

  -- The calls with their arguments, and what they give.
  pub data CacheCall : Type 0 where
    is_usable is_failed : (key carrier : Str) → CacheCall
    snapshot : CacheCall
    restore : Str → CacheCall

  pub data Answer : Type 0 where
    truth : Bool → Answer
    text : Str → Answer
    nothing : Answer

  -- `kind`
  abbrev pub kind : Str → PyResult Kind
  kind name = ok_or (from_name name) unknown_kind

  unfoldable pub restore_at : Option Snapshot → Call Cache Answer
  restore_at none c = (err malformed, c)
  restore_at (some s) c = (ok nothing, z.restore s c)

  -- The methods of `CarrierCache`
  unfoldable pub cache_call : CacheCall → Call Cache Answer
  unfolding restore_at
  cache_call (is_usable key carrier) c = (kind carrier >>= λ k. ok (truth (z.is_usable key k c)), c)
  cache_call (is_failed key carrier) c =
      (kind carrier >>= λ k. ok (truth (is_some (z.failed_until key k c))), c)
  cache_call snapshot c = (ok (text (to_json (z.snapshot c))), c)
  cache_call (restore s) c = restore_at (from_json s) c

  -- The snapshots that calls restore, where they parse.
  abbrev merge_at : Option Snapshot → Cache → Cache
  merge_at none c = c
  merge_at (some s) c = z.restore s c

  abbrev pub merged : List CacheCall → Cache → Cache
  merged [] c = c
  merged (restore s ∷ rest) c = merged rest (merge_at (from_json s) c)
  merged (o ∷ rest) c = merged rest c

  abbrev pub after : List CacheCall → Cache → Cache
  after [] c = c
  after (o ∷ rest) c = after rest (cache_call o c).1

  restored : (s : Option Snapshot) (c : Cache) → (restore_at s c).1 ≡ merge_at s c
  unfolding restore_at
  restored none c = refl
  restored (some s) c = refl

  -- Over any sequence of calls the cache changes only by the snapshots that parse, each merged once
  -- and in order; a call that raises changes nothing.
  pub after-merged : (os : List CacheCall) (c : Cache) → after os c ≡ merged os c
  unfolding cache_call
  after-merged [] c = refl
  after-merged (restore s ∷ rest) c =
      after-merged rest (restore_at (from_json s) c).1 ∙ ap (merged rest) (restored (from_json s) c)
  after-merged (is_usable k n ∷ rest) c = after-merged rest c
  after-merged (is_failed k n ∷ rest) c = after-merged rest c
  after-merged (snapshot ∷ rest) c = after-merged rest c
