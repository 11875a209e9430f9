-- ===== src/Options/Update.antt =====
-- src/lib.rs, `pipe_update`: the options that `Pipe.update` changes on a live pipe.
use zmux_python.Prelude.{
  ℕ, ◌≡◌, refl, Bool, true, false, not, ◌&&◌, ◌||◌, Option, none, some, is_some, List, [], ◌∷◌,
  PyErr, type_error, PyResult, ok, err, raise_if, ◌>>=◌, ◌>>◌, All, ◌==◌, arith, String,
}
use zmux_python.Values.{Python, natural, extract_secs, opt}

-- The keywords: UPDATABLE, FIXED, and any other.
pub data Key : Type 0 where
  send_priority receive_priority send_standby receive_standby weight probation : Key
  label fate_group suspect_floor dead_timeout probe_interval idle_probes probe_jitter : Key
  unknown : String → Key

abbrev pub is_fixed : Key → Bool
is_fixed label = true
is_fixed fate_group = true
is_fixed suspect_floor = true
is_fixed dead_timeout = true
is_fixed probe_interval = true
is_fixed idle_probes = true
is_fixed probe_jitter = true
is_fixed k = false

abbrev pub is_updatable : Key → Bool
is_updatable send_priority = true
is_updatable receive_priority = true
is_updatable send_standby = true
is_updatable receive_standby = true
is_updatable weight = true
is_updatable probation = true
is_updatable k = false

abbrev pub takes_none : Key → Bool
takes_none send_priority = true
takes_none send_standby = true
takes_none k = false

-- `zmux::PipeUpdate`
pub record PipeUpdate : Type 0 where
  pub send_priority : Option (Option ℕ)
  pub receive_priority : Option ℕ
  pub send_standby : Option (Option Bool)
  pub receive_standby : Option Bool
  pub weight : Option ℕ
  pub probation : Option (Option ℕ)

abbrev pub no_change : PipeUpdate
no_change = record {
  send_priority = none;
  receive_priority = none;
  send_standby = none;
  receive_standby = none;
  weight = none;
  probation = none;
}

abbrev pub fixed_err : PyErr
fixed_err = type_error "fixed when the pipe is added"

abbrev pub unknown_err : PyErr
unknown_err = type_error "no pipe option"

abbrev pub none_err : PyErr
none_err = type_error "takes a value, not None"

module _ (py : Python) where
  open py use {Obj, is_none, extract_bool}

  -- The last `match`, which only updatable keys reach.
  unfoldable pub set_field : Key → Obj → PipeUpdate → PyResult PipeUpdate
  set_field send_priority v u =
      opt py (natural py) v >>= λ x. ok (record u { send_priority = some x })
  set_field send_standby v u =
      opt py extract_bool v >>= λ x. ok (record u { send_standby = some x })
  set_field receive_priority v u = natural py v >>= λ x. ok (record u { receive_priority = some x })
  set_field receive_standby v u = extract_bool v >>= λ x. ok (record u { receive_standby = some x })
  set_field weight v u = natural py v >>= λ x. ok (record u { weight = some x })
  set_field k v u = extract_secs py v >>= λ x. ok (record u { probation = some (some x) })

  unfoldable pub update_field : Key → Obj → PipeUpdate → PyResult PipeUpdate
  unfolding set_field
  update_field k v u = do
    raise_if (is_fixed k) fixed_err
    raise_if (not (is_updatable k)) unknown_err
    raise_if (is_none v && not (takes_none k)) none_err
    set_field k v u

  -- The loop over the keywords.
  unfoldable pub pipe_update : List (Key × Obj) → PipeUpdate → PyResult PipeUpdate
  unfolding update_field
  pipe_update [] u = ok u
  pipe_update (kv ∷ kvs) u = update_field kv.0 kv.1 u >>= pipe_update kvs

  -- Whether an update sets an option.
  abbrev pub sets : Key → PipeUpdate → Bool
  sets send_priority u = is_some u.send_priority
  sets receive_priority u = is_some u.receive_priority
  sets send_standby u = is_some u.send_standby
  sets receive_standby u = is_some u.receive_standby
  sets weight u = is_some u.weight
  sets probation u = is_some u.probation
  sets k u = false

  abbrev number : Key → ℕ
  number send_priority = 0
  number receive_priority = 1
  number send_standby = 2
  number receive_standby = 3
  number weight = 4
  number probation = 5
  number k = 6

  abbrev pub names : Key → List (Key × Obj) → Bool
  names k [] = false
  names k (kv ∷ kvs) = (number k == number kv.0) || names k kvs

  update_field-updatable :
      (k : Key) (v : Obj) (u u' : PipeUpdate) → update_field k v u ≡ ok u' → is_updatable k ≡ true
  unfolding update_field
  update_field-updatable label v u u' e = ground arith
  update_field-updatable k v u u' e = ground arith

  update_field-sets :
      (k : Key) (v : Obj) (u u' : PipeUpdate) (j : Key)
      → update_field k v u ≡ ok u'
      → is_updatable j ≡ true
      → sets j u' ≡ ((number j == number k) || sets j u)
  unfolding update_field
  update_field-sets send_priority v u u' j e h = ground arith
  update_field-sets k v u u' j e h = ground arith

  abbrev pub IsUpdatable : Key × Obj → Type 0
  IsUpdatable kv = is_updatable kv.0 ≡ true

  -- What the update `u'` of the keywords is, from `u`.
  abbrev Updates : List (Key × Obj) → Key → PipeUpdate → PipeUpdate → Type 0
  Updates kvs j u u' = All IsUpdatable kvs × (sets j u' ≡ (names j kvs || sets j u))

  Updates-cons :
      (kv : Key × Obj) (kvs : List (Key × Obj)) (u u' : PipeUpdate) (j : Key)
      (r : PyResult PipeUpdate)
      → is_updatable j ≡ true
      → ((u₁ : PipeUpdate) → pipe_update kvs u₁ ≡ ok u' → Updates kvs j u₁ u')
      → update_field kv.0 kv.1 u ≡ r
      → (r >>= pipe_update kvs) ≡ ok u'
      → Updates (kv ∷ kvs) j u u'
  Updates-cons kv kvs u u' j (err x) h after first e = absurd (cc)
  Updates-cons kv kvs u u' j (ok u₁) h after first e =
      let (rest, same) = after u₁ e in
      (
        (update_field-updatable kv.0 kv.1 u u₁ first, rest),
        ground (arith, same, update_field-sets kv.0 kv.1 u u₁ j first h),
      )

  pipe_update-Updates :
      (kvs : List (Key × Obj)) (u u' : PipeUpdate) (j : Key)
      → is_updatable j ≡ true
      → pipe_update kvs u ≡ ok u'
      → Updates kvs j u u'
  unfolding pipe_update
  pipe_update-Updates [] u u' j h e = (tt, ground arith)
  pipe_update-Updates (kv ∷ kvs) u u' j h e =
      Updates-cons kv kvs u u' j (update_field kv.0 kv.1 u) h
        (λ u₁ e₁. pipe_update-Updates kvs u₁ u' j h e₁) refl e

  -- An update that is made names only options that can be updated, no fixed one and no unknown one,
  -- and sets those that it names and no other.
  pub pipe_update-names :
      (kvs : List (Key × Obj)) (u : PipeUpdate) (j : Key)
      → pipe_update kvs no_change ≡ ok u
      → is_updatable j ≡ true
      → All IsUpdatable kvs × (sets j u ≡ names j kvs)
  pipe_update-names kvs u j e h =
      let (updatable, same) = pipe_update-Updates kvs no_change u j h e in
      (updatable, none_set j u same)
    where
      none_set :
          (j : Key) (u : PipeUpdate)
          → sets j u ≡ (names j kvs || sets j no_change)
          → sets j u ≡ names j kvs
      none_set send_priority u e = ground (arith, e)
      none_set j u e = ground (arith, e)
