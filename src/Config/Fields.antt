-- ===== src/Config/Fields.antt =====
-- src/lib.rs, `Config.new`: what `None` does for a field, and which names are refused.
use zmux_python.Prelude.{
  ◌≡◌, refl, inl, inr, true, false, Bool-cases, List, [], ◌∷◌, ◌++◌, All, PyResult, ok, err,
  bind_ok, ◌>>=◌, arith,
}
use zmux_python.Values.{Python}
use zmux_python.Config.{
  Key, is_timer, handshake_timeout, max_idle_timeout, keep_alive_period, standby_probe,
  probe_interval, unknown, Conversions, Config, set_field, new_config,
}

module _ (py : Python) (cv : Conversions py) where
  open py use {Obj, is_none}

  set_field-none :
      (k : Key) (v : Obj) (c : Config py cv)
      → is_none v ≡ true
      → is_timer k ≡ false
      → set_field py cv k v c ≡ ok c
  unfolding set_field
  set_field-none handshake_timeout v c h t = absurd (cc)
  set_field-none max_idle_timeout v c h t = absurd (cc)
  set_field-none keep_alive_period v c h t = absurd (cc)
  set_field-none standby_probe v c h t = absurd (cc)
  set_field-none probe_interval v c h t = absurd (cc)
  set_field-none k v c h t = rw h refl

  -- A field other than a timer or period that is given as `None` changes nothing, wherever it stands
  -- among the fields: each such field keeps its default. A name that is no field is not refused then.
  pub new_config-none :
      (before : List (Key × Obj)) (k : Key) (v : Obj) (after : List (Key × Obj)) (c : Config py cv)
      → is_none v ≡ true
      → is_timer k ≡ false
      → new_config py cv (before ++ (k, v) ∷ after) c ≡ new_config py cv (before ++ after) c
  unfolding new_config
  new_config-none [] k v after c h t = rw (set_field-none k v c h t) refl
  new_config-none (kv ∷ before) k v after c h t =
      go (set_field py cv kv.0 kv.1 c) (λ m. new_config-none before k v after m h t)
    where
      go :
          (r : PyResult (Config py cv))
          → ((m : Config py cv)
              → new_config py cv (before ++ (k, v) ∷ after) m
                ≡ new_config py cv (before ++ after) m)
          → (r >>= new_config py cv (before ++ (k, v) ∷ after))
            ≡ (r >>= new_config py cv (before ++ after))
      go (ok m) rest = rest m
      go (err e) rest = refl

  -- A name that is a field, or one whose value is `None`.
  abbrev pub IsTaken : Key × Obj → Type 0
  IsTaken (unknown n, v) = is_none v ≡ true
  IsTaken (k, v) = Unit

  set_field-IsTaken :
      (kv : Key × Obj) (c d : Config py cv) → set_field py cv kv.0 kv.1 c ≡ ok d → IsTaken kv
  unfolding set_field
  set_field-IsTaken (unknown n, v) c d h = elim (Bool-cases (is_none v)) [
    | inl e ↦ e
    | inr e ↦ absurd (ground (arith, e, h))
  ]
  set_field-IsTaken (k, v) c d h = tt

  -- A configuration that is made has no field of an unknown name with a value.
  pub new_config-IsTaken :
      (kvs : List (Key × Obj)) (c d : Config py cv)
      → new_config py cv kvs c ≡ ok d
      → All IsTaken kvs
  unfolding new_config
  new_config-IsTaken [] c d h = tt
  new_config-IsTaken (kv ∷ kvs) c d h =
      let (m, rest, first) = bind_ok _ d (set_field py cv kv.0 kv.1 c) h in
      (set_field-IsTaken kv c m first, new_config-IsTaken kvs m d rest)
