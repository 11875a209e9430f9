-- ===== src/Dials/Exchange/Makes.antt =====
-- src/lib.rs, `ExchangeOptions.new`: which options are made of which arguments.
use zmux_python.Prelude.{
  ℕ, ◌≡◌, refl, sym, ◌⊎◌, inl, inr, Bool, Bool-cases, Option, none, some, PyErr, PyResult, ok, err,
  ok_or, ◌>>=◌, Holds, if◌then◌else◌,
}
use zmux_python.Errors.{Text}
use zmux_python.Hosts.{same_text}
use zmux_python.Hosts.Address.{same}
use zmux_python.Dials.Exchange.{
  Timers, Options, Given, binary, base64_name, unknown_encoding, not_seconds, encoding_of, set_secs,
  set_timers, new_options, encoding, set, filled,
}

module _ {Float : Type 0} (from_secs : Float → Option ℕ) where
  -- A duration that is set: the one that is given, converted, else the default.
  abbrev IsChosen : Option Float → ℕ → ℕ → Type 0
  IsChosen none d x = x ≡ d
  IsChosen (some v) d x = from_secs v ≡ some x

  abbrev AreChosen : Timers (Option Float) → Timers ℕ → Timers ℕ → Type 0
  AreChosen g d t =
      IsChosen g.request_timeout d.request_timeout t.request_timeout
      × IsChosen g.deadline d.deadline t.deadline
      × IsChosen g.hold d.hold t.hold
      × IsChosen g.coalesce d.coalesce t.coalesce
      × IsChosen g.idle_timeout d.idle_timeout t.idle_timeout
      × IsChosen g.gone_memory d.gone_memory t.gone_memory
      × IsChosen g.time_window d.time_window t.time_window
      × IsChosen g.backoff_initial d.backoff_initial t.backoff_initial
      × IsChosen g.backoff_max d.backoff_max t.backoff_max

  abbrev IsRefused : PyErr → Type 0
  IsRefused e = e ≡ not_seconds

  set_secs-IsChosen :
      (g : Option Float) (d : ℕ) → Holds (IsChosen g d) IsRefused (set_secs from_secs g d)
  set_secs-IsChosen none d = refl
  set_secs-IsChosen (some v) d = converted (from_secs v) refl
    where
      converted :
          (o : Option ℕ)
          → from_secs v ≡ o
          → Holds (IsChosen (some v) d) IsRefused (ok_or o not_seconds)
      converted none e = refl
      converted (some x) e = e

  -- One duration after another, on what each conversion gives.
  timer_steps :
      (g : Timers (Option Float)) (d : Timers ℕ) (k l m n o p q r s : PyResult ℕ)
      → Holds (IsChosen g.request_timeout d.request_timeout) IsRefused k
      → Holds (IsChosen g.deadline d.deadline) IsRefused l
      → Holds (IsChosen g.hold d.hold) IsRefused m
      → Holds (IsChosen g.coalesce d.coalesce) IsRefused n
      → Holds (IsChosen g.idle_timeout d.idle_timeout) IsRefused o
      → Holds (IsChosen g.gone_memory d.gone_memory) IsRefused p
      → Holds (IsChosen g.time_window d.time_window) IsRefused q
      → Holds (IsChosen g.backoff_initial d.backoff_initial) IsRefused r
      → Holds (IsChosen g.backoff_max d.backoff_max) IsRefused s
      → Holds (AreChosen g d) IsRefused (
          k >>= λ k. l >>= λ l. m >>= λ m. n >>= λ n. o >>= λ o. p >>= λ p. q >>= λ q. r >>= λ r.
          s >>= λ s. ok (record {
            request_timeout = k;
            deadline = l;
            hold = m;
            coalesce = n;
            idle_timeout = o;
            gone_memory = p;
            time_window = q;
            backoff_initial = r;
            backoff_max = s;
          }))
  timer_steps g d (err x) l m n o p q r s hk hl hm hn ho hp hq hr hs = hk
  timer_steps g d (ok k) (err x) m n o p q r s hk hl hm hn ho hp hq hr hs = hl
  timer_steps g d (ok k) (ok l) (err x) n o p q r s hk hl hm hn ho hp hq hr hs = hm
  timer_steps g d (ok k) (ok l) (ok m) (err x) o p q r s hk hl hm hn ho hp hq hr hs = hn
  timer_steps g d (ok k) (ok l) (ok m) (ok n) (err x) p q r s hk hl hm hn ho hp hq hr hs = ho
  timer_steps g d (ok k) (ok l) (ok m) (ok n) (ok o) (err x) q r s hk hl hm hn ho hp hq hr hs = hp
  timer_steps g d (ok k) (ok l) (ok m) (ok n) (ok o) (ok p) (err x) r s hk hl hm hn ho hp hq hr hs =
      hq
  timer_steps g d (ok k) (ok l) (ok m) (ok n) (ok o) (ok p) (ok q) (err x) s hk hl hm hn ho hp hq hr
        hs =
      hr
  timer_steps g d (ok k) (ok l) (ok m) (ok n) (ok o) (ok p) (ok q) (ok r) (err x) hk hl hm hn ho hp
        hq hr hs =
      hs
  timer_steps g d (ok k) (ok l) (ok m) (ok n) (ok o) (ok p) (ok q) (ok r) (ok s) hk hl hm hn ho hp
        hq hr hs =
      (hk, hl, hm, hn, ho, hp, hq, hr, hs)

  set_timers-AreChosen :
      (g : Timers (Option Float)) (d : Timers ℕ)
      → Holds (AreChosen g d) IsRefused (set_timers from_secs g d)
  unfolding set_timers
  set_timers-AreChosen g d =
      timer_steps g d (set_secs from_secs g.request_timeout d.request_timeout)
        (set_secs from_secs g.deadline d.deadline) (set_secs from_secs g.hold d.hold)
        (set_secs from_secs g.coalesce d.coalesce)
        (set_secs from_secs g.idle_timeout d.idle_timeout)
        (set_secs from_secs g.gone_memory d.gone_memory)
        (set_secs from_secs g.time_window d.time_window)
        (set_secs from_secs g.backoff_initial d.backoff_initial)
        (set_secs from_secs g.backoff_max d.backoff_max)
        (set_secs-IsChosen g.request_timeout d.request_timeout)
        (set_secs-IsChosen g.deadline d.deadline) (set_secs-IsChosen g.hold d.hold)
        (set_secs-IsChosen g.coalesce d.coalesce) (set_secs-IsChosen g.idle_timeout d.idle_timeout)
        (set_secs-IsChosen g.gone_memory d.gone_memory)
        (set_secs-IsChosen g.time_window d.time_window)
        (set_secs-IsChosen g.backoff_initial d.backoff_initial)
        (set_secs-IsChosen g.backoff_max d.backoff_max)

  -- An argument that is given, else the default.
  abbrev IsGiven : {A : Type 0} → Option A → A → A → Type 0
  IsGiven none d x = x ≡ d
  IsGiven (some a) d x = x ≡ a

  set-IsGiven : {A : Type 0} (g : Option A) (d : A) → IsGiven g d (set g d)
  set-IsGiven none d = refl
  set-IsGiven (some a) d = refl

  abbrev Keeps : Given Float → Options → Options → Type 0
  Keeps g d o =
      IsGiven g.psk d.psk o.psk
      × IsGiven g.path d.path o.path
      × IsGiven g.query d.query o.query
      × IsGiven g.down_requests d.down_requests o.down_requests
      × IsGiven g.up_requests d.up_requests o.up_requests
      × IsGiven g.down_window d.down_window o.down_window
      × IsGiven g.up_store d.up_store o.up_store
      × IsGiven g.max_recorded d.max_recorded o.max_recorded

  abbrev Copies : Given Float → Options → Type 0
  Copies g o =
      (o.unauthenticated ≡ g.unauthenticated)
      × (o.down_path ≡ g.down_path)
      × (o.up_piece ≡ g.up_piece)
      × (o.max_down_piece ≡ g.max_down_piece)
      × (o.down_piece ≡ g.down_piece)
      × (o.max_up_piece ≡ g.max_up_piece)
      × (o.max_carriers ≡ g.max_carriers)

  abbrev pub Makes : Options → Given Float → Options → Type 0
  Makes d g o =
      (encoding o ≡ g.encoding) × AreChosen g.timers d.timers o.timers × Keeps g d o × Copies g o

  abbrev pub IsReason : PyErr → Type 0
  IsReason e = (e ≡ unknown_encoding) ⊎ (e ≡ not_seconds)

  abbrev encoding_name : Bool → Text
  encoding_name b = if b then base64_name else binary

  encoding_of-name :
      (n : Text) → Holds (λ b. encoding_name b ≡ n) (λ e. e ≡ unknown_encoding) (encoding_of n)
  unfolding encoding_of
  encoding_of-name n = elim (Bool-cases (same_text n binary)) [
    | inl t ↦ rw t (sym (same n binary t))
    | inr f ↦ elim (Bool-cases (same_text n base64_name)) [
      | inl t ↦ rw (f, t) (sym (same n base64_name t))
      | inr h ↦ rw (f, h) refl
    ]
  ]

  -- On what the encoding and the durations come to.
  option_steps :
      (d : Options) (g : Given Float) (b : PyResult Bool) (t : PyResult (Timers ℕ))
      → Holds (λ b. encoding_name b ≡ g.encoding) (λ e. e ≡ unknown_encoding) b
      → Holds (AreChosen g.timers d.timers) IsRefused t
      → Holds (Makes d g) IsReason (b >>= λ b. t >>= λ t. ok (filled from_secs d g b t))
  option_steps d g (err e) t hb ht = inl hb
  option_steps d g (ok b) (err e) hb ht = inr ht
  option_steps d g (ok b) (ok t) hb ht = (
    hb,
    ht,
    (
      set-IsGiven g.psk d.psk,
      set-IsGiven g.path d.path,
      set-IsGiven g.query d.query,
      set-IsGiven g.down_requests d.down_requests,
      set-IsGiven g.up_requests d.up_requests,
      set-IsGiven g.down_window d.down_window,
      set-IsGiven g.up_store d.up_store,
      set-IsGiven g.max_recorded d.max_recorded,
    ),
    (refl, refl, refl, refl, refl, refl, refl),
  )

  -- Options that are made have the encoding that was named, each duration given, converted, or the
  -- default, each other argument that has a default as given or the default, and the arguments
  -- without one as they are. Else the call raises `ValueError` for an unknown encoding, or, where
  -- the encoding is known, for a duration that is none.
  pub new_options-Makes :
      (d : Options) (g : Given Float) → Holds (Makes d g) IsReason (new_options from_secs d g)
  unfolding new_options
  new_options-Makes d g =
      option_steps d g (encoding_of g.encoding) (set_timers from_secs g.timers d.timers)
        (encoding_of-name g.encoding) (set_timers-AreChosen g.timers d.timers)
