-- ===== src/Listener/Settings/Makes.antt =====
-- src/lib.rs, `Listener.new`: which listener is made of which arguments.
use zmux_python.Prelude.{
  ℕ, ◌≤◌, ◌≡◌, refl, ap, Bool, true, false, not, ◌&&◌, Option, none, some, is_some, List, [], ◌∷◌,
  map, length, PyResult, ok, err, raise_if, ◌>>=◌, ◌>>◌, Holds, ltb, arith,
}
use mathlib.Core.Path.{subst}
use zmux_python.Listener.Settings.{
  Settings, Args, or, or_convert, or_left, mapped, with_nets, too_long, no_loop, made, new_listener,
}

-- `for_listener` is that of src/admission.rs.
module _ {Budget Net Fun Admission Native : Type 0} (max_id : ℕ) (for_listener : Admission → Native)
    (d : Settings Budget Net Fun Native) where
  abbrev Arguments : Type 0
  Arguments = Args Budget Net Fun Admission

  abbrev Made : Type 0
  Made = Settings Budget Net Fun Native

  -- A setting is the argument, or the default where it is left out.
  abbrev pub IsArg : {A : Type 0} → A → Option A → A → Type 0
  IsArg d none v = v ≡ d
  IsArg d (some a) v = v ≡ a

  -- The same for an argument that is converted, and for one whose setting is optional.
  abbrev pub IsConverted : {A : Type 0} → A → Option (PyResult A) → A → Type 0
  IsConverted d none v = v ≡ d
  IsConverted d (some r) v = r ≡ ok v

  abbrev pub IsOptional : {A : Type 0} → Option A → Option A → Option A → Type 0
  IsOptional d none v = v ≡ d
  IsOptional d (some a) v = v ≡ some a

  abbrev HasLoop : Option Fun → Bool → Type 0
  HasLoop none in_loop = Unit
  HasLoop (some f) in_loop = in_loop ≡ true

  -- The arguments that must convert do so, the ID fits and a transform has its loop.
  abbrev pub Valid : Arguments → List Net → Budget → ℕ → ℕ → List ℕ → Type 0
  Valid a nets budget first handshake id =
      (a.nets ≡ map ok nets)
      × IsConverted d.memory_budget a.memory_budget budget
      × IsConverted d.first_record_timeout a.first_record_timeout first
      × IsConverted d.handshake_timeout a.handshake_timeout handshake
      × (length id ≤ max_id)
      × HasLoop a.inbound_transform a.in_loop
      × (a.config ≡ ok tt)
      × IsArg d.instance_id a.instance_id id

  abbrev pub Set : Arguments → Made → Type 0
  Set a s =
      (s.forwarded_header ≡ a.forwarded_header)
      × (s.proxy_protocol ≡ a.proxy_protocol)
      × IsArg d.max_pending a.max_pending s.max_pending
      × IsArg d.max_pending_per_source a.max_pending_per_source s.max_pending_per_source
      × IsArg d.max_pending_per_session a.max_pending_per_session s.max_pending_per_session
      × IsArg d.max_record_size a.max_record_size s.max_record_size
      × IsArg d.accept_sessions a.accept_sessions s.accept_sessions
      × IsArg d.max_suspended a.max_suspended s.max_suspended
      × IsOptional d.on_memory_pressure a.on_memory_pressure s.on_memory_pressure
      × (s.admission ≡ mapped for_listener a.admission)
      × IsOptional d.inbound_transform a.inbound_transform s.inbound_transform
      × (s.answer_unknown_joins ≡ a.answer_unknown_joins)

  abbrev pub Makes : Arguments → PyResult Made → Type 0
  Makes a (ok s) =
      Valid a s.nets s.memory_budget s.first_record_timeout s.handshake_timeout s.instance_id
      × Set a s
  Makes a (err e) =
      (nets : List Net) (budget : Budget) (first handshake : ℕ) (id : List ℕ)
      → ¬ Valid a nets budget first handshake id

  taken_nets : (ns : List (PyResult Net)) → Holds (λ l. ns ≡ map ok l) (λ e. Unit) (with_nets ns)
  taken_nets [] = refl
  taken_nets (ok n ∷ ns) = one_more (with_nets ns) (taken_nets ns)
    where
      one_more :
          (r : PyResult (List Net))
          → Holds (λ l. ns ≡ map ok l) (λ e. Unit) r
          → Holds (λ l. (ok n ∷ ns) ≡ map ok l) (λ e. Unit) (r >>= λ l. ok (n ∷ l))
      one_more (ok l) h = ap (◌∷◌ (ok n)) h
      one_more (err e) h = tt
  taken_nets (err e ∷ ns) = tt

  nets_taken : (l : List Net) → with_nets (map ok l) ≡ ok l
  nets_taken [] = refl
  nets_taken (n ∷ l) = rw (nets_taken l) refl

  holds_at :
      {A : Type 0} (P : A → Type 0) (r : PyResult A) (a : A)
      → Holds P (λ e. Unit) r
      → r ≡ ok a
      → P a
  holds_at P r a h e = subst (Holds P (λ x. Unit)) e h

  converted :
      {A : Type 0} (v : A) (o : Option (PyResult A)) (x : A)
      → or_convert v o ≡ ok x
      → IsConverted v o x
  converted v none x e = cc
  converted v (some r) x e = e

  convertible :
      {A : Type 0} (v : A) (o : Option (PyResult A)) (x : A)
      → IsConverted v o x
      → or_convert v o ≡ ok x
  convertible v none x e = cc
  convertible v (some r) x e = e

  argument_taken : {A : Type 0} (v : A) (o : Option A) → IsArg v o (or v o)
  argument_taken v none = refl
  argument_taken v (some a) = refl

  arg_eq : {A : Type 0} (v : A) (o : Option A) (x : A) → IsArg v o x → x ≡ or v o
  arg_eq v none x e = e
  arg_eq v (some a) x e = e

  setting_taken : {A : Type 0} (v o : Option A) → IsOptional v o (or_left v o)
  setting_taken v none = refl
  setting_taken v (some a) = refl

  has_loop : (f : Option Fun) (b : Bool) → is_some f && not b ≡ false → HasLoop f b
  has_loop none b e = tt
  has_loop (some f) true e = refl
  has_loop (some f) false e = absurd (cc)

  loop_there : (f : Option Fun) (b : Bool) → HasLoop f b → is_some f && not b ≡ false
  loop_there none b h = refl
  loop_there (some f) b h = rw h refl

  new_listener_at :
      (a : Arguments) (n : PyResult (List Net)) (b : PyResult Budget) (f h : PyResult ℕ)
      (long loopless : Bool) (c : PyResult (Unit {0}))
      → with_nets a.nets ≡ n
      → or_convert d.memory_budget a.memory_budget ≡ b
      → or_convert d.first_record_timeout a.first_record_timeout ≡ f
      → or_convert d.handshake_timeout a.handshake_timeout ≡ h
      → ltb max_id (length (or d.instance_id a.instance_id)) ≡ long
      → is_some a.inbound_transform && not a.in_loop ≡ loopless
      → a.config ≡ c
      → Makes a (do
        nets ← n
        budget ← b
        first ← f
        handshake ← h
        raise_if long too_long
        raise_if loopless no_loop
        c
        ok (made max_id for_listener d a nets budget first handshake))
  new_listener_at a (err e) b f h l o c en eb ef eh el eo ec =
      λ n' b' f' h' i v. cc (ap with_nets (v.0), nets_taken n', en)
  new_listener_at a (ok n) (err e) f h l o c en eb ef eh el eo ec =
      λ n' b' f' h' i v. cc (convertible d.memory_budget a.memory_budget b' v.1, eb)
  new_listener_at a (ok n) (ok b) (err e) h l o c en eb ef eh el eo ec =
      λ n' b' f' h' i v. cc (convertible d.first_record_timeout a.first_record_timeout f' v.2, ef)
  new_listener_at a (ok n) (ok b) (ok f) (err e) l o c en eb ef eh el eo ec =
      λ n' b' f' h' i v. cc (convertible d.handshake_timeout a.handshake_timeout h' v.3, eh)
  new_listener_at a (ok n) (ok b) (ok f) (ok h) true o c en eb ef eh el eo ec = λ n' b' f' h' i v.
      ground (arith, v.4, el, ap length (arg_eq d.instance_id a.instance_id i v.7))
  new_listener_at a (ok n) (ok b) (ok f) (ok h) false true c en eb ef eh el eo ec =
      λ n' b' f' h' i v. cc (loop_there a.inbound_transform a.in_loop v.5, eo)
  new_listener_at a (ok n) (ok b) (ok f) (ok h) false false (err e) en eb ef eh el eo ec =
      λ n' b' f' h' i v. cc (v.6, ec)
  new_listener_at a (ok n) (ok b) (ok f) (ok h) false false (ok u) en eb ef eh el eo ec = (
    (
      holds_at (λ l. a.nets ≡ map ok l) (with_nets a.nets) n (taken_nets a.nets) en,
      converted d.memory_budget a.memory_budget b eb,
      converted d.first_record_timeout a.first_record_timeout f ef,
      converted d.handshake_timeout a.handshake_timeout h eh,
      ground (arith, el),
      has_loop a.inbound_transform a.in_loop eo,
      ec,
      argument_taken d.instance_id a.instance_id,
    ),
    (
      refl,
      refl,
      argument_taken d.max_pending a.max_pending,
      argument_taken d.max_pending_per_source a.max_pending_per_source,
      argument_taken d.max_pending_per_session a.max_pending_per_session,
      argument_taken d.max_record_size a.max_record_size,
      argument_taken d.accept_sessions a.accept_sessions,
      argument_taken d.max_suspended a.max_suspended,
      setting_taken d.on_memory_pressure a.on_memory_pressure,
      refl,
      setting_taken d.inbound_transform a.inbound_transform,
      refl,
    ),
  )

  -- A listener is made exactly when every argument that is given can be converted, the instance ID
  -- is not too long, an inbound transform comes with a running loop, and the session configuration
  -- is one; then each setting is the argument's, converted where it must be, or the default where
  -- it is left out.
  pub new_listener-Makes : (a : Arguments) → Makes a (new_listener max_id for_listener d a)
  unfolding new_listener
  new_listener-Makes a =
      new_listener_at a (with_nets a.nets) (or_convert d.memory_budget a.memory_budget)
        (or_convert d.first_record_timeout a.first_record_timeout)
        (or_convert d.handshake_timeout a.handshake_timeout)
        (ltb max_id (length (or d.instance_id a.instance_id)))
        (is_some a.inbound_transform && not a.in_loop) a.config refl refl refl refl refl refl refl
