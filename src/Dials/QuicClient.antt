-- ===== src/Dials/QuicClient.antt =====
-- src/lib.rs, `QuicClient`: a QUIC endpoint kept across connections, and the parameters it remembers
-- for 0-RTT.
use zmux_python.Prelude.{
  ℕ, ◌≡◌, refl, ap, Bool, true, false, Option, none, some, List, [], ◌∷◌, PyErr, PyResult, ok, err,
  ◌>>=◌, ◌>>◌, Holds, is_some,
}
use zmux_python.Errors.{Text}
use zmux_python.Tls.{Rustls, TlsConfig, ClientConfig, client_zmux}
use zmux_python.Admission.Credential.{CredentialObj, Credential, credential}
use zmux_python.Dials.{Net, client_tls}
use zmux_python.Dials.Prepare.{quic_config}

-- The crate's memory of parameters: a new one of the default capacity or of one that is given, what
-- is remembered for a server, and the two ways to forget.
pub record Memories : Type 1 where
  pub Memory : Type 0
  pub Parameters : Type 0
  pub new : Option ℕ → Memory
  pub get : Text → Memory → Option Parameters
  pub forget : Text → Memory → Memory
  pub clear : Memory → Memory
  pub get-forget : (n : Text) (m : Memory) → get n (forget n m) ≡ none
  pub get-clear : (n : Text) (m : Memory) → get n (clear m) ≡ none

module _ (rustls : Rustls) (net : Net rustls) (z : Memories) where
  open z use {Memory}

  pub record QuicClient : Type 0 where
    pub config : ClientConfig rustls.Cert rustls.Key
    pub credential : Option Credential
    pub memory : Option Memory

  abbrev memory_of : Bool → Option ℕ → Option Memory
  memory_of false capacity = none
  memory_of true capacity = some (z.new capacity)

  -- `QuicClient.new`: `bound` is the address that `bind` parses to, with the endpoint on it.
  unfoldable pub new_client :
      Option TlsConfig
      → (zero_rtt : Bool) → (memory_capacity : Option ℕ) → (bound : PyResult (Unit {0}))
      → Option CredentialObj
      → PyResult QuicClient
  unfolding credential client_zmux
  new_client tls zero_rtt capacity bound cred = do
    c ← credential cred
    t ← client_zmux rustls (client_tls tls)
    q ← quic_config rustls net t
    bound
    ok (record { config = q; credential = c; memory = memory_of zero_rtt capacity })

  -- The calls that change or read the memory; the connections that the crate makes remember what
  -- their servers send, any function of the memory.
  pub data Op : Type 0 where
    forgets : Text → Op
    clears : Op
    connects : (Memory → Memory) → Op

  abbrev with_memory : (Memory → Memory) → Option Memory → Option Memory
  with_memory f none = none
  with_memory f (some m) = some (f m)

  unfoldable pub apply : Op → QuicClient → QuicClient
  apply (forgets n) c = record c { memory = with_memory (z.forget n) c.memory }
  apply clears c = record c { memory = with_memory z.clear c.memory }
  apply (connects f) c = record c { memory = with_memory f c.memory }

  abbrev remembered : Text → Option Memory → Bool
  remembered n none = false
  remembered n (some m) = is_some (z.get n m)

  -- `QuicClient.remembers`
  unfoldable pub remembers : Text → QuicClient → Bool
  remembers n c = remembered n c.memory

  abbrev pub run : List Op → QuicClient → QuicClient
  run [] c = c
  run (o ∷ os) c = run os (apply o c)

  none_kept :
      (os : List Op) (c : QuicClient) (n : Text) → c.memory ≡ none → remembers n (run os c) ≡ false
  unfolding remembers apply
  none_kept [] c n e = ap (remembered n) e
  none_kept (forgets k ∷ os) c n e =
      none_kept os (apply (forgets k) c) n (ap (with_memory (z.forget k)) e)
  none_kept (clears ∷ os) c n e = none_kept os (apply clears c) n (ap (with_memory z.clear) e)
  none_kept (connects f ∷ os) c n e = none_kept os (apply (connects f) c) n (ap (with_memory f) e)

  -- The server is not remembered after any calls.
  abbrev Forgets : List Op → Text → QuicClient → Type 0
  Forgets os n c = remembers n (run os c) ≡ false

  abbrev Any : PyErr → Type 0
  Any e = Unit

  abbrev Config : Type 0
  Config = ClientConfig rustls.Cert rustls.Key

  bound_at :
      (os : List Op) (n : Text) (capacity : Option ℕ) (c : Option Credential) (q : PyResult Config)
      (bound : PyResult (Unit {0}))
      → Holds (Forgets os n) Any (
          q >>= λ q.
          (bound >> ok (record { config = q; credential = c; memory = memory_of false capacity })))
  bound_at os n capacity c (err e) bound = tt
  bound_at os n capacity c (ok q) (err e) = tt
  bound_at os n capacity c (ok q) (ok u) =
      none_kept os (record { config = q; credential = c; memory = none }) n refl

  client_steps :
      (os : List Op) (n : Text) (capacity : Option ℕ) (c : PyResult (Option Credential))
      (r : PyResult Config) (q : Config → PyResult Config) (bound : PyResult (Unit {0}))
      → Holds (Forgets os n) Any (
          c >>= λ c. r >>= λ t. q t >>= λ q.
          (bound >> ok (record { config = q; credential = c; memory = memory_of false capacity })))
  client_steps os n capacity (err e) r q bound = tt
  client_steps os n capacity (ok c) (err e) q bound = tt
  client_steps os n capacity (ok c) (ok t) q bound = bound_at os n capacity c (q t) bound

  -- A client that is made without `zero_rtt` remembers no server, whatever connections it makes.
  pub new_client-Forgets :
      (os : List Op) (n : Text) (tls : Option TlsConfig) (capacity : Option ℕ)
      (bound : PyResult (Unit {0})) (cred : Option CredentialObj)
      → Holds (Forgets os n) Any (new_client tls false capacity bound cred)
  unfolding new_client
  new_client-Forgets os n tls capacity bound cred =
      client_steps os n capacity (credential cred) (client_zmux rustls (client_tls tls))
        (quic_config rustls net) bound

  -- A server that was forgotten is not remembered, nor is any after `clear`.
  forgotten :
      (n : Text) (c : QuicClient)
      → (remembers n (apply (forgets n) c) ≡ false) × (remembers n (apply clears c) ≡ false)
  unfolding remembers apply
  forgotten n c = at_memory c.memory
    where
      at_memory :
          (m : Option Memory)
          → (remembered n (with_memory (z.forget n) m) ≡ false)
            × (remembered n (with_memory z.clear m) ≡ false)
      at_memory none = (refl, refl)
      at_memory (some m) = (ap is_some (z.get-forget n m), ap is_some (z.get-clear n m))
