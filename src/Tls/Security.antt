-- ===== src/Tls/Security.antt =====
-- src/lib.rs, `TlsConfig`: which servers a client takes, and what a client and a server show.
use zmux_python.Prelude.{
  ◌≡◌, refl, ◌⊎◌, inl, inr, Bool, true, false, not, Option, none, some, List, [], ◌∷◌, ok, ok_or,
  ◌>>=◌, All, map, ap, sym, PyErr, Holds, bind-Holds, ok_or-Holds, raise_if-Holds,
}
use mathlib.Core.Path.{subst}
use zmux_python.Tls.{
  Bytes, Rustls, TlsConfig, Verification, any_server, roots, ClientConfig, collect, chain_of,
  add_roots, verification_of, client_auth_of, client, client_alpn, refused, bad_pem,
}

module _ (tls : Rustls) where
  open tls use {
    Cert, Key, certs_of, key_of, takes_root, takes_auth, has_versions, web_roots, default_alpn,
  }

  -- The certificates of a PEM text, of which none is malformed.
  abbrev AreCerts : Bytes → List Cert → Type 0
  AreCerts pem cs = certs_of pem ≡ map some cs

  abbrev pub Verifies : Bool → Option Bytes → Verification Cert → Type 0
  Verifies false ca v = v ≡ any_server
  Verifies true none v = v ≡ roots web_roots
  Verifies true (some pem) v =
      (cs : List Cert) × AreCerts pem cs × All (λ c. takes_root c ≡ true) cs × (v ≡ roots cs)

  abbrev pub Shows : Option Bytes → Option Bytes → Option (List Cert × Key) → Type 0
  Shows (some cert) (some key) (some (cs, k)) = AreCerts cert cs × (key_of key ≡ some k)
  Shows (some cert) (some key) none = ⊥
  Shows cert key shown = shown ≡ none

  -- The exceptions of a configuration that cannot be made.
  abbrev pub IsRefusal : PyErr → Type 0
  IsRefusal e = (e ≡ bad_pem) ⊎ (e ≡ refused)

  abbrev Adds : List (Option Cert) → List Cert → Type 0
  Adds pem cs = (pem ≡ map some cs) × All (λ c. takes_root c ≡ true) cs

  taken : (b : Bool) → not b ≡ false → b ≡ true
  taken true e = refl
  taken false e = absurd (cc)

  add_roots-Adds : (pem : List (Option Cert)) → Holds (Adds pem) IsRefusal (add_roots tls pem)
  unfolding add_roots
  add_roots-Adds [] = (refl, tt)
  add_roots-Adds (none ∷ rest) = inl refl
  add_roots-Adds (some c ∷ rest) =
      raise_if-Holds (Adds (some c ∷ rest)) IsRefusal (not (takes_root c)) refused
        (add_roots tls rest >>= λ ds. ok (c ∷ ds)) (inr refl)
        λ t.
          bind-Holds (Adds rest) (Adds (some c ∷ rest)) IsRefusal (add_roots tls rest)
            (λ ds. ok (c ∷ ds)) (add_roots-Adds rest)
            λ ds h. (ap (◌∷◌ (some c)) h.0, (taken (takes_root c) t, h.1))

  collect-map :
      (pem : List (Option Cert)) → Holds (λ cs. pem ≡ map some cs) IsRefusal (collect tls pem)
  unfolding collect
  collect-map [] = refl
  collect-map (none ∷ rest) = inl refl
  collect-map (some c ∷ rest) =
      bind-Holds (λ cs. rest ≡ map some cs) (λ cs. some c ∷ rest ≡ map some cs) IsRefusal
        (collect tls rest) (λ ds. ok (c ∷ ds)) (collect-map rest) λ ds h. ap (◌∷◌ (some c)) h

  verification_of-Verifies :
      (verify : Bool) (ca : Option Bytes)
      → Holds (Verifies verify ca) IsRefusal (verification_of tls verify ca)
  unfolding verification_of
  verification_of-Verifies false ca = refl
  verification_of-Verifies true none = refl
  verification_of-Verifies true (some pem) =
      bind-Holds (Adds (certs_of pem)) (Verifies true (some pem)) IsRefusal
        (add_roots tls (certs_of pem)) (λ cs. ok (roots cs)) (add_roots-Adds (certs_of pem))
        λ cs h. (cs, h.0, h.1, refl)

  chain_of-Shows :
      (cert key : Option Bytes) → Holds (Shows cert key) IsRefusal (chain_of tls cert key)
  unfolding chain_of
  chain_of-Shows none key = refl
  chain_of-Shows (some cert) none = refl
  chain_of-Shows (some cert) (some key) =
      bind-Holds (λ cs. AreCerts cert cs) (Shows (some cert) (some key)) IsRefusal
        (collect tls (certs_of cert)) (λ cs. ok_or (key_of key) bad_pem >>= λ k. ok (some (cs, k)))
        (collect-map (certs_of cert))
        λ cs h.
          bind-Holds (λ k. key_of key ≡ some k) (Shows (some cert) (some key)) IsRefusal
            (ok_or (key_of key) bad_pem) (λ k. ok (some (cs, k)))
            (ok_or-Holds (λ k. key_of key ≡ some k) IsRefusal (key_of key) bad_pem (inl refl)
              λ k e. e)
            λ k e. (h, e)

  client_auth_of-same :
      (shown : Option (List Cert × Key))
      → Holds (λ s. s ≡ shown) IsRefusal (client_auth_of tls shown)
  unfolding client_auth_of
  client_auth_of-same none = refl
  client_auth_of-same (some (cs, k)) =
      raise_if-Holds (λ s. s ≡ some (cs, k)) IsRefusal (not (takes_auth cs k)) refused
        (ok (some (cs, k))) (inr refl) λ t. refl

  abbrev pub Secures : TlsConfig → List Bytes → ClientConfig Cert Key → Type 0
  Secures t alpn c =
      Verifies t.verify t.ca c.verification × Shows t.cert t.key c.client_auth × (c.alpn ≡ alpn)

  made_of :
      (t : TlsConfig) (v : Verification Cert) (shown : Option (List Cert × Key))
      → Verifies t.verify t.ca v
      → Shows t.cert t.key shown
      → Holds (Secures t t.alpn) IsRefusal (
          client_auth_of tls shown >>= λ auth.
          ok (record { verification = v; client_auth = auth; alpn = t.alpn }))
  made_of t v shown h g =
      bind-Holds (λ auth. auth ≡ shown) (Secures t t.alpn) IsRefusal (client_auth_of tls shown)
        (λ auth. ok (record { verification = v; client_auth = auth; alpn = t.alpn }))
        (client_auth_of-same shown) λ auth e. (h, subst (Shows t.cert t.key) (sym e) g, refl)

  pub client-Secures : (t : TlsConfig) → Holds (Secures t t.alpn) IsRefusal (client tls t)
  unfolding client
  client-Secures t =
      raise_if-Holds (Secures t t.alpn) IsRefusal (not has_versions) refused
        (verification_of tls t.verify t.ca >>= λ v. chain_of tls t.cert t.key >>= λ shown.
          client_auth_of tls shown >>= λ auth.
          ok (record { verification = v; client_auth = auth; alpn = t.alpn }))
        (inr refl)
        λ versions.
          bind-Holds (Verifies t.verify t.ca) (Secures t t.alpn) IsRefusal
            (verification_of tls t.verify t.ca)
            (λ v. chain_of tls t.cert t.key >>= λ shown. client_auth_of tls shown >>= λ auth.
              ok (record { verification = v; client_auth = auth; alpn = t.alpn }))
            (verification_of-Verifies t.verify t.ca)
            λ v h.
              bind-Holds (Shows t.cert t.key) (Secures t t.alpn) IsRefusal
                (chain_of tls t.cert t.key)
                (λ shown. client_auth_of tls shown >>= λ auth.
                  ok (record { verification = v; client_auth = auth; alpn = t.alpn }))
                (chain_of-Shows t.cert t.key) λ shown g. made_of t v shown h g

  -- A client configuration that is made checks the server's certificate unless `verify` is off:
  -- against the certificates of `ca`, all of them well-formed and taken, or the web roots where
  -- there is no `ca`. It shows a certificate chain exactly where `cert` and `key` are both given,
  -- and that chain; its ALPN identifiers are those given with the defaults of the carrier. One that
  -- is not made raises `ValueError` for a malformed PEM text or what rustls refuses.
  pub client_alpn-Secures :
      (t : TlsConfig) (defaults : List Bytes)
      → Holds (Secures t (default_alpn t.alpn defaults)) IsRefusal (client_alpn tls defaults t)
  unfolding client_alpn
  client_alpn-Secures t defaults =
      bind-Holds (Secures t t.alpn) (Secures t (default_alpn t.alpn defaults)) IsRefusal
        (client tls t) (λ c. ok (record c { alpn = default_alpn c.alpn defaults }))
        (client-Secures t) λ c h. (h.0, h.1, ap (λ a. default_alpn a defaults) h.2)
