-- ===== src/Tls.antt =====
-- src/lib.rs, `TlsConfig`: the settings of a TLS carrier and the rustls configurations made of them.
pub mod Security
pub mod Sample
mod Tests
use zmux_python.Prelude.{
  ℕ, String, Bool, true, false, not, Option, none, some, List, [], ◌∷◌, ◌++◌, PyErr, value_error,
  PyResult, ok, err, ok_or, traverse, raise_if, ◌>>=◌, ◌>>◌,
}

abbrev pub Bytes : Type 0
Bytes = List ℕ

-- rustls and the file system, as far as `TlsConfig` calls them: the certificates and the key of a
-- PEM text, of which each certificate may be malformed; whether a root, a chain for clients and one
-- for servers is taken; and the crate's identifiers and `default_alpn`, with what it documents.
pub record Rustls : Type 1 where
  pub FilePath : Type 0
  pub Cert : Type 0
  pub Key : Type 0
  pub read_file : FilePath → PyResult Bytes
  pub certs_of : Bytes → List (Option Cert)
  pub key_of : Bytes → Option Key
  pub has_versions : Bool
  pub takes_root : Cert → Bool
  pub takes_auth : List Cert → Key → Bool
  pub takes_single : List Cert → Key → Bool
  pub web_roots : List Cert
  pub zmux_alpn : List Bytes
  pub default_alpn : List Bytes → List Bytes → List Bytes

pub data Pem (FilePath : Type 0) : Type 0 where
  path : FilePath → Pem FilePath
  contents : Bytes → Pem FilePath

pub record TlsConfig : Type 0 where
  pub cert : Option Bytes
  pub key : Option Bytes
  pub ca : Option Bytes
  pub verify : Bool
  pub alpn : List Bytes

-- How a client checks the server's certificate: not at all (`NoVerify`), or against roots.
pub data Verification (Cert : Type 0) : Type 0 where
  any_server : Verification Cert
  roots : List Cert → Verification Cert

pub record ClientConfig (Cert Key : Type 0) : Type 0 where
  pub verification : Verification Cert
  pub client_auth : Option (List Cert × Key)
  pub alpn : List Bytes

pub record ServerConfig (Cert Key : Type 0) : Type 0 where
  pub chain : List Cert × Key
  pub alpn : List Bytes

abbrev pub bad_pem : PyErr
bad_pem = value_error "invalid PEM"

abbrev pub refused : PyErr
refused = value_error "refused by rustls"

-- `HTTP1`
abbrev pub http1 : List Bytes
http1 = (104 ∷ 116 ∷ 116 ∷ 112 ∷ 47 ∷ 49 ∷ 46 ∷ 49 ∷ []) ∷ []

-- `TlsConfig::web`
abbrev pub web : TlsConfig
web = record { cert = none; key = none; ca = none; verify = true; alpn = [] }

module _ (tls : Rustls) where
  open tls use {
    FilePath, Cert, Key, read_file, certs_of, key_of, has_versions, takes_root, takes_auth,
    takes_single, web_roots, zmux_alpn, default_alpn,
  }

  -- `Pem::load`
  unfoldable pub load : Pem FilePath → PyResult Bytes
  load (path p) = read_file p
  load (contents d) = ok d

  -- `TlsConfig.new`
  unfoldable pub new_tls :
      Option (Pem FilePath)
      → Option (Pem FilePath)
      → Option (Pem FilePath)
      → Bool
      → Option (List Bytes)
      → PyResult TlsConfig
  unfolding load
  new_tls cert key ca verify alpn = do
    cert_bytes ← traverse load cert
    key_bytes ← traverse load key
    ca_bytes ← traverse load ca
    ok (record {
      cert = cert_bytes;
      key = key_bytes;
      ca = ca_bytes;
      verify = verify;
      alpn = elim alpn [ none ↦ [] | some a ↦ a ];
    })

  -- `collect` of the certificates, up to the first that is malformed
  unfoldable pub collect : List (Option Cert) → PyResult (List Cert)
  collect [] = ok []
  collect (c ∷ cs) = ok_or c bad_pem >>= λ d. collect cs >>= λ ds. ok (d ∷ ds)

  -- `TlsConfig::chain`
  unfoldable pub chain_of : Option Bytes → Option Bytes → PyResult (Option (List Cert × Key))
  unfolding collect
  chain_of (some cert) (some key) = do
    certs ← collect (certs_of cert)
    k ← ok_or (key_of key) bad_pem
    ok (some (certs, k))
  chain_of cert key = ok none

  -- The loop that adds the roots of `ca`.
  unfoldable pub add_roots : List (Option Cert) → PyResult (List Cert)
  add_roots [] = ok []
  add_roots (c ∷ cs) = do
    d ← ok_or c bad_pem
    raise_if (not (takes_root d)) refused
    ds ← add_roots cs
    ok (d ∷ ds)

  unfoldable pub verification_of : Bool → Option Bytes → PyResult (Verification Cert)
  unfolding add_roots
  verification_of false ca = ok any_server
  verification_of true none = ok (roots web_roots)
  verification_of true (some pem) = add_roots (certs_of pem) >>= λ cs. ok (roots cs)

  unfoldable pub client_auth_of : Option (List Cert × Key) → PyResult (Option (List Cert × Key))
  client_auth_of none = ok none
  client_auth_of (some (certs, key)) =
      raise_if (not (takes_auth certs key)) refused >> ok (some (certs, key))

  -- `TlsConfig::client`
  unfoldable pub client : TlsConfig → PyResult (ClientConfig Cert Key)
  unfolding verification_of chain_of client_auth_of
  client t = do
    raise_if (not has_versions) refused
    verification ← verification_of t.verify t.ca
    chain ← chain_of t.cert t.key
    auth ← client_auth_of chain
    ok (record { verification = verification; client_auth = auth; alpn = t.alpn })

  -- `TlsConfig::server`
  unfoldable pub server : TlsConfig → PyResult (ServerConfig Cert Key)
  unfolding chain_of
  server t = do
    found ← chain_of t.cert t.key
    chain ← ok_or found (value_error "a server needs cert and key")
    raise_if (not has_versions) refused
    raise_if (not (takes_single chain.0 chain.1)) refused
    ok (record { chain = chain; alpn = t.alpn })

  -- `TlsConfig::client_alpn` and `client_zmux`
  unfoldable pub client_alpn : List Bytes → TlsConfig → PyResult (ClientConfig Cert Key)
  unfolding client
  client_alpn defaults t = client t >>= λ c. ok (record c { alpn = default_alpn c.alpn defaults })

  unfoldable pub client_zmux : TlsConfig → PyResult (ClientConfig Cert Key)
  unfolding client_alpn
  client_zmux t = client_alpn zmux_alpn t

  -- `TlsConfig::server_alpn` and `server_zmux`
  unfoldable pub server_alpn : List Bytes → TlsConfig → PyResult (ServerConfig Cert Key)
  unfolding server
  server_alpn defaults t = server t >>= λ c. ok (record c { alpn = default_alpn c.alpn defaults })

  unfoldable pub server_zmux : TlsConfig → PyResult (ServerConfig Cert Key)
  unfolding server_alpn
  server_zmux t = server_alpn zmux_alpn t
