-- ===== src/Dials.antt =====
-- src/lib.rs, the dials: what each call prepares before it connects, in the order of its tests.
pub mod Prepare
pub mod Guards
pub mod Guarded
pub mod Sample
pub mod Exchange
pub mod QuicClient
mod Tests
use zmux_python.Prelude.{
  ◌≡◌, ℕ, String, Bool, true, false, not, ◌&&◌, Option, none, some, List, [], ◌∷◌, ◌++◌, PyErr,
  value_error, PyResult, ok, err, ok_or, raise_if, ◌>>=◌, ◌>>◌, if◌then◌else◌,
}
use zmux_python.Errors.{Text}
use zmux_python.Hosts.{colon, decimal}
use zmux_python.Tls.{Bytes, Rustls, TlsConfig, ClientConfig, web}
use zmux_python.Admission.Credential.{
  CredentialObj, prefix_auth, object, Credential, of_auth, of_methods, credential,
}

-- The URLs and the requests of the crates below: what parses, the host and the port of a URL; the
-- scheme of a WebSocket request; what a QUIC stack takes; `client_config` of the HTTP/3 crate, which
-- sets ALPN identifiers of its own and keeps how the server is checked and what the client shows; the
-- ALPN identifier of WebTransport.
pub record Net (tls : Rustls) : Type 1 where
  pub Uri : Type 0
  pub parse_uri : Text → Option Uri
  pub uri_host : Uri → Option Text
  pub uri_port : Uri → Option ℕ
  pub known_port : Uri → Option ℕ
  pub is_wss : Uri → Bool
  pub is_header : Text → Text → Bool
  pub is_server_name : Text → Bool
  pub takes_quic : ClientConfig tls.Cert tls.Key → Bool
  pub h3_config : ClientConfig tls.Cert tls.Key → Option (ClientConfig tls.Cert tls.Key)
  pub h3_config-keeps :
      (c q : ClientConfig tls.Cert tls.Key)
      → h3_config c ≡ some q
      → (q.verification ≡ c.verification) × (q.client_auth ≡ c.client_auth)
  pub wt_alpn : Bytes

-- The headers of an upgrade request, once their object was read.
abbrev pub Headers : Type 0
Headers = List (Text × Text)

-- The calls, with their arguments as far as a test or the carrier depends on them.
pub data Dial : Type 0 where
  tcp : (addr : Text) → Option CredentialObj → Dial
  tls quic :
      (addr : Text) → Option TlsConfig → (server_name : Option Text) → Option CredentialObj → Dial
  h3 : (url : Text) → Option TlsConfig → (addr : Option Text) → Option CredentialObj → Dial
  webtransport : (url : Text) → Option TlsConfig → Option CredentialObj → Dial
  websocket :
      (url : Text) → Option TlsConfig → (headers : PyResult Headers) → Option CredentialObj → Dial
  http : (addr : Text) → Option CredentialObj → (carrier : Text) → Dial
  http_split : (addr : Text) → Option CredentialObj → Dial
  join_split : (addr : Text) → Option CredentialObj → (options : PyResult (Unit {0})) → Dial
  http2 : (addr : Text) → Option TlsConfig → Option CredentialObj → Dial
  exchange :
      (addr : Text)
      → (down : Option Text) → Option TlsConfig
      → (server_name : Option Text) → Option CredentialObj
      → Dial

-- What a call has when it connects: where to, the server's name in TLS where it is known by then,
-- the TLS configuration and the credential.
pub record Prepared (Cert Key : Type 0) : Type 0 where
  pub address : Text
  pub name : Option Text
  pub security : Option (ClientConfig Cert Key)
  pub credential : Option Credential

abbrev pub no_host : PyErr
no_host = value_error "URL without a host"

abbrev pub not_parsed : PyErr
not_parsed = value_error "a text that does not parse"

abbrev pub bound_token : PyErr
bound_token = value_error "HTTP carriers take tokens without bind_tls"

-- `client_tls`
abbrev pub client_tls : Option TlsConfig → TlsConfig
client_tls none = web
client_tls (some t) = t

abbrev pub binds_tls : Option CredentialObj → Bool
binds_tls (some (prefix_auth b)) = b
binds_tls c = false

-- `http_client_options`
unfoldable pub http_client_options : Option CredentialObj → PyResult (Option Credential)
unfolding credential
http_client_options c = raise_if (binds_tls c) bound_token >> credential c

-- `authority_of`
abbrev pub port_or : ℕ → Option ℕ → ℕ
port_or d none = d
port_or d (some p) = p

unfoldable pub authority : Text → Option ℕ → Text
unfolding decimal
authority host port = host ++ colon ∷ decimal (port_or 443 port)
