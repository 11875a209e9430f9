-- ===== src/Modes.antt =====
-- src/mode.rs: the candidates of a carrier mode, the mode, the policy of an auto mode, the carrier
-- cache and `dial_mode`.
pub mod Policy
pub mod Cache
pub mod Candidates
mod Tests
use zmux_python.Prelude.{
  ℕ, Bool, true, false, ◌&&◌, String, Option, none, some, List, [], ◌∷◌, ◌++◌, PyErr, value_error,
  PyResult, ok, err, ok_or, ◌>>=◌, ◌>>◌, if◌then◌else◌, ◌==◌, map, length,
}
use zmux_python.Errors.{Text}
use zmux_python.Hosts.{colon, decimal}
use zmux_python.Tls.{Rustls, TlsConfig, ClientConfig, client_alpn, http1}
use zmux_python.Admission.Credential.{CredentialObj, Credential, credential}
use zmux_python.Dials.{
  Net, Dial, Prepared, not_parsed, no_host, client_tls, http_client_options, authority, port_or,
}
use zmux_python.Dials.Prepare.{prepared, new_quic, new_h3, new_webtransport}

-- `zmux::CarrierKind`, those that the binding names.
pub data CarrierKind : Type 0 where
  quic http3 webtransport : CarrierKind

-- Which constructor of the carrier crates makes a candidate; `new` is `zmux::Candidate::new`, whose
-- candidate has the kind that it is given.
pub data Maker : Type 0 where
  streaming_candidate split_candidate exchange_candidate : Maker
  candidate_tls plain_candidate : Maker
  new : CarrierKind → Maker

-- The constructors with their arguments.
pub data Make : Type 0 where
  streaming split : (addr : Text) → Option CredentialObj → Make
  exchange : (addr : Text) → Make
  websocket : (url : Text) → Option TlsConfig → Option CredentialObj → Make
  quic :
      (addr : Text) → Option TlsConfig → (server_name : Option Text) → Option CredentialObj → Make
  http3 : (url : Text) → Option TlsConfig → (addr : Option Text) → Option CredentialObj → Make
  webtransport : (url : Text) → Option TlsConfig → Option CredentialObj → Make

pub record Candidate (Cert Key : Type 0) : Type 0 where
  pub maker : Maker
  pub opens : Prepared Cert Key

-- "wss://"
abbrev pub wss : Text
wss = 119 ∷ 115 ∷ 115 ∷ 58 ∷ 47 ∷ 47 ∷ []

-- `str::starts_with`
unfoldable pub starts_with : Text → Text → Bool
starts_with [] text = true
starts_with (c ∷ cs) [] = false
starts_with (c ∷ cs) (d ∷ ds) = c == d && starts_with cs ds

module _ (rustls : Rustls) (net : Net rustls) where
  open rustls use {Cert, Key}
  open net use {parse_uri, uri_host, uri_port}

  abbrev pub Opens : Type 0
  Opens = Prepared Cert Key

  -- `host:port` of a `ws` URL
  unfoldable pub ws_address : Text → PyResult Text
  unfolding decimal
  ws_address url = do
    uri ← ok_or (parse_uri url) not_parsed
    host ← ok_or (uri_host uri) no_host
    ok (host ++ colon ∷ decimal (port_or 80 (uri_port uri)))

  abbrev pub made_by : Maker → PyResult Opens → PyResult (Candidate Cert Key)
  made_by m r = r >>= λ p. ok (record { maker = m; opens = p })

  -- `Candidate.websocket`: with `wss`, TLS; without, the address of the URL.
  unfoldable pub websocket_at :
      Bool → Text → Option TlsConfig → Option Credential → PyResult (Candidate Cert Key)
  unfolding ws_address client_alpn
  websocket_at true url tls c = made_by candidate_tls (
      client_alpn rustls http1 (client_tls tls) >>= λ t.
      ok (prepared rustls net url none (some t) c))
  websocket_at false url tls c =
      made_by plain_candidate (ws_address url >>= λ addr. ok (prepared rustls net addr none none c))

  -- The constructors of `Candidate`
  unfoldable pub candidate : Make → PyResult (Candidate Cert Key)
  unfolding http_client_options websocket_at credential new_quic new_h3 new_webtransport starts_with
  candidate (Make.streaming addr cred) =
      made_by streaming_candidate
        (http_client_options cred >>= λ c. ok (prepared rustls net addr none none c))
  candidate (Make.split addr cred) =
      made_by split_candidate
        (http_client_options cred >>= λ c. ok (prepared rustls net addr none none c))
  candidate (Make.exchange addr) =
      made_by exchange_candidate (ok (prepared rustls net addr none none none))
  candidate (Make.websocket url tls cred) =
      credential cred >>= λ c. websocket_at (starts_with wss url) url tls c
  candidate (Make.quic addr tls name cred) =
      made_by (new CarrierKind.quic) (new_quic rustls net addr tls name cred)
  candidate (Make.http3 url tls addr cred) =
      made_by (new CarrierKind.http3) (new_h3 rustls net url tls addr cred)
  candidate (Make.webtransport url tls cred) =
      made_by (new CarrierKind.webtransport) (new_webtransport rustls net url tls cred)

-- How a mode chooses among candidates.
pub data Mode (C : Type 0) : Type 0 where
  explicit : C → Mode C
  auto : List C → Mode C

abbrev pub no_candidate : PyErr
no_candidate = value_error "auto mode without a candidate"

module _ {C : Type 0} where
  -- `Mode.auto`
  unfoldable pub new_auto : List C → PyResult (Mode C)
  new_auto [] = err no_candidate
  new_auto (c ∷ cs) = ok (auto (c ∷ cs))

  -- `Mode.is_auto`, and the candidates in their order
  abbrev pub is_auto : Mode C → Bool
  is_auto (explicit c) = false
  is_auto (auto cs) = true

  abbrev pub candidates : Mode C → List C
  candidates (explicit c) = c ∷ []
  candidates (auto cs) = cs
