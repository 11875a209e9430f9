-- ===== src/Modes/Candidates.antt =====
-- src/mode.rs, the constructors of `Candidate`: the kind of each and what protects its carrier.
use zmux_python.Prelude.{◌≡◌, Bool, true, false, Option, none, some, ◌∷◌, ◌++◌, ok}
use zmux_python.Errors.{Text}
use zmux_python.Hosts.{colon, decimal}
use zmux_python.Tls.{Rustls, TlsConfig, http1}
use zmux_python.Admission.Credential.{CredentialObj, Credential, credential}
use zmux_python.Dials.{Net, Dial, client_tls, port_or}
use zmux_python.Dials.Prepare.{prepared, dial}
use zmux_python.Dials.Guards.{Guards, IsSecured, with_default}
use zmux_python.Modes.{
  CarrierKind, Maker, streaming_candidate, split_candidate, exchange_candidate, candidate_tls,
  plain_candidate, new, Make, Candidate, wss, starts_with,
}

module _ (rustls : Rustls) (net : Net rustls) where
  open rustls use {Cert, Key, default_alpn}
  open net use {Uri, parse_uri, uri_host, uri_port}

  -- What a candidate opens: what the dial of the same carrier prepares, with its guards.
  abbrev As : Maker → Dial → Candidate Cert Key → Type 0
  As m d c = (c.maker ≡ m) × (dial rustls net d ≡ ok c.opens) × Guards rustls net d c.opens

  -- The address of a `ws` URL: its host with the port, or 80 where it has none.
  abbrev IsAddressOf : Text → Text → Type 0
  IsAddressOf url a =
      (uri : Uri) × (host : Text) × (parse_uri url ≡ some uri)
      × (uri_host uri ≡ some host)
      × (a ≡ host ++ colon ∷ decimal (port_or 80 (uri_port uri)))

  -- Where a WebSocket goes: by a secure URL to the URL, else to the host and port of the URL.
  abbrev IsUpgrade :
      Bool → Text → Option TlsConfig → Option CredentialObj → Candidate Cert Key → Type 0
  IsUpgrade true url tls cred c =
      (c.maker ≡ candidate_tls)
      × (c.opens.address ≡ url)
      × IsSecured rustls net (with_default rustls net http1 (client_tls tls)) c.opens.security
      × (credential cred ≡ ok c.opens.credential)
  IsUpgrade false url tls cred c =
      (c.maker ≡ plain_candidate)
      × IsAddressOf url c.opens.address
      × (c.opens.security ≡ none)
      × (credential cred ≡ ok c.opens.credential)

  abbrev pub Guarded : Make → Candidate Cert Key → Type 0
  Guarded (Make.streaming addr cred) = As streaming_candidate (Dial.http_split addr cred)
  Guarded (Make.split addr cred) = As split_candidate (Dial.http_split addr cred)
  Guarded (Make.exchange addr) =
      λ c. (c.maker ≡ exchange_candidate) × (c.opens ≡ prepared rustls net addr none none none)
  Guarded (Make.websocket url tls cred) = IsUpgrade (starts_with wss url) url tls cred
  Guarded (Make.quic addr tls name cred) = As (new CarrierKind.quic) (Dial.quic addr tls name cred)
  Guarded (Make.http3 url tls addr cred) = As (new CarrierKind.http3) (Dial.h3 url tls addr cred)
  Guarded (Make.webtransport url tls cred) =
      As (new CarrierKind.webtransport) (Dial.webtransport url tls cred)
