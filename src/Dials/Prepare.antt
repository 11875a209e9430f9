-- ===== src/Dials/Prepare.antt =====
-- src/lib.rs, `dial_tcp`, `dial_tls`, `QuicDial::new`, `H3Dial::new`, `WebTransportDial::new`,
-- `dial_websocket`, `dial_http`, `dial_http_split`, `join_http_split`, `Http2Connection.connect` and
-- `dial_exchange`, up to the future that connects.
use zmux_python.Prelude.{
  Bool, true, false, not, Option, none, some, List, [], ◌∷◌, value_error, PyResult, ok, err, ok_or,
  raise_if, ◌>>=◌, ◌>>◌, if◌then◌else◌,
}
use zmux_python.Errors.{Text}
use zmux_python.Hosts.{
  opening, closing, host_of, or_host, trim_start, trim_end, exchange_names, same_text,
}
use zmux_python.Tls.{
  Bytes, Rustls, TlsConfig, ClientConfig, client, client_alpn, client_zmux, http1, refused,
}
use zmux_python.Admission.Credential.{CredentialObj, Credential, credential}
use zmux_python.Dials.{
  Net, Headers, Dial, Prepared, no_host, not_parsed, client_tls, http_client_options, authority,
}

-- "h2"
abbrev pub h2 : List Bytes
h2 = (104 ∷ 50 ∷ []) ∷ []

-- "bidirectional"
abbrev pub bidirectional : Text
bidirectional = 98 ∷ 105 ∷ 100 ∷ 105 ∷ 114 ∷ 101 ∷ 99 ∷ 116 ∷ 105 ∷ 111 ∷ 110 ∷ 97 ∷ 108 ∷ []

-- "uplink"
abbrev uplink : Text
uplink = 117 ∷ 112 ∷ 108 ∷ 105 ∷ 110 ∷ 107 ∷ []

-- "downlink"
abbrev downlink : Text
downlink = 100 ∷ 111 ∷ 119 ∷ 110 ∷ 108 ∷ 105 ∷ 110 ∷ 107 ∷ []

-- `dial_request`: the direction that the name gives, `PipeDirection` of the crate.
pub data Direction : Type 0 where
  bidi out in_ : Direction

unfoldable pub dial_request : Text → PyResult Direction
unfolding same_text
dial_request carrier =
    if same_text carrier bidirectional
    then ok Direction.bidi
    else if same_text carrier uplink
    then ok Direction.out
    else if same_text carrier downlink
    then ok Direction.in_
    else err (value_error "unknown HTTP carrier")

module _ (rustls : Rustls) (net : Net rustls) where
  open rustls use {Cert, Key}
  open net use {
    Uri, parse_uri, uri_host, uri_port, known_port, is_wss, is_header, is_server_name, takes_quic,
    h3_config, wt_alpn,
  }

  abbrev pub Config : Type 0
  Config = ClientConfig Cert Key

  abbrev pub Ready : Type 0
  Ready = Prepared Cert Key

  abbrev pub prepared : Text → Option Text → Option Config → Option Credential → Ready
  prepared address name security credential = record {
    address = address;
    name = name;
    security = security;
    credential = credential;
  }

  -- The client configuration of a QUIC stack.
  abbrev pub quic_config : Config → PyResult Config
  quic_config c = raise_if (not (takes_quic c)) refused >> ok c

  -- `QuicDial::new`
  unfoldable pub new_quic :
      Text → Option TlsConfig → Option Text → Option CredentialObj → PyResult Ready
  unfolding credential client_zmux host_of
  new_quic addr tls server_name cred = do
    c ← credential cred
    t ← client_zmux rustls (client_tls tls)
    q ← quic_config t
    ok (prepared addr (some (or_host addr server_name)) (some q) c)

  -- `authority_of`
  unfoldable pub authority_of : Uri → PyResult Text
  unfolding authority
  authority_of uri = ok_or (uri_host uri) no_host >>= λ h. ok (authority h (uri_port uri))

  abbrev pub address_of : Uri → Option Text → PyResult Text
  address_of uri none = authority_of uri
  address_of uri (some a) = ok a

  -- `H3Dial::new`
  unfoldable pub new_h3 :
      Text → Option TlsConfig → Option Text → Option CredentialObj → PyResult Ready
  unfolding authority_of credential client
  new_h3 url tls addr cred = do
    uri ← ok_or (parse_uri url) not_parsed
    a ← address_of uri addr
    c ← credential cred
    t ← client rustls (client_tls tls)
    q ← ok_or (h3_config t) refused
    ok (prepared a none (some q) c)

  -- `WebTransportDial::new`
  unfoldable pub new_webtransport : Text → Option TlsConfig → Option CredentialObj → PyResult Ready
  unfolding credential client authority trim_start trim_end
  new_webtransport url tls cred = do
    uri ← ok_or (parse_uri url) not_parsed
    host ← ok_or (uri_host uri) no_host
    c ← credential cred
    t ← client rustls (client_tls tls)
    q ← quic_config (record t { alpn = wt_alpn ∷ [] })
    ok (
        prepared (authority host (known_port uri))
          (some (trim_end closing (trim_start opening host))) (some q) c)

  -- The loop that inserts the headers.
  unfoldable pub insert_headers : Headers → PyResult (Unit {0})
  insert_headers [] = ok tt
  insert_headers ((k, v) ∷ rest) = raise_if (not (is_header k v)) not_parsed >> insert_headers rest

  -- The connector of `dial_websocket`
  abbrev pub ws_config : Bool → Option TlsConfig → PyResult (Option Config)
  ws_config false tls = ok none
  ws_config true tls = client_alpn rustls http1 (client_tls tls) >>= λ c. ok (some c)

  -- `dial_websocket`
  unfoldable pub new_websocket :
      Text → Option TlsConfig → PyResult Headers → Option CredentialObj → PyResult Ready
  unfolding credential insert_headers client_alpn
  new_websocket url tls headers cred = do
    c ← credential cred
    hs ← headers
    req ← ok_or (parse_uri url) not_parsed
    insert_headers hs
    t ← ws_config (is_wss req) tls
    ok (prepared url none t c)

  -- TLS where it is given
  abbrev pub some_tls : List Bytes → Option TlsConfig → PyResult (Option Config)
  some_tls alpn none = ok none
  some_tls alpn (some t) = client_alpn rustls alpn t >>= λ c. ok (some c)

  -- `exchange_endpoint`: the server name of an endpoint that TLS protects.
  unfoldable pub exchange_endpoint : Option Config → Text → Option Text → PyResult (Option Text)
  unfolding exchange_names
  exchange_endpoint none addr server_name = ok none
  exchange_endpoint (some c) addr server_name =
      let (host, authority) = exchange_names addr server_name in
      raise_if (not (is_server_name host)) not_parsed >> ok (some host)

  abbrev pub down_endpoint : Option Config → Option Text → Option Text → PyResult (Option Text)
  down_endpoint t none server_name = ok none
  down_endpoint t (some d) server_name = exchange_endpoint t d server_name

  -- `dial_exchange`
  unfoldable pub new_exchange :
      Text → Option Text → Option TlsConfig → Option Text → Option CredentialObj → PyResult Ready
  unfolding credential client_alpn exchange_endpoint
  new_exchange addr down tls server_name cred = do
    c ← credential cred
    t ← some_tls http1 tls
    up ← exchange_endpoint t addr server_name
    down_endpoint t down server_name
    ok (prepared addr up t c)

  -- `dial_tls`
  unfoldable pub new_tls_dial :
      Text → Option TlsConfig → Option Text → Option CredentialObj → PyResult Ready
  unfolding client_zmux host_of credential
  new_tls_dial addr tls server_name cred = do
    t ← client_zmux rustls (client_tls tls)
    c ← credential cred
    ok (prepared addr (some (or_host addr server_name)) (some t) c)

  -- `dial_tcp`
  unfoldable pub new_tcp : Text → Option CredentialObj → PyResult Ready
  unfolding credential
  new_tcp addr cred = credential cred >>= λ c. ok (prepared addr none none c)

  -- `dial_http`
  unfoldable pub new_http : Text → Option CredentialObj → Text → PyResult Ready
  unfolding http_client_options dial_request
  new_http addr cred carrier = do
    c ← http_client_options cred
    dial_request carrier
    ok (prepared addr none none c)

  -- `dial_http_split`
  unfoldable pub new_http_split : Text → Option CredentialObj → PyResult Ready
  unfolding http_client_options
  new_http_split addr cred = http_client_options cred >>= λ c. ok (prepared addr none none c)

  -- `join_http_split`
  unfoldable pub new_join_split : Text → Option CredentialObj → PyResult (Unit {0}) → PyResult Ready
  unfolding http_client_options
  new_join_split addr cred options = do
    c ← http_client_options cred
    options
    ok (prepared addr none none c)

  -- `Http2Connection.connect`
  unfoldable pub new_http2 : Text → Option TlsConfig → Option CredentialObj → PyResult Ready
  unfolding http_client_options client_alpn
  new_http2 addr tls cred = do
    c ← http_client_options cred
    t ← some_tls h2 tls
    ok (prepared addr none t c)

  -- Each call up to the future that connects.
  unfoldable pub dial : Dial → PyResult Ready
  unfolding new_tcp new_tls_dial new_quic new_h3 new_webtransport new_websocket new_http
      new_http_split new_join_split new_http2 new_exchange
  dial (Dial.tcp addr cred) = new_tcp addr cred
  dial (Dial.tls addr tls name cred) = new_tls_dial addr tls name cred
  dial (Dial.quic addr tls name cred) = new_quic addr tls name cred
  dial (Dial.h3 url tls addr cred) = new_h3 url tls addr cred
  dial (Dial.webtransport url tls cred) = new_webtransport url tls cred
  dial (Dial.websocket url tls headers cred) = new_websocket url tls headers cred
  dial (Dial.http addr cred carrier) = new_http addr cred carrier
  dial (Dial.http_split addr cred) = new_http_split addr cred
  dial (Dial.join_split addr cred options) = new_join_split addr cred options
  dial (Dial.http2 addr tls cred) = new_http2 addr tls cred
  dial (Dial.exchange addr down tls name cred) = new_exchange addr down tls name cred
