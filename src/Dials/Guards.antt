-- ===== src/Dials/Guards.antt =====
-- src/lib.rs, the dials: what protects the carrier of a call, and the steps that the calls share.
use zmux_python.Prelude.{
  ◌≡◌, refl, Bool, true, false, not, Option, none, some, List, [], ◌∷◌, PyErr, PyResult, ok, err,
  ok_or, raise_if, ◌>>=◌, ◌>>◌, if◌then◌else◌, Holds,
}
use zmux_python.Errors.{Text}
use zmux_python.Tls.{Bytes, Rustls, TlsConfig, ClientConfig, http1, refused}
use zmux_python.Tls.Security.{Secures}
use zmux_python.Admission.Credential.{CredentialObj, Credential, credential}
use zmux_python.Dials.{
  Net, Headers, Dial, Prepared, client_tls, binds_tls, not_parsed, no_host, authority,
}
use zmux_python.Dials.Prepare.{h2, prepared, address_of}

abbrev pub Any : PyErr → Type 0
Any e = Unit

-- The credential of a call, and whether the call is one of streaming or split HTTP or HTTP/2, which
-- the exchange is not.
abbrev pub credential_of : Dial → Option CredentialObj
credential_of (Dial.tcp addr c) = c
credential_of (Dial.tls addr t n c) = c
credential_of (Dial.quic addr t n c) = c
credential_of (Dial.h3 url t a c) = c
credential_of (Dial.webtransport url t c) = c
credential_of (Dial.websocket url t h c) = c
credential_of (Dial.http addr c d) = c
credential_of (Dial.http_split addr c) = c
credential_of (Dial.join_split addr c o) = c
credential_of (Dial.http2 addr t c) = c
credential_of (Dial.exchange addr d t n c) = c

abbrev pub is_http : Dial → Bool
is_http (Dial.http addr c d) = true
is_http (Dial.http_split addr c) = true
is_http (Dial.join_split addr c o) = true
is_http (Dial.http2 addr t c) = true
is_http d = false

module _ (rustls : Rustls) (net : Net rustls) where
  open rustls use {Cert, Key, default_alpn, zmux_alpn}
  open net use {Uri, parse_uri, uri_host, known_port, is_wss, wt_alpn, takes_quic, h3_config}

  -- Settings and the identifiers with which they are used, `none` for those of the HTTP/3 crate.
  abbrev pub with_default : List Bytes → TlsConfig → Option (TlsConfig × Option (List Bytes))
  with_default d t = some (t, some (default_alpn t.alpn d))

  abbrev pub if_given : List Bytes → Option TlsConfig → Option (TlsConfig × Option (List Bytes))
  if_given d none = none
  if_given d (some t) = with_default d t

  abbrev pub if_wss : Option net.Uri → TlsConfig → Option (TlsConfig × Option (List Bytes))
  if_wss none t = none
  if_wss (some req) t = if is_wss req then with_default http1 t else none

  -- The TLS settings of a call, where it has TLS, and the ALPN identifiers it offers.
  abbrev pub settings : Dial → Option (TlsConfig × Option (List Bytes))
  settings (Dial.tls addr t n c) = with_default zmux_alpn (client_tls t)
  settings (Dial.quic addr t n c) = with_default zmux_alpn (client_tls t)
  settings (Dial.h3 url t a c) = some (client_tls t, none)
  settings (Dial.webtransport url t c) = some (client_tls t, some (wt_alpn ∷ []))
  settings (Dial.websocket url t h c) = if_wss (parse_uri url) (client_tls t)
  settings (Dial.http2 addr t c) = if_given h2 t
  settings (Dial.exchange addr d t n c) = if_given http1 t
  settings d = none

  abbrev pub IsSecured :
      Option (TlsConfig × Option (List Bytes)) → Option (ClientConfig Cert Key) → Type 0
  IsSecured none s = s ≡ none
  IsSecured (some (t, some alpn)) (some c) = Secures rustls t alpn c
  IsSecured (some (t, none)) (some c) = Secures rustls t c.alpn c
  IsSecured (some (t, alpn)) none = ⊥

  -- A call over plain HTTP or HTTP/2 takes no credential that is bound to TLS.
  abbrev pub IsFree : Bool → Option CredentialObj → Type 0
  IsFree http c = (if http then binds_tls c else false) ≡ false

  -- Where a call connects to: the address that is given, the URL of a WebSocket, and for HTTP/3 and
  -- WebTransport the authority of the URL where no address is given.
  abbrev pub Goes : Dial → Text → Type 0
  Goes (Dial.tcp addr c) a = a ≡ addr
  Goes (Dial.tls addr t n c) a = a ≡ addr
  Goes (Dial.quic addr t n c) a = a ≡ addr
  Goes (Dial.h3 url t addr c) a =
      (u : Uri) × (ok_or (parse_uri url) not_parsed ≡ ok u) × (address_of rustls net u addr ≡ ok a)
  Goes (Dial.webtransport url t c) a =
      (u : Uri) × (host : Text) × (ok_or (parse_uri url) not_parsed ≡ ok u)
      × (ok_or (uri_host u) no_host ≡ ok host)
      × (a ≡ authority host (known_port u))
  Goes (Dial.websocket url t h c) a = a ≡ url
  Goes (Dial.http addr c d) a = a ≡ addr
  Goes (Dial.http_split addr c) a = a ≡ addr
  Goes (Dial.join_split addr c o) a = a ≡ addr
  Goes (Dial.http2 addr t c) a = a ≡ addr
  Goes (Dial.exchange addr d t n c) a = a ≡ addr

  abbrev pub Guards : Dial → Prepared Cert Key → Type 0
  Guards d p =
      IsSecured (settings d) p.security
      × (credential (credential_of d) ≡ ok p.credential)
      × IsFree (is_http d) (credential_of d)
      × Goes d p.address

  abbrev pub Config : Type 0
  Config = ClientConfig Cert Key

  -- The steps of the calls, on what each of them gives: `c` of the credential, `t` of the settings.
  module _ (d : Dial) (free : IsFree (is_http d) (credential_of d)) where
    abbrev pub Done : PyResult (Prepared Cert Key) → Type 0
    Done = Holds (Guards d) Any

    abbrev pub Has : PyResult (Option Credential) → Type 0
    Has c = credential (credential_of d) ≡ c

    abbrev pub Makes : (Config → Config) → PyResult Config → Type 0
    Makes g = Holds (λ t. IsSecured (settings d) (some (g t))) Any

    abbrev pub MayMake : PyResult (Option Config) → Type 0
    MayMake = Holds (IsSecured (settings d)) Any

    pub plain_at :
        {A : Type 0} (address : Text) (to : Goes d address) (c : PyResult (Option Credential))
        (r : PyResult A)
        → settings d ≡ none
        → Has c
        → Done (c >>= λ x. r >>= λ a. ok (prepared rustls net address none none x))
    plain_at address to (ok x) (ok a) n e = (rw n refl, e, free, to)
    plain_at address to (ok x) (err y) n e = tt
    plain_at address to (err x) r n e = tt

    pub tls_at :
        (address : Text) (to : Goes d address) (name : Option Text) (t : PyResult Config)
        (c : PyResult (Option Credential))
        → Makes (λ u. u) t
        → Has c
        → Done (t >>= λ u. c >>= λ x. ok (prepared rustls net address name (some u) x))
    tls_at address to name (ok u) (ok x) h e = (h, e, free, to)
    tls_at address to name (ok u) (err y) h e = tt
    tls_at address to name (err y) c h e = tt

    taken_at :
        (address : Text) (to : Goes d address) (name : Option Text) (b : Bool) (q : Config)
        (x : Option Credential)
        → IsSecured (settings d) (some q)
        → Has (ok x)
        → Done
            ((raise_if b refused >> ok q) >>= λ u. ok (prepared rustls net address name (some u) x))
    taken_at address to name true q x h e = tt
    taken_at address to name false q x h e = (h, e, free, to)

    pub quic_at :
        (address : Text) (to : Goes d address) (name : Option Text) (g : Config → Config)
        (c : PyResult (Option Credential)) (t : PyResult Config)
        → Makes g t
        → Has c
        → Done (
            c >>= λ x. t >>= λ u. (raise_if (not (takes_quic (g u))) refused >> ok (g u)) >>= λ q.
            ok (prepared rustls net address name (some q) x))
    quic_at address to name g (err y) t h e = tt
    quic_at address to name g (ok x) (err y) h e = tt
    quic_at address to name g (ok x) (ok u) h e =
        taken_at address to name (not (takes_quic (g u))) (g u) x h e

    pub h3_at :
        (address : Text) (to : Goes d address) (c : PyResult (Option Credential))
        (t : PyResult Config)
        → Holds (λ u. (q : Config) → h3_config u ≡ some q → IsSecured (settings d) (some q)) Any t
        → Has c
        → Done (
            c >>= λ x. t >>= λ u.
            ok_or (h3_config u) refused >>= λ q. ok (prepared rustls net address none (some q) x))
    h3_at address to (err y) t h e = tt
    h3_at address to (ok x) (err y) h e = tt
    h3_at address to (ok x) (ok u) h e = configured (h3_config u) refl
      where
        configured :
            (o : Option Config)
            → h3_config u ≡ o
            → Done (ok_or o refused >>= λ q. ok (prepared rustls net address none (some q) x))
        configured none r = tt
        configured (some q) r = (h q r, e, free, to)

    -- A call that first finds where to connect.
    pub found_at :
        {A B : Type 0} (found : PyResult A) (part : A → PyResult B)
        (rest : A → B → PyResult (Prepared Cert Key))
        → ((a : A) (b : B) → found ≡ ok a → part a ≡ ok b → Done (rest a b))
        → Done (found >>= λ a. part a >>= λ b. rest a b)
    found_at (err y) part rest h = tt
    found_at {A} {B} (ok a) part rest h = part_at (part a) refl
      where
        part_at : (p : PyResult B) → part a ≡ p → Done (p >>= λ b. rest a b)
        part_at (err y) e = tt
        part_at (ok b) e = h a b refl e

    pub optional_at :
        {A : Type 0} (address : Text) (to : Goes d address) (c : PyResult (Option Credential))
        (s : PyResult (Option Config)) (name : Option Config → PyResult (Option Text))
        (r : Option Config → PyResult A)
        → MayMake s
        → Has c
        → Done (
            c >>= λ x.
            s >>= λ t. name t >>= λ n. r t >>= λ a. ok (prepared rustls net address n t x))
    optional_at address to (err y) s name r h e = tt
    optional_at address to (ok x) (err y) name r h e = tt
    optional_at {A} address to (ok x) (ok t) name r h e = named_at (name t) (r t)
      where
        named_at :
            (n : PyResult (Option Text)) (a : PyResult A)
            → Done (n >>= λ n. a >>= λ a. ok (prepared rustls net address n t x))
        named_at (err y) a = tt
        named_at (ok n) (err y) = tt
        named_at (ok n) (ok a) = (h, e, free, to)

    pub upgrade_at :
        (url : Text) (to : Goes d url) (c : PyResult (Option Credential))
        (headers : PyResult Headers) (req : PyResult net.Uri)
        (insert : Headers → PyResult (Unit {0})) (s : net.Uri → PyResult (Option Config))
        → ((u : net.Uri) → req ≡ ok u → MayMake (s u))
        → Has c
        → Done (
            c >>= λ x. headers >>= λ hs.
            req >>= λ u. insert hs >>= λ i. s u >>= λ t. ok (prepared rustls net url none t x))
    upgrade_at url to (err y) headers req insert s h e = tt
    upgrade_at url to (ok x) (err y) req insert s h e = tt
    upgrade_at url to (ok x) (ok hs) (err y) insert s h e = tt
    upgrade_at url to (ok x) (ok hs) (ok u) insert s h e = upgraded (insert hs) (s u) (h u refl)
      where
        upgraded :
            (i : PyResult (Unit {0})) (t : PyResult (Option Config))
            → MayMake t
            → Done (i >>= λ i. t >>= λ t. ok (prepared rustls net url none t x))
        upgraded (err y) t m = tt
        upgraded (ok i) (err y) m = tt
        upgraded (ok i) (ok t) m = (m, e, free, to)
