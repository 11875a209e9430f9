-- ===== src/Tls/Sample.antt =====
-- A rustls whose certificates are numbers, for concrete inputs.
use zmux_python.Prelude.{
  ℕ, true, not, Option, none, some, List, [], ◌∷◌, ok, map, ◌==◌, if◌then◌else◌,
}
use zmux_python.Tls.{Bytes, Rustls, TlsConfig}

abbrev well_formed : ℕ → Option ℕ
well_formed n = if n == 0 then none else some n

abbrev or_default : List Bytes → List Bytes → List Bytes
or_default [] defaults = defaults
or_default (a ∷ given) defaults = a ∷ given

-- A PEM text is a list of certificates, where 0 is a malformed one; root 9 is not taken.
abbrev pub rustls : Rustls
rustls = record {
  FilePath = Unit;
  Cert = ℕ;
  Key = Bytes;
  read_file = λ p. ok [];
  certs_of = map well_formed;
  key_of = λ b. some b;
  has_versions = true;
  takes_root = λ c. not (c == 9);
  takes_auth = λ cs k. true;
  takes_single = λ cs k. true;
  web_roots = 100 ∷ 101 ∷ [];
  zmux_alpn = (122 ∷ []) ∷ [];
  default_alpn = or_default;
}

abbrev pub own_roots : TlsConfig
own_roots = record {
  cert = some (5 ∷ []);
  key = none;
  ca = some (1 ∷ 2 ∷ []);
  verify = true;
  alpn = [];
}
