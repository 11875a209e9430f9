-- ===== src/Dials/Sample.antt =====
-- URLs that are their hosts, for concrete inputs.
use zmux_python.Prelude.{Bool, true, false, none, some, [], ◌∷◌, ◌==◌}
use zmux_python.Errors.{Text}
use zmux_python.Tls.Sample.{rustls}
use zmux_python.Dials.{Net}

-- A URL whose text begins with 119 is one of `wss`.
abbrev is_secure : Text → Bool
is_secure [] = false
is_secure (c ∷ cs) = c == 119

abbrev pub net : Net rustls
net = record {
  Uri = Text;
  parse_uri = some;
  uri_host = some;
  uri_port = λ u. none;
  known_port = λ u. none;
  is_wss = is_secure;
  is_header = λ k v. true;
  is_server_name = λ n. true;
  takes_quic = λ c. true;
  h3_config = λ c. some (record c { alpn = (104 ∷ 51 ∷ []) ∷ [] });
  h3_config-keeps = λ c q e. (cc, cc);
  wt_alpn = 104 ∷ 51 ∷ [];
}
