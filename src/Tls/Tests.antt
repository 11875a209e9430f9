-- ===== src/Tls/Tests.antt =====
-- src/lib.rs, `TlsConfig` at concrete inputs.
use zmux_python.Prelude.{ℕ, ◌≡◌, refl, none, some, [], ◌∷◌, ok, err, Holds}
use zmux_python.Tls.{
  Bytes, roots, ClientConfig, client, client_alpn, client_auth_of, chain_of, collect,
  verification_of, add_roots, http1, bad_pem,
}
use zmux_python.Tls.Sample.{rustls, own_roots}
use zmux_python.Tls.Security.{Secures, IsRefusal, client_alpn-Secures}

abbrev checking : ClientConfig ℕ Bytes
checking = record { verification = roots (1 ∷ 2 ∷ []); client_auth = none; alpn = http1 }

client-own_roots : client_alpn rustls http1 own_roots ≡ ok checking
unfolding client_alpn client client_auth_of chain_of collect verification_of add_roots
client-own_roots = refl

client-malformed :
    client_alpn rustls http1 (record own_roots { ca = some (1 ∷ 0 ∷ []) }) ≡ err bad_pem
unfolding client_alpn client client_auth_of chain_of collect verification_of add_roots
client-malformed = refl

client_alpn-Secures_example :
    Holds (Secures rustls own_roots http1) (IsRefusal rustls) (client_alpn rustls http1 own_roots)
client_alpn-Secures_example = client_alpn-Secures rustls own_roots http1
