-- ===== src/Hosts/Tests.antt =====
-- src/lib.rs, the addresses at concrete inputs.
use zmux_python.Prelude.{◌≡◌, refl, true, none, [], ◌∷◌}
use zmux_python.Errors.{Text}
use zmux_python.Hosts.{
  host_of, rsplit_once, trim_start, trim_end, decimal, exchange_names, same_text,
}
use zmux_python.Hosts.Address.{address, IsAuthority, exchange_names-address}

-- "::1"
abbrev loopback : Text
loopback = 58 ∷ 58 ∷ 49 ∷ []

-- "8443"
abbrev port : Text
port = 56 ∷ 52 ∷ 52 ∷ 51 ∷ []

host_of-loopback : host_of (address true loopback port) ≡ loopback
unfolding host_of rsplit_once trim_start trim_end
host_of-loopback = refl

-- "::1:8443", without brackets
abbrev unbracketed : Text
unbracketed = 58 ∷ 58 ∷ 49 ∷ 58 ∷ 56 ∷ 52 ∷ 52 ∷ 51 ∷ []

exchange_names-loopback : exchange_names (address true loopback port) none ≡ (loopback, unbracketed)
unfolding exchange_names host_of rsplit_once trim_start trim_end same_text
exchange_names-loopback = refl

decimal-port : decimal 8443 ≡ port
unfolding decimal
decimal-port = refl

exchange_names-address_example :
    ((exchange_names (address true loopback port) none).0 ≡ loopback)
    × IsAuthority loopback port (exchange_names (address true loopback port) none).1
exchange_names-address_example =
    exchange_names-address true loopback port none
      ((refl, refl), ((refl, refl), ((refl, refl), tt))) (refl, (refl, (refl, (refl, tt))))
