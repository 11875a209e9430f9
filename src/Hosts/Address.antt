-- ===== src/Hosts/Address.antt =====
-- src/lib.rs, `host_of` and `exchange_endpoint` on an address of a host and a port.
use zmux_python.Prelude.{
  ℕ, ◌≡◌, refl, ap, sym, ◌∙◌, ◌⊎◌, ◌≢◌, Bool, true, false, ◌&&◌, Bool-cases, inl, inr, Option, none,
  some, [], ◌∷◌, ◌++◌, ◌==◌, if◌then◌else◌, All, arith,
}
use mathlib.Core.List.{append_assoc}
use zmux_python.Errors.{Text}
use zmux_python.Hosts.{
  colon, opening, closing, rsplit_once, trim_start, trim_end, host_of, https_port, same_text,
  exchange_names,
}

-- A text without the character, and a host, which has no brackets.
abbrev pub Avoids : ℕ → Text → Type 0
Avoids t = All λ c. (c == t) ≡ false

abbrev pub IsHost : Text → Type 0
IsHost = All λ c. ((c == opening) ≡ false) × ((c == closing) ≡ false)

-- `host:port`, or `[host]:port` as an IPv6 address is written.
abbrev pub address : Bool → Text → Text → Text
address false host port = host ++ colon ∷ port
address true host port = opening ∷ (host ++ closing ∷ colon ∷ port)

rsplit_once-none : (sep : ℕ) (p : Text) → Avoids sep p → rsplit_once sep p ≡ none
unfolding rsplit_once
rsplit_once-none sep [] h = refl
rsplit_once-none sep (c ∷ cs) (h, hs) = rw (rsplit_once-none sep cs hs, h) refl

self : (c : ℕ) → (c == c) ≡ true
self c = ground arith

rsplit_once-append :
    (sep : ℕ) (h p : Text) → Avoids sep p → rsplit_once sep (h ++ sep ∷ p) ≡ some (h, p)
unfolding rsplit_once
rsplit_once-append sep [] p a = rw (rsplit_once-none sep p a, self sep) refl
rsplit_once-append sep (c ∷ cs) p a = rw (rsplit_once-append sep cs p a) refl

trim_end-host : (h : Text) → IsHost h → trim_end closing h ≡ h
unfolding trim_end
trim_end-host [] a = refl
trim_end-host (c ∷ cs) ((o, e), a) = rw (trim_end-host cs a, e) refl

trim_end-closing : (h : Text) → IsHost h → trim_end closing (h ++ closing ∷ []) ≡ h
unfolding trim_end
trim_end-closing [] a = refl
trim_end-closing (c ∷ cs) ((o, e), a) = rw (trim_end-closing cs a, e) refl

trim_start-host : (h t : Text) → IsHost h → trim_start opening (h ++ closing ∷ t) ≡ h ++ closing ∷ t
unfolding trim_start
trim_start-host [] t a = refl
trim_start-host (c ∷ cs) t ((o, e), a) = rw o refl

trim_start-bare : (h : Text) → IsHost h → trim_start opening h ≡ h
unfolding trim_start
trim_start-bare [] a = refl
trim_start-bare (c ∷ cs) ((o, e), a) = rw o refl

-- The text before the last colon of an address.
abbrev bracketed : Bool → Text → Text
bracketed false host = host
bracketed true host = opening ∷ (host ++ closing ∷ [])

rsplit_once-address :
    (b : Bool) (host port : Text)
    → Avoids colon port
    → rsplit_once colon (address b host port) ≡ some (bracketed b host, port)
rsplit_once-address false host port a = rsplit_once-append colon host port a
rsplit_once-address true host port a =
    ap (λ t. rsplit_once colon (opening ∷ t))
      (sym (append_assoc host (closing ∷ []) (colon ∷ port)))
    ∙ rsplit_once-append colon (opening ∷ (host ++ closing ∷ [])) port a

trims :
    (b : Bool) (host : Text)
    → IsHost host
    → trim_end closing (trim_start opening (bracketed b host)) ≡ host
unfolding trim_start
trims false host h = rw (trim_start-bare host h, trim_end-host host h) refl
trims true host h = ap (trim_end closing) (drops host h) ∙ trim_end-closing host h
  where
    drops :
        (host : Text)
        → IsHost host
        → trim_start opening (opening ∷ (host ++ closing ∷ [])) ≡ host ++ closing ∷ []
    drops host h = trim_start-host host [] h

host_of-address :
    (b : Bool) (host port : Text)
    → IsHost host
    → Avoids colon port
    → host_of (address b host port) ≡ host
unfolding host_of
host_of-address b host port h a = rw (rsplit_once-address b host port a) (trims b host h)

pub same : (a b : Text) → same_text a b ≡ true → a ≡ b
unfolding same_text
same [] [] e = refl
same (c ∷ cs) (d ∷ ds) e = elim (Bool-cases (c == d)) [
  | inl t ↦ cc (equal c d t, same cs ds (rest c d cs ds t e))
  | inr f ↦ absurd (differs c d cs ds f e)
]
  where
    equal : (c d : ℕ) → (c == d) ≡ true → c ≡ d
    equal c d t = ground (arith, t)

    rest :
        (c d : ℕ) (cs ds : Text)
        → (c == d) ≡ true
        → (c == d && same_text cs ds) ≡ true
        → same_text cs ds ≡ true
    rest c d cs ds t e = ground (arith, t, e)

    differs : (c d : ℕ) (cs ds : Text) → (c == d) ≡ false → (c == d && same_text cs ds) ≡ true → ⊥
    differs c d cs ds f e = ground (arith, f, e)
same [] (d ∷ ds) e = absurd (cc)
same (c ∷ cs) [] e = absurd (cc)

same_self : (a : Text) → same_text a a ≡ true
unfolding same_text
same_self [] = refl
same_self (c ∷ cs) = rw (self c, same_self cs) refl

-- The authority of a name at a port.
abbrev pub IsAuthority : Text → Text → Text → Type 0
IsAuthority name port authority =
    ((port ≡ https_port) × (authority ≡ name))
    ⊎ ((port ≢ https_port) × (authority ≡ name ++ colon ∷ port))

shown_port :
    (name port : Text)
    → IsAuthority name port (if same_text port https_port then name else name ++ colon ∷ port)
shown_port name port = elim (Bool-cases (same_text port https_port)) [
  | inl t ↦ rw t (inl (same port https_port t, refl))
  | inr f ↦
      rw f (
        inr
          ((λ e. absurd (cc (f, same_self https_port, ap (λ q. same_text q https_port) e))), refl))
]

abbrev pub chosen : Text → Option Text → Text
chosen host none = host
chosen host (some name) = name

-- An exchange endpoint over TLS at `host:port` or `[host]:port`, where the host has no bracket and
-- the port no colon: the server name is the one that is given, else the host without its brackets;
-- the authority is the server name alone where the port is 443, else with the port. The brackets of
-- an IPv6 host are not put back into the authority.
pub exchange_names-address :
    (b : Bool) (host port : Text) (server_name : Option Text)
    → IsHost host
    → Avoids colon port
    → ((exchange_names (address b host port) server_name).0 ≡ chosen host server_name)
      × IsAuthority
          (chosen host server_name)
          port
          (exchange_names (address b host port) server_name).1
unfolding exchange_names
exchange_names-address b host port none h a =
    rw (host_of-address b host port h a, rsplit_once-address b host port a)
      (refl, shown_port host port)
exchange_names-address b host port (some name) h a =
    rw (rsplit_once-address b host port a) (refl, shown_port name port)
