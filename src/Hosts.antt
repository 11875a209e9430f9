-- ===== src/Hosts.antt =====
-- src/lib.rs, `host_of`, `authority_of` and the names in `exchange_endpoint`: the host, the port and
-- the authority of an address. Texts are lists of code points.
pub mod Address
mod Tests
use zmux_python.Prelude.{
  ℕ, zero, suc, ◌+◌, ◌/◌, ◌%◌, Bool, true, false, ◌&&◌, Option, none, some, List, [], ◌∷◌, ◌++◌,
  ltb, ◌==◌, if◌then◌else◌,
}
use zmux_python.Errors.{Text}

-- The characters `:`, `[` and `]`
abbrev pub colon : ℕ
colon = 58

abbrev pub opening : ℕ
opening = 91

abbrev pub closing : ℕ
closing = 93

-- `str::rsplit_once`: the text before and after the last `sep`
abbrev before_or_here : ℕ → ℕ → Text → Option (Text × Text) → Option (Text × Text)
before_or_here sep c cs (some (h, p)) = some (c ∷ h, p)
before_or_here sep c cs none = if c == sep then some ([], cs) else none

unfoldable pub rsplit_once : ℕ → Text → Option (Text × Text)
rsplit_once sep [] = none
rsplit_once sep (c ∷ cs) = before_or_here sep c cs (rsplit_once sep cs)

-- `str::trim_start_matches` and `trim_end_matches` of a character
unfoldable pub trim_start : ℕ → Text → Text
trim_start t [] = []
trim_start t (c ∷ cs) = let rest = trim_start t cs in if c == t then rest else c ∷ cs

abbrev is_empty : Text → Bool
is_empty [] = true
is_empty (c ∷ cs) = false

unfoldable pub trim_end : ℕ → Text → Text
trim_end t [] = []
trim_end t (c ∷ cs) = let rest = trim_end t cs in if c == t && is_empty rest then [] else c ∷ rest

abbrev first_or : Text → Option (Text × Text) → Text
first_or d none = d
first_or d (some (h, p)) = h

abbrev last_or : Text → Option (Text × Text) → Text
last_or d none = d
last_or d (some (h, p)) = p

-- `host_of`
unfoldable pub host_of : Text → Text
unfolding rsplit_once trim_start trim_end
host_of addr = trim_end closing (trim_start opening (first_or addr (rsplit_once colon addr)))

-- `Display` of a port: at most five digits.
abbrev pub decimal_from : ℕ → ℕ → Text → Text
decimal_from zero n digits = digits
decimal_from (suc f) n digits =
    let shorter = decimal_from f (n / 10) ((48 + n % 10) ∷ digits) in
    if ltb n 10 then (48 + n) ∷ digits else shorter

unfoldable pub decimal : ℕ → Text
decimal port = decimal_from 5 port []

-- "443"
abbrev pub https_port : Text
https_port = 52 ∷ 52 ∷ 51 ∷ []

-- `==` of two texts
unfoldable pub same_text : Text → Text → Bool
same_text [] [] = true
same_text (c ∷ cs) (d ∷ ds) = c == d && same_text cs ds
same_text cs ds = false

-- `unwrap_or_else(|| host_of(&addr))`
abbrev pub or_host : Text → Option Text → Text
or_host addr none = host_of addr
or_host addr (some name) = name

-- The server name and the authority of `exchange_endpoint`, with TLS.
unfoldable pub exchange_names : Text → Option Text → Text × Text
unfolding host_of rsplit_once same_text
exchange_names addr server_name =
    let host = or_host addr server_name in
    let port = last_or https_port (rsplit_once colon addr) in
    (host, if same_text port https_port then host else host ++ colon ∷ port)
