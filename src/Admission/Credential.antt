-- ===== src/Admission/Credential.antt =====
-- src/admission.rs, `credential`, `PyCredential`, `PrefixAuth.new`, `Admission.with_times` and the
-- event loop that an admission keeps.
pub mod Loops
use zmux_python.Prelude.{
  ℕ, Bool, true, false, String, Option, none, some, List, [], ◌∷◌, PyErr, value_error, PyResult, ok,
  err, ok_or, ◌>>=◌, ◌>>◌, if◌then◌else◌,
}
use zmux_python.Streams.{CrateResult, map_err}

-- A `credential=` argument: a `PrefixAuth`, with whether it binds TLS, or another object, with what
-- `hasattr` gives for `prefix` and `header`.
pub data CredentialObj : Type 0 where
  prefix_auth : (binds_tls : Bool) → CredentialObj
  object : (has_prefix has_header : PyResult Bool) → CredentialObj

-- The crate's credential: the parameters themselves, or `PyCredential`.
pub data Credential : Type 0 where
  of_auth : (binds_tls : Bool) → Credential
  of_methods : Credential

abbrev pub not_credential : PyErr
not_credential =
    value_error "a credential is a PrefixAuth or has prefix(info) and header(info) methods"

-- `credential`
unfoldable pub credential : Option CredentialObj → PyResult (Option Credential)
credential none = ok none
credential (some (prefix_auth b)) = ok (some (of_auth b))
credential (some (object has_prefix has_header)) = do
  p ← has_prefix
  h ← if p then has_header else ok false
  if h then ok (some of_methods) else err not_credential

-- `PyCredential::call`: `entered` is what `with_info` gives, `called` the method's result, which
-- `extract` takes; both kinds of failure are I/O errors.
module _ {Obj A : Type 0} (extract : Obj → PyResult A) (io_other : PyErr → PyErr) where
  unfoldable pub call_credential : PyResult (PyResult Obj) → PyResult A
  call_credential (err e) = err e
  call_credential (ok called) = map_result (called >>= extract)
    where
      map_result : PyResult A → PyResult A
      map_result (ok a) = ok a
      map_result (err e) = err (io_other e)

-- The times of an admission, in nanoseconds.
pub record Times : Type 0 where
  pub peek_timeout : ℕ
  pub stall : ℕ × ℕ

-- `Admission::with_times`; `seconds` is the conversion of a float.
module _ {Float : Type 0} (seconds : Float → PyResult ℕ) where
  abbrev with_peek : Option Float → Times → PyResult Times
  with_peek none a = ok a
  with_peek (some t) a = seconds t >>= λ d. ok (record a { peek_timeout = d })

  unfoldable pub with_times : Option Float → Option (Float × Float) → Times → PyResult Times
  with_times peek none a = with_peek peek a
  with_times peek (some (least, most)) a = do
    b ← with_peek peek a
    min ← seconds least
    max ← seconds most
    ok (record b { stall = (min, max) })

-- `PrefixAuth.new`: `new` is the crate's, `with_header` its setter.
module _ {Auth Header : Type 0} (with_header : Header → Auth → Auth) where
  unfoldable pub new_prefix_auth : Option Auth → Option Header → PyResult Auth
  new_prefix_auth new header = do
    auth ← ok_or new (value_error "prefix authentication needs a non-empty psk and slot > 0")
    ok (elim header [ none ↦ auth | some h ↦ with_header h auth ])

-- `OnceLock::set`
abbrev pub set_once : {L : Type 0} → Option L → L → Option L
set_once (some l) m = some l
set_once none m = some m

-- The event loop of an admission's decider: `running` is the loop running now, if there is one.
module _ {L : Type 0} where
  -- `Admission.new`
  unfoldable pub new_locals : Option L → Option L
  new_locals none = none
  new_locals (some l) = set_once none l

  -- `Admission::for_listener`
  unfoldable pub for_listener : Option L → Option L → Option L
  for_listener none locals = locals
  for_listener (some l) locals = set_once locals l
