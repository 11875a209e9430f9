-- ===== src/Errors.antt =====
-- src/lib.rs, the exceptions and how the crate's errors become them: `create_exception!`, `kind_of`,
-- `raise`, `session_err`, `stream_err`, `open_err`, `datagram_err`, `pipe_err`, `connect_err`, `io_err`.
pub mod Describe
mod Tests
use zmux_python.Prelude.{
  ℕ, Bool, true, false, ◌||◌, Option, none, some, List, [], ◌∷◌, ◌==◌, if◌then◌else◌,
}

-- The code points of a text
abbrev pub Text : Type 0
Text = List ℕ

-- The classes, those of the module first.
pub data Class : Type 0 where
  zmux_error connect_error session_closed early_data_rejected stream_error stream_reset : Class
  stream_stopped incomplete_read limit_exceeded listener_closed open_error datagram_error : Class
  pipe_error preamble_too_large_error value_error exception : Class

-- The base class that `create_exception!` names.
abbrev pub base : Class → Class
base zmux_error = exception
base stream_reset = stream_error
base stream_stopped = stream_error
base incomplete_read = stream_error
base limit_exceeded = stream_error
base preamble_too_large_error = value_error
base value_error = exception
base exception = exception
base c = zmux_error

-- An exception and the attributes set on it; `none` where an attribute is not set.
pub record Exc : Type 0 where
  pub class : Class
  pub text : Text
  pub kind : Option Text
  pub retryable : Option Bool
  pub code : Option (Option ℕ)
  pub reason : Option (Option Text)
  pub remote : Option (Option Bool)

-- What the crate says of an error: its `Debug` and `Display` text, `is_retryable` and
-- `is_early_data_rejected`.
pub record Said : Type 0 where
  pub debug : Text
  pub display : Text
  pub retryable : Bool
  pub early : Bool

-- The crate's errors, with the variants that the binding tells apart.
pub data SessionError : Type 0 where
  application_closed transport_closed :
      (code : ℕ) (reason : Text) (remote : Bool) → Said → SessionError
  idle_timeout : (remote : Bool) → Said → SessionError
  other_session : Said → SessionError

pub data StreamError : Type 0 where
  reset stopped : (code : ℕ) → Said → StreamError
  lost : SessionError → StreamError
  too_large : Said → StreamError
  other_stream : Said → StreamError

pub data OpenError : Type 0 where
  lost : SessionError → OpenError
  too_large : Said → OpenError
  other_open : Said → OpenError

pub data DatagramError : Type 0 where
  lost : SessionError → DatagramError
  other_datagram : Said → DatagramError

pub data PipeError : Type 0 where
  lost : SessionError → PipeError
  invalid_options : Said → PipeError
  other_pipe : Said → PipeError

pub data ConnectError : Type 0 where
  closed : SessionError → ConnectError
  other_connect : Said → ConnectError

-- The characters `(`, space and `{`
abbrev pub splits : ℕ → Bool
splits c = c == 40 || c == 32 || c == 123

unfoldable pub kind_of : Text → Text
kind_of [] = []
kind_of (c ∷ cs) = let rest = kind_of cs in if splits c then [] else c ∷ rest

unfoldable pub raise : Class → Said → Bool → Option ℕ → Exc
raise class e retryable code = record {
  class = class;
  text = e.display;
  kind = some (kind_of e.debug);
  retryable = some retryable;
  code = some code;
  reason = none;
  remote = none;
}

-- `new_err` of a class, with no attribute set
abbrev pub new_err : Class → Text → Exc
new_err class text = record {
  class = class;
  text = text;
  kind = none;
  retryable = none;
  code = none;
  reason = none;
  remote = none;
}

abbrev pub said : SessionError → Said
said (application_closed c r m s) = s
said (transport_closed c r m s) = s
said (idle_timeout m s) = s
said (other_session s) = s

-- The code, the reason and the side that `session_err` takes out of an error.
abbrev pub parts : SessionError → Option ℕ × Option Text × Option Bool
parts (application_closed code reason remote s) = (some code, some reason, some remote)
parts (transport_closed code reason remote s) = (some code, some reason, some remote)
parts (idle_timeout remote s) = (none, none, some remote)
parts (other_session s) = (none, none, none)

unfoldable pub session_err : SessionError → Exc
unfolding raise
session_err e =
    let s = said e in
    let (code, reason, remote) = parts e in
    let err = raise (if s.early then early_data_rejected else session_closed) s s.retryable code in
    record err { reason = some reason; remote = some remote }

unfoldable pub stream_err : StreamError → Exc
unfolding session_err
stream_err (reset code s) = raise stream_reset s s.retryable (some code)
stream_err (stopped code s) = raise stream_stopped s s.retryable (some code)
stream_err (lost e) = session_err e
stream_err (too_large s) = new_err preamble_too_large_error s.display
stream_err (other_stream s) = raise stream_error s s.retryable none

unfoldable pub open_err : OpenError → Exc
unfolding session_err
open_err (lost e) = session_err e
open_err (too_large s) = new_err preamble_too_large_error s.display
open_err (other_open s) = raise open_error s s.retryable none

unfoldable pub datagram_err : DatagramError → Exc
unfolding session_err
datagram_err (lost e) = session_err e
datagram_err (other_datagram s) = raise datagram_error s s.retryable none

unfoldable pub pipe_err : PipeError → Exc
unfolding session_err
pipe_err (lost e) = session_err e
pipe_err (invalid_options s) = new_err value_error s.display
pipe_err (other_pipe s) = raise pipe_error s s.retryable none

unfoldable pub connect_err : ConnectError → Exc
unfolding session_err
connect_err (closed e) = session_err e
connect_err (other_connect s) = raise connect_error s s.retryable none

-- `ErrorKind` "Io"
abbrev pub io_kind : Text
io_kind = 73 ∷ 111 ∷ []

unfoldable pub io_err : Said → Exc
unfolding raise
io_err s = record (raise connect_error s false none) { kind = some io_kind }
