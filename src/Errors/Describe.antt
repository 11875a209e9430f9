-- ===== src/Errors/Describe.antt =====
-- src/lib.rs, the crate's errors: what the exception of each one says.
use zmux_python.Prelude.{
  ℕ, ◌≡◌, refl, ◌⊎◌, Bool, true, false, Option, none, some, [], ◌∷◌, ◌++◌, All,
}
use zmux_python.Errors.{
  Text, Class, zmux_error, stream_error, stream_reset, stream_stopped, preamble_too_large_error,
  value_error, connect_error, open_error, datagram_error, pipe_error, session_closed,
  early_data_rejected, base, Exc, Said, SessionError, StreamError, OpenError, DatagramError,
  PipeError, ConnectError, lost, closed, reset, stopped, too_large, other_stream, other_open,
  other_datagram, invalid_options, other_pipe, other_connect, splits, kind_of, said, parts, io_kind,
  session_err, stream_err, open_err, datagram_err, pipe_err, connect_err, io_err,
}

abbrev pub Splits : ℕ → Type 0
Splits c = splits c ≡ true

abbrev pub IsWord : Text → Type 0
IsWord w = All (λ c. splits c ≡ false) w

kind_of-word : (w : Text) (c : ℕ) (rest : Text) → IsWord w → Splits c → kind_of (w ++ c ∷ rest) ≡ w
unfolding kind_of
kind_of-word [] c rest h s = rw s refl
kind_of-word (x ∷ xs) c rest h s = rw (h.0, kind_of-word xs c rest h.1 s) refl

kind_of_word : (w : Text) → IsWord w → kind_of w ≡ w
unfolding kind_of
kind_of_word [] h = refl
kind_of_word (x ∷ xs) h = rw (h.0, kind_of_word xs h.1) refl

kind_of-IsWord : (t : Text) → IsWord (kind_of t)
unfolding kind_of
kind_of-IsWord [] = tt
kind_of-IsWord (c ∷ cs) = split (splits c) refl (kind_of-IsWord cs)
  where
    split : (b : Bool) → splits c ≡ b → IsWord (kind_of cs) → IsWord (kind_of (c ∷ cs))
    split true e h = rw e tt
    split false e h = rw e (e, h)

-- The kind of an error is the name of its variant, whatever fields `Debug` prints after it: for a
-- name that holds no `(`, space or `{`, alone or before one of them. A kind never holds one.
pub kind_of_lem :
    (w : Text) (c : ℕ) (fields t : Text)
    → IsWord w
    → Splits c
    → (kind_of w ≡ w) × (kind_of (w ++ c ∷ fields) ≡ w) × IsWord (kind_of t)
kind_of_lem w c fields t h s = (kind_of_word w h, kind_of-word w c fields h s, kind_of-IsWord t)

-- An error of any call on a session.
pub data Failure : Type 0 where
  session : SessionError → Failure
  stream : StreamError → Failure
  open_ : OpenError → Failure
  datagram : DatagramError → Failure
  pipe : PipeError → Failure
  connect : ConnectError → Failure
  io : Said → Failure

unfoldable pub exception_of : Failure → Exc
unfolding session_err stream_err open_err datagram_err pipe_err connect_err io_err
exception_of (session e) = session_err e
exception_of (stream e) = stream_err e
exception_of (open_ e) = open_err e
exception_of (datagram e) = datagram_err e
exception_of (pipe e) = pipe_err e
exception_of (connect e) = connect_err e
exception_of (io s) = io_err s

-- The session error inside, where the session was lost.
abbrev pub cause : Failure → Option SessionError
cause (session e) = some e
cause (stream (lost e)) = some e
cause (open_ (lost e)) = some e
cause (datagram (lost e)) = some e
cause (pipe (lost e)) = some e
cause (connect (closed e)) = some e
cause f = none

-- The class, the code and what the crate says of a failure of the call itself, and whether it is
-- one of the arguments.
abbrev pub class_of : Failure → Class
class_of (session e) = session_closed
class_of (stream (reset c s)) = stream_reset
class_of (stream (stopped c s)) = stream_stopped
class_of (stream (too_large s)) = preamble_too_large_error
class_of (stream e) = stream_error
class_of (open_ (too_large s)) = preamble_too_large_error
class_of (open_ e) = open_error
class_of (datagram e) = datagram_error
class_of (pipe (invalid_options s)) = value_error
class_of (pipe e) = pipe_error
class_of (connect e) = connect_error
class_of (io s) = connect_error

abbrev pub is_of_arguments : Class → Bool
is_of_arguments value_error = true
is_of_arguments preamble_too_large_error = true
is_of_arguments c = false

abbrev pub code_of : Failure → Option ℕ
code_of (stream (reset c s)) = some c
code_of (stream (stopped c s)) = some c
code_of f = none

abbrev pub said_of : Failure → Said
said_of (session e) = said e
said_of (stream (reset c s)) = s
said_of (stream (stopped c s)) = s
said_of (stream (lost e)) = said e
said_of (stream (too_large s)) = s
said_of (stream (other_stream s)) = s
said_of (open_ (lost e)) = said e
said_of (open_ (too_large s)) = s
said_of (open_ (other_open s)) = s
said_of (datagram (lost e)) = said e
said_of (datagram (other_datagram s)) = s
said_of (pipe (lost e)) = said e
said_of (pipe (invalid_options s)) = s
said_of (pipe (other_pipe s)) = s
said_of (connect (closed e)) = said e
said_of (connect (other_connect s)) = s
said_of (io s) = s

-- An I/O error has a kind of its own and is never retryable.
abbrev pub kind_for : Failure → Text
kind_for (io s) = io_kind
kind_for f = kind_of (said_of f).debug

abbrev pub retryable_for : Failure → Bool
retryable_for (io s) = false
retryable_for f = (said_of f).retryable

abbrev pub Tells : Bool → Failure → Exc → Type 0
Tells true f x = (x.kind ≡ none) × (x.retryable ≡ none) × (x.code ≡ none)
Tells false f x =
    (x.kind ≡ some (kind_for f))
    × (x.retryable ≡ some (retryable_for f))
    × (x.code ≡ some (code_of f))

-- What the exception of a failure is: its text is the crate's; for a lost session it is the one of
-- the session error, with its code, reason and side; else it has the class of the failure, its
-- kind, whether it can be retried and its code unless it is an error of the arguments, and neither
-- `reason` nor `remote`.
abbrev pub Describes : Failure → Option SessionError → Exc → Type 0
Describes f (some e) x =
    (((said e).early ≡ false) × (x.class ≡ session_closed)
      ⊎ ((said e).early ≡ true) × (x.class ≡ early_data_rejected))
    × (base x.class ≡ zmux_error)
    × (x.text ≡ (said e).display)
    × (x.kind ≡ some (kind_of (said e).debug))
    × (x.retryable ≡ some (said e).retryable)
    × (x.code ≡ some (parts e).0)
    × (x.reason ≡ some (parts e).1)
    × (x.remote ≡ some (parts e).2)
Describes f none x =
    (x.class ≡ class_of f)
    × (x.text ≡ (said_of f).display)
    × Tells (is_of_arguments (class_of f)) f x
    × (x.reason ≡ none)
    × (x.remote ≡ none)
