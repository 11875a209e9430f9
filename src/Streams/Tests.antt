-- ===== src/Streams/Tests.antt =====
-- src/lib.rs, the streams at concrete inputs.
use zmux_python.Prelude.{
  ℕ, suc, ◌+◌, Bool, true, false, none, some, value_error, raised, err, if◌then◌else◌, ltb,
}
use zmux_python.Handles.Parts.{Part}
use zmux_python.Streams.{
  done, failed, value, chunk, nothing, SendCall, RecvCall, Zmux, do_send, do_recv,
}
use zmux_python.Streams.Sending.{Sends, do_send-Sends}
use zmux_python.Streams.Receiving.{Receives, do_recv-Receives}

-- A crate whose parts count the calls, and whose sending part has ended after three.
abbrev counting : Zmux
counting = record {
  Send = ℕ;
  Recv = ℕ;
  Err = Bool;
  send = λ c s. (done (value s), suc s);
  recv = λ c s. (done (chunk none), suc s);
  finish_part = λ s. (if ltb s 3 then done tt else failed true, suc s);
  reset_part = λ code s. (done tt, s + 10);
  stop_part = λ code s. (done tt, s + 10);
  reject_part = λ s. done nothing;
  is_closed_locally = λ e. e;
  to_py = λ e. raised "StreamError";
  from_u64 = λ n. if ltb n 100 then some n else none;
  new_priority = λ u. if ltb u 8 then some u else none;
  find_policy = λ s. err (value_error "unknown scheduler");
}

abbrev part : Part ℕ
part = record { busy = false; part = some 5 }

do_send-Sends_example :
    Sends counting
      (SendCall.aexit true)
      false
      (some 5)
      (do_send counting (SendCall.aexit true) part)
do_send-Sends_example = do_send-Sends counting (SendCall.aexit true) part

do_recv-Receives_example :
    Receives counting RecvCall.anext false (some 5) (do_recv counting RecvCall.anext part)
do_recv-Receives_example = do_recv-Receives counting RecvCall.anext part
