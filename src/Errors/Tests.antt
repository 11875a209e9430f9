-- ===== src/Errors/Tests.antt =====
-- src/lib.rs, the exceptions at concrete inputs.
use zmux_python.Prelude.{true, false, []}
use zmux_python.Errors.{lost, application_closed}
use zmux_python.Errors.Describe.{Failure, stream}

abbrev lost_session : Failure
lost_session = stream (
    lost (
      application_closed 7 [] true
        (record { debug = []; display = []; retryable = false; early = false })))
