-- ===== src/Dials/Guarded.antt =====
-- src/lib.rs, the dials: which calls are protected by TLS, how, and with which credential.
use zmux_python.Dials.Guards.{Guards}
