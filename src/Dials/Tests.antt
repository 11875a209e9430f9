-- ===== src/Dials/Tests.antt =====
-- src/lib.rs, the dials at concrete inputs.
use zmux_python.Prelude.{ℕ, ◌≡◌, refl, true, false, none, some, Option, [], ◌∷◌, ok, err, Holds}
use zmux_python.Tls.Sample.{rustls, own_roots}
use zmux_python.Admission.Credential.{CredentialObj, prefix_auth}
use zmux_python.Dials.{Dial, http_client_options, bound_token}
use zmux_python.Dials.Prepare.{dial, new_http, bidirectional}
use zmux_python.Dials.Sample.{net}
use zmux_python.Dials.Exchange.{Options, Given, base64_name, new_options}
use zmux_python.Dials.Exchange.Makes.{Makes, IsReason, new_options-Makes}
use zmux_python.Dials.Guards.{Guards}

abbrev bound : Option CredentialObj
bound = some (prefix_auth true)

http-bound : dial rustls net (Dial.http [] bound bidirectional) ≡ err bound_token
unfolding dial new_http http_client_options
http-bound = refl

abbrev upgrade : Dial
upgrade = Dial.websocket (119 ∷ []) (some own_roots) (ok []) bound

abbrev defaults : Options
defaults = record {
  base64 = false;
  unauthenticated = false;
  psk = [];
  path = 47 ∷ [];
  down_path = none;
  query = [];
  down_requests = 2;
  up_requests = 2;
  up_piece = none;
  max_down_piece = none;
  down_piece = none;
  max_up_piece = none;
  down_window = 65536;
  up_store = 65536;
  max_carriers = none;
  max_recorded = 100;
  timers = record {
    request_timeout = 30;
    deadline = 20;
    hold = 10;
    coalesce = 0;
    idle_timeout = 60;
    gone_memory = 60;
    time_window = 60;
    backoff_initial = 1;
    backoff_max = 30;
  };
}

-- `encoding="base64"` with a hold of 5 and a piece of 4096 bytes
abbrev given : Given ℕ
given = record {
  encoding = base64_name;
  unauthenticated = true;
  psk = none;
  path = none;
  down_path = none;
  query = none;
  down_requests = some 3;
  up_requests = none;
  up_piece = some 4096;
  max_down_piece = none;
  down_piece = none;
  max_up_piece = none;
  down_window = none;
  up_store = none;
  max_carriers = none;
  max_recorded = none;
  timers = record {
    request_timeout = none;
    deadline = none;
    hold = some 5;
    coalesce = none;
    idle_timeout = none;
    gone_memory = none;
    time_window = none;
    backoff_initial = none;
    backoff_max = none;
  };
}

base64_given : Holds (Makes some defaults given) (IsReason some) (new_options some defaults given)
base64_given = new_options-Makes some defaults given
