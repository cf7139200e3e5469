-- ===== src/WebEmergency/Tests.antt =====
-- A brick from a device with a restricted session.
use phantasm.Base.{◌*◌, refl, true, some, [], ◌∷◌}
use phantasm.Base.Dict.{lookup, insert}
use phantasm.Capabilities.{capability_enabled, active_policy, allows}
use phantasm.RestrictedActions.{evaluate_restricted_action}
use phantasm.Web.{
  second, Config, Request, Web, client_id, enforce_rate_limit, restricted_session_valid,
  require_restricted_action,
}
use phantasm.WebEmergency.{bricked, forgot_container, emergency_brick}
use phantasm.WebEmergency.Guarded.{Confirmed, bricks, run, phrase_of, run-Confirmed}

abbrev config : Config
config = record {
  profile_name = "standard";
  ui_session_ttl_seconds = 600;
  restricted_session_ttl_seconds = 120;
}

abbrev request : Request
request = record {
  client = some "10.0.0.2";
  path = "/emergency/brick";
  ui_session_token = "cookie";
  restricted_session_token = "extra";
}

abbrev confirmed_web : Web
confirmed_web = record {
  ui_sessions = [];
  restricted_sessions = ("extra", record { client_id = "10.0.0.2"; expires_at = 90 * second }) ∷ [];
  rate_limit = [];
  unlock_attempts = record { max_failures = 5; lockout_seconds = 60; state = [] };
}

run-Confirmed_example :
    Confirmed config 7 8 request (phrase_of bricks) "CLEAR LOCAL ACCESS PATH" confirmed_web
unfolding run emergency_brick enforce_rate_limit require_restricted_action restricted_session_valid
    evaluate_restricted_action client_id lookup insert capability_enabled active_policy allows
run-Confirmed_example =
    run-Confirmed bricks config 7 8 request "CLEAR LOCAL ACCESS PATH" confirmed_web
      (true, bricked ∷ forgot_container ∷ []) refl
