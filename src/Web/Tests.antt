-- ===== src/Web/Tests.antt =====
-- The web interface and the requests of one host.
use phantasm.Base.{
  ◌*◌, ◌≤◌, ◌≡◌, ◌⊎◌, refl, String, true, none, some, List, [], ◌∷◌, str_eq, if◌then◌else◌, length,
  arith,
}
use phantasm.Base.Dict.{lookup}
use phantasm.Base.Except.{ok}
use phantasm.Web.{
  second, Request, UiSession, Web, Config, TokenService, unlocked, granted_role, unlock_submit,
  in_window,
}
use phantasm.Web.RateLimit.{Event, admitted, admitted_per_window}
use phantasm.Web.Sessions.{session_of, unlock_submit_sessions}

abbrev config : Config
config = record {
  profile_name = "standard";
  ui_session_ttl_seconds = 600;
  restricted_session_ttl_seconds = 120;
}

abbrev laptop : Request
laptop = record {
  client = some "10.0.0.2";
  path = "/unlock";
  ui_session_token = "cookie";
  restricted_session_token = "extra";
}

abbrev session : UiSession
session = record { client_id = "10.0.0.2"; expires_at = 90 * second; role = "recover" }

abbrev started : Web
started = record {
  ui_sessions = [];
  restricted_sessions = [];
  rate_limit = [];
  unlock_attempts = record { max_failures = 5; lockout_seconds = 60; state = [] };
}

abbrev opened : Web
opened = record started { ui_sessions = ("cookie", session) ∷ [] }

abbrev service : TokenService
service = record {
  verify = λ token. if str_eq token "narrow" then some "recover" else none;
  issued_roles = true;
}

abbrev fresh_token : String
fresh_token = "fresh"

abbrev knocks : List Event
knocks = (1 * second, laptop) ∷ (2 * second, laptop) ∷ (2 * second, laptop) ∷ []

admitted_per_window_example :
    length (in_window (30 * second) (admitted "10.0.0.2:/unlock" knocks started)) ≤ 20
unfolding lookup
admitted_per_window_example =
    admitted_per_window "10.0.0.2:/unlock" knocks started (30 * second)
      (omega arith, (omega arith, (omega arith, tt))) refl (omega arith)

unlock_submit_sessions_example :
    let after = unlock_submit config service "shared" 1 2 3 4 fresh_token laptop "narrow" started in
    (lookup fresh_token after.1.ui_sessions ≡ lookup fresh_token started.ui_sessions)
    ⊎ ((fresh_token ≡ fresh_token)
        × (after.0 ≡ ok (unlocked fresh_token))
        × ((role : String) × (granted_role service "shared" "narrow" ≡ some role)
            × (lookup fresh_token after.1.ui_sessions ≡ some (session_of config 4 laptop role))))
unlock_submit_sessions_example =
    unlock_submit_sessions config service "shared" 1 2 3 4 fresh_token laptop "narrow" fresh_token
      started
