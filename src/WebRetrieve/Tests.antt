-- ===== src/WebRetrieve/Tests.antt =====
-- A destroy password, with the object of the second mode in view.
use phantasm.Base.{refl, String, Bool, true, false, none, some, [], ◌∷◌, str_eq}
use phantasm.Base.Dict.{lookup, insert, erase}
use phantasm.AttemptLimiter.{AttemptLimiter, check, record_success, state_of}
use phantasm.Web.{Request, Web, enforce_rate_limit, client_id}
use phantasm.WebRetrieve.{
  nothing, no_valid_entry, Effects, Services, destroyed_by_password, attempt, retrieve_route,
}
use phantasm.WebRetrieve.Silence.{Explained, retrieve_route-Explained}

abbrev token_if : Bool → String
token_if true = "reference_secret_matched"
token_if false = "reference_dummy_matched"

abbrev services : Services
services = record {
  auth_token = "reference_secret_matched";
  token_of = λ mode. token_if (str_eq mode "secret");
  matched_mode = some "secret";
  has_vessel = true;
  retrieve = λ mode. nothing;
  destroy_face = λ mode. true;
  duress_mode_enabled = false;
  purge_confirmation_required = true;
}

abbrev request : Request
request = record {
  client = none;
  path = "/retrieve";
  ui_session_token = "";
  restricted_session_token = "";
}

abbrev attempts : AttemptLimiter
attempts = record { max_failures = 5; lockout_seconds = 60; state = [] }

abbrev idle : Web
idle = record {
  ui_sessions = [];
  restricted_sessions = [];
  rate_limit = [];
  unlock_attempts = attempts;
}

abbrev secret_destroyed : Effects
secret_destroyed = record { cleared = []; destroyed = "secret" ∷ []; purged = [] }

retrieve_route-Explained_example : Explained services no_valid_entry secret_destroyed
unfolding retrieve_route attempt destroyed_by_password check record_success state_of
    enforce_rate_limit client_id lookup insert erase
retrieve_route-Explained_example =
    retrieve_route-Explained 7 8 9 services request attempts attempts idle no_valid_entry
      secret_destroyed refl
