-- ===== src/WebStore/Tests.antt =====
-- A file for the entry whose object is in view.
use phantasm.Base.{refl, true, false, none, some, [], ◌∷◌, bytes_eq}
use phantasm.Base.Dict.{lookup, insert}
use phantasm.PassphrasePolicy.{check_store_passphrases, check_passphrase, distinct}
use phantasm.Web.{Request, Web, enforce_rate_limit, client_id, restricted_session_valid}
use phantasm.WebStore.{
  GateStatus, Form, Services, Effects, saved, is_entry, entry_mode, mode_to_entry, matched_entry,
  select_entry_for_store, store_route,
}
use phantasm.WebStore.Targets.{Permitted, tested, store_route-Permitted}

abbrev in_view : GateStatus
in_view = record { matched_mode = some "secret"; object_detected = true; registered = λ mode. true }

abbrev services : Services
services = record {
  status = λ k. in_view;
  capture_reference = λ mode. none;
  writes_to = λ mode. true;
  passphrase_min_length = 4;
}

abbrev form : Form
form = record {
  password = 97 ∷ 98 ∷ 99 ∷ 97 ∷ [];
  secondary_passphrase = [];
  restricted_recovery_password = [];
  entry_hint = "";
  overwrite = false;
  overwrite_confirmation = "";
}

abbrev request : Request
request = record {
  client = none;
  path = "/store";
  ui_session_token = "";
  restricted_session_token = "";
}

abbrev idle : Web
idle = record {
  ui_sessions = [];
  restricted_sessions = [];
  rate_limit = [];
  unlock_attempts = record { max_failures = 5; lockout_seconds = 60; state = [] };
}

abbrev written : Effects
written = record { captures = []; writes = "secret" ∷ [] }

abbrev counted : Web
counted = record idle { rate_limit = ("unknown:/store", 7 ∷ []) ∷ [] }

store_route-Permitted_example :
    Permitted services form
      (tested services form
        (restricted_session_valid 8 request (enforce_rate_limit 7 request idle).1).0)
      written
unfolding store_route select_entry_for_store matched_entry mode_to_entry is_entry entry_mode
    check_store_passphrases check_passphrase distinct enforce_rate_limit lookup insert client_id
    bytes_eq
store_route-Permitted_example =
    store_route-Permitted 7 8 services request form idle counted (saved "updated") written refl
