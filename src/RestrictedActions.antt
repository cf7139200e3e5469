-- ===== src/RestrictedActions.antt =====
-- restricted_actions.py: which restricted action asks for what, and the test of it.
mod Tests
pub mod Guards
use phantasm.Base.{
  String, Bool, true, false, not, ◌&&◌, Option, none, some, [], ◌∷◌, str_eq, if◌then◌else◌,
}
use phantasm.Base.Dict.{Dict}
use phantasm.Base.Except.{Result, ok, err}
use phantasm.Capabilities.{Capability, restricted_action, rapid_local_clear}

pub data Rejected : Type 0 where
  restricted_action_rejected : String → Rejected

pub record RestrictedActionPolicy : Type 0 where
  pub action_id : String
  pub capability : Capability
  pub confirmation_phrase : Option String
  pub require_restricted_confirmation : Bool
  pub require_password_reentry : Bool
  pub require_object_cue : Bool

-- A policy with the fields' defaults
abbrev pub confirmed : String → String → RestrictedActionPolicy
confirmed action_id phrase = record {
  action_id = action_id;
  capability = restricted_action;
  confirmation_phrase = some phrase;
  require_restricted_confirmation = true;
  require_password_reentry = false;
  require_object_cue = false;
}

abbrev pub clear_unmatched_entry : RestrictedActionPolicy
clear_unmatched_entry = confirmed "clear_unmatched_entry" "CLEAR LOCAL ENTRY"

abbrev pub clear_local_access_path : RestrictedActionPolicy
clear_local_access_path = confirmed "clear_local_access_path" "CLEAR LOCAL ACCESS PATH"

abbrev pub initialize_container : RestrictedActionPolicy
initialize_container = confirmed "initialize_container" "INITIALIZE LOCAL CONTAINER"

abbrev pub destroy_face : RestrictedActionPolicy
destroy_face = record (confirmed "destroy_face" "DESTROY FACE") {
  require_restricted_confirmation = false;
  require_password_reentry = true;
  require_object_cue = true;
}

abbrev pub rapid_clear : RestrictedActionPolicy
rapid_clear = record (confirmed "rapid_local_clear" "BRICK") {
  capability = rapid_local_clear;
  require_restricted_confirmation = false;
}

unfoldable pub restricted_action_policies : Dict RestrictedActionPolicy
restricted_action_policies =
    ("clear_unmatched_entry", clear_unmatched_entry)
    ∷ ("clear_local_access_path", clear_local_access_path)
    ∷ ("initialize_container", initialize_container)
    ∷ ("destroy_face", destroy_face)
    ∷ ("rapid_local_clear", rapid_clear)
    ∷ []

-- `confirmation != policy.confirmation_phrase`, for a phrase that is not None
abbrev mistyped : Option String → String → Bool
mistyped none confirmation = false
mistyped (some phrase) confirmation = not (str_eq confirmation phrase)

-- What the caller says of the action
pub record Evidence : Type 0 where
  pub capability_allowed : Bool
  pub restricted_confirmed : Bool
  pub confirmation : String
  pub password_reentered : Bool
  pub object_cue_accepted : Bool

unfoldable pub evaluate_restricted_action : RestrictedActionPolicy → Evidence → Result Rejected Bool
evaluate_restricted_action policy e =
    if not e.capability_allowed
    then err (restricted_action_rejected "operation unavailable")
    else if policy.require_restricted_confirmation && not e.restricted_confirmed
    then err (restricted_action_rejected "restricted confirmation required")
    else if mistyped policy.confirmation_phrase e.confirmation
    then err (restricted_action_rejected "confirmation rejected")
    else if policy.require_password_reentry && not e.password_reentered
    then err (restricted_action_rejected "operation rejected")
    else if policy.require_object_cue && not e.object_cue_accepted
    then err (restricted_action_rejected "operation rejected")
    else ok true
