-- ===== src/RestrictedActions/Tests.antt =====
-- The policies on the actions of the table.
use phantasm.Base.{true, false}
use phantasm.Capabilities.{capability_enabled}
use phantasm.RestrictedActions.{Evidence, rapid_clear}

abbrev holder : Evidence
holder = record {
  capability_allowed = true;
  restricted_confirmed = false;
  confirmation = "DESTROY FACE";
  password_reentered = true;
  object_cue_accepted = true;
}

abbrev brick : Evidence
brick = record holder {
  capability_allowed = capability_enabled "field" rapid_clear.capability;
  confirmation = "BRICK";
}
