-- ===== src/WebEmergency.antt =====
-- web_server.py: the routes that clear the other entry, brick the container and make it anew. What they do
-- to the vault and to the bookkeeping is noted; these calls return, and the audit events are left
-- out. An exception that is none of HTTP is answered as the status 500.
pub mod Guarded
mod Tests
use phantasm.Base.{
  ℕ, ◌≡◌, String, Bool, true, false, not, ◌&&◌, ◌||◌, Option, none, some, List, [], ◌∷◌, ◌++◌,
  str_eq, if◌then◌else◌,
}
use phantasm.Base.Except.{Result, ok, err, Method, pure, raise, lift, ◌>>=◌, ◌>>◌}
use phantasm.RestrictedActions.{
  clear_unmatched_entry, clear_local_access_path, initialize_container,
}
use phantasm.Web.{
  Web, Config, Request, Exception, http_exception, enforce_rate_limit, require_restricted_action,
}
use phantasm.WebStore.{is_entry, entry_mode}

pub data Effect : Type 0 where
  purged_other : String → Effect
  forgot_face : String → Effect
  bricked : Effect
  formatted : Effect
  forgot_container : Effect
  cleared_references : Effect

-- Whether the route says that it succeeded, and what was done, in order
abbrev pub Route : Type 0
Route = Method Web Exception (Bool × List Effect)

-- `LEGACY_SELECTOR_TO_ENTRY.get(selector, selector)`
unfoldable pub legacy_entry : String → String
legacy_entry selector =
    if str_eq selector "profile_a"
    then "entry_1"
    else if str_eq selector "profile_b"
    then "entry_2"
    else selector

unfoldable pub resolve_entry : String → Option String
resolve_entry entry_id =
    let entry = legacy_entry entry_id in if is_entry entry then some (entry_mode entry) else none

-- `_other_mode`
unfoldable pub other_mode : String → String
other_mode mode = if str_eq mode "dummy" then "secret" else "dummy"

abbrev purged : Option String → Route
purged none = raise (http_exception 500)
purged (some mode) = pure (true, purged_other mode ∷ forgot_face (other_mode mode) ∷ [])

unfoldable pub purge_other : Config → ℕ → ℕ → Request → String → String → String → Route
purge_other config t₁ t₂ r accessed_entry legacy_selector confirmation =
    enforce_rate_limit t₁ r
    >> require_restricted_action config t₂ clear_unmatched_entry r confirmation
    >> purged (
        resolve_entry
          (if str_eq accessed_entry "" then legacy_entry legacy_selector else accessed_entry))

unfoldable pub emergency_brick : Config → ℕ → ℕ → Request → String → Route
emergency_brick config t₁ t₂ r confirmation =
    enforce_rate_limit t₁ r
    >> require_restricted_action config t₂ clear_local_access_path r confirmation
    >> pure (true, bricked ∷ forgot_container ∷ [])

-- `clear_references` says whether it succeeds.
unfoldable pub emergency_initialize : Bool → Config → ℕ → ℕ → Request → String → Route
emergency_initialize cleared config t₁ t₂ r confirmation =
    enforce_rate_limit t₁ r
    >> require_restricted_action config t₂ initialize_container r confirmation
    >> pure
        (cleared, formatted ∷ forgot_container ∷ (if cleared then cleared_references ∷ [] else []))
