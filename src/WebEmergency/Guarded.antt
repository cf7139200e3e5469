-- ===== src/WebEmergency/Guarded.antt =====
-- What has to be there before any of these routes touches the container.
use phantasm.Base.{ℕ, ◌≡◌, String, Bool, true, List, [], ◌∷◌, str_eq, if◌then◌else◌, arith}
use phantasm.Base.Except.{ok, pure, ◌>>◌}
use phantasm.Capabilities.{capability_enabled, restricted_action}
use phantasm.RestrictedActions.{confirmed, evaluate_restricted_action}
use phantasm.Web.{
  Web, Config, Request, enforce_rate_limit, restricted_session_valid, require_restricted_action,
}
use phantasm.WebEmergency.{
  Effect, bricked, formatted, forgot_container, cleared_references, Route, purged, legacy_entry,
  resolve_entry, purge_other, emergency_brick, emergency_initialize,
}

-- The phrase, the capability of the profile, and a restricted session after the rate limit
unfoldable pub Confirmed : Config → ℕ → ℕ → Request → String → String → Web → Type 0
Confirmed config t₁ t₂ r phrase confirmation web =
    (str_eq confirmation phrase ≡ true)
    × (capability_enabled config.profile_name restricted_action ≡ true)
    × ((restricted_session_valid t₂ r (enforce_rate_limit t₁ r web).1).0 ≡ true)

guarded :
    (config : Config) (t₁ t₂ : ℕ) (r : Request) (action phrase confirmation : String) (web : Web)
    (rest : Route) (result : Bool × List Effect)
    → ((enforce_rate_limit t₁ r
          >> require_restricted_action config t₂ (confirmed action phrase) r confirmation
          >> rest)
        web).0
      ≡ ok result
    → Confirmed config t₁ t₂ r phrase confirmation web
unfolding require_restricted_action evaluate_restricted_action Confirmed
guarded config t₁ t₂ r action phrase confirmation web rest result done = ground (arith, done)

-- The three routes, with the forms of their own
pub data Action : Type 0 where
  clears_other : String → String → Action
  bricks : Action
  initializes : Bool → Action

unfoldable pub run : Action → Config → ℕ → ℕ → Request → String → Route
run (clears_other entry selector) config t₁ t₂ r confirmation =
    purge_other config t₁ t₂ r entry selector confirmation
run bricks config t₁ t₂ r confirmation = emergency_brick config t₁ t₂ r confirmation
run (initializes cleared) config t₁ t₂ r confirmation =
    emergency_initialize cleared config t₁ t₂ r confirmation

unfoldable pub phrase_of : Action → String
phrase_of (clears_other entry selector) = "CLEAR LOCAL ENTRY"
phrase_of bricks = "CLEAR LOCAL ACCESS PATH"
phrase_of (initializes cleared) = "INITIALIZE LOCAL CONTAINER"

-- The clearing of the other entry, the brick, and the making of a new container return only where the
-- action's own phrase was typed, the profile has the capability of restricted actions, and the request has a
-- restricted session after the rate limit has let it in.
pub run-Confirmed :
    (action : Action) (config : Config) (t₁ t₂ : ℕ) (r : Request) (confirmation : String)
    (web : Web) (result : Bool × List Effect)
    → (run action config t₁ t₂ r confirmation web).0 ≡ ok result
    → Confirmed config t₁ t₂ r (phrase_of action) confirmation web
unfolding run phrase_of purge_other emergency_brick emergency_initialize
run-Confirmed (clears_other entry selector) config t₁ t₂ r confirmation web result done =
    guarded config t₁ t₂ r "clear_unmatched_entry" "CLEAR LOCAL ENTRY" confirmation web
      (purged (resolve_entry (if str_eq entry "" then legacy_entry selector else entry))) result
      done
run-Confirmed bricks config t₁ t₂ r confirmation web result done =
    guarded config t₁ t₂ r "clear_local_access_path" "CLEAR LOCAL ACCESS PATH" confirmation web
      (pure (true, bricked ∷ forgot_container ∷ [])) result done
run-Confirmed (initializes cleared) config t₁ t₂ r confirmation web result done =
    guarded config t₁ t₂ r "initialize_container" "INITIALIZE LOCAL CONTAINER" confirmation web
      (pure
        (cleared, formatted ∷ forgot_container ∷ (if cleared then cleared_references ∷ [] else [])))
      result done
