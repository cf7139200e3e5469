-- ===== src/WebRetrieve.antt =====
-- web_server.py: the route that retrieves a file, with what a destroy password does in it. What the vessel
-- or the vault gives for a mode, and whether its face is destroyed by the password, are arguments; a mode
-- that is cleared, destroyed, or purged since the other was opened is noted. The purges return. The audit
-- events and the resuming of the camera are left out.
pub mod Silence
mod Tests
use phantasm.Base.{
  ℕ, ◌/◌, ◌≡◌, String, Bool, true, false, not, ◌&&◌, ◌||◌, Option, none, some, List, [], ◌∷◌, Bytes,
  str_eq, if◌then◌else◌,
}
use phantasm.Base.Except.{Result, ok, err}
use phantasm.AttemptLimiter.{AttemptLimiter, check, record_failure, record_success}
use phantasm.WebEmergency.{other_mode}
use phantasm.Web.{Web, Request, Exception, enforce_rate_limit, client_id, second}

-- What a retrieval from one mode gives: no file, an exception, or a file, and whether the password was the
-- destroy password of the slot
pub data Found : Type 0 where
  nothing : Found
  raises : Found
  found : Bytes → Bool → Found

pub data Answer : Type 0 where
  unavailable : Answer
  no_valid_entry : Answer
  -- the file, and whether the other mode was purged
  file : Bytes → Bool → Answer

pub data Raised : Type 0 where
  web : Exception → Raised
  retrieval : Raised

-- The modes that were cleared, or destroyed, by the password, and those that were purged because the other was
-- opened
pub record Effects : Type 0 where
  pub cleared : List String
  pub destroyed : List String
  pub purged : List String

-- What the request meets
pub record Services : Type 0 where
  -- `auth_sequence(length=1)[0]`, and the token of a mode
  pub auth_token : String
  pub token_of : String → String
  -- the mode that matches when the destroy password is tried
  pub matched_mode : Option String
  pub has_vessel : Bool
  pub retrieve : String → Found
  -- does `destroy_face` return for this mode?
  pub destroy_face : String → Bool
  pub duress_mode_enabled : Bool
  pub purge_confirmation_required : Bool

abbrev pub modes : List String
modes = "dummy" ∷ "secret" ∷ []

-- The loop over the modes: none opened, one was opened by its access password, one by its destroy password,
-- or the vault raised
pub data Outcome : Type 0 where
  none_opened : Outcome
  opened : String → Bytes → Outcome
  ended : String → Outcome
  failed : Outcome

-- An exception of the vessel is caught and the next mode is tried; one of the vault is not.
abbrev first_of : Bool → String → Found → Outcome → Outcome
first_of has_vessel mode nothing rest = rest
first_of has_vessel mode raises rest = if has_vessel then rest else failed
first_of has_vessel mode (found payload is_purge) rest =
    if is_purge then ended mode else opened mode payload

abbrev pub try_modes : Services → List String → Outcome
try_modes services [] = none_opened
try_modes services (mode ∷ rest) =
    first_of services.has_vessel mode (services.retrieve mode) (try_modes services rest)

abbrev is_mode : String → Bool
is_mode mode = str_eq mode "dummy" || str_eq mode "secret"

-- The mode that is destroyed by the password, if it is
unfoldable pub destroyed_by_password : Services → Option String
destroyed_by_password services =
    if not services.has_vessel then none else elim services.matched_mode [
      | none ↦ none
      | some mode ↦
          if not (is_mode mode)
          then none
          else if not (str_eq services.auth_token (services.token_of mode))
          then none
          else if services.destroy_face mode
          then some mode
          else none
    ]

-- Is the other mode purged?
unfoldable pub maybe_auto_purge : Services → String → Bool
maybe_auto_purge services mode =
    (services.duress_mode_enabled && str_eq mode "dummy")
    || not services.purge_confirmation_required

abbrev pub no_effects : Effects
no_effects = record { cleared = []; destroyed = []; purged = [] }

abbrev scope_of : Request → String
scope_of r = Prim.Native.String.◌++◌ "web:" (client_id r)

abbrev Attempted : Type 0
Attempted = Result Raised (Answer × Effects) × AttemptLimiter

abbrev not_opened : String → ℕ → Option String → AttemptLimiter → Attempted
not_opened scope now none attempts =
    (ok (no_valid_entry, no_effects), record_failure attempts scope now)
not_opened scope now (some mode) attempts = (
  ok (no_valid_entry, record no_effects { destroyed = mode ∷ [] }),
  record_success attempts scope,
)

abbrev after_modes : Services → String → ℕ → Outcome → AttemptLimiter → Attempted
after_modes services scope now none_opened attempts =
    not_opened scope now (destroyed_by_password services) attempts
after_modes services scope now failed attempts = (err retrieval, attempts)
after_modes services scope now (ended mode) attempts =
    (ok (no_valid_entry, record no_effects { cleared = mode ∷ [] }), record_success attempts scope)
after_modes services scope now (opened mode payload) attempts =
    let purged = maybe_auto_purge services mode in
    (
      ok (
        file payload purged,
        record no_effects { purged = if purged then other_mode mode ∷ [] else [] },
      ),
      record_success attempts scope,
    )

-- The clock is read by the check of the attempts and, where one is counted, for the failure.
unfoldable pub attempt : ℕ → ℕ → Services → Request → AttemptLimiter → Attempted
attempt now later services r attempts =
    let (decision, checked) = check attempts (scope_of r) (now / second) in
    if not decision.allowed
    then (ok (unavailable, no_effects), checked)
    else if str_eq services.auth_token "none"
    then (ok (no_valid_entry, no_effects), record_failure checked (scope_of r) (later / second))
    else after_modes services (scope_of r) (later / second) (try_modes services modes) checked

abbrev limited :
    ℕ
    → ℕ
    → Services
    → Request
    → AttemptLimiter
    → Result Exception (Unit {0}) × Web
    → Attempted × Web
limited now later services r attempts (err e, after) = ((err (web e), attempts), after)
limited now later services r attempts (ok u, after) = (attempt now later services r attempts, after)

unfoldable pub retrieve_route :
    ℕ → ℕ → ℕ → Services → Request → AttemptLimiter → Web → Attempted × Web
retrieve_route t₁ t₂ t₃ services r attempts before =
    limited t₂ t₃ services r attempts (enforce_rate_limit t₁ r before)
