-- ===== src/WebStore.antt =====
-- web_server.py: the entries that a file can be stored in, and the route that stores it. The k-th reading
-- of the object gate's status in a request, the capture of a reference, and the write to the vessel or the
-- vault are arguments; a capture that succeeds is noted by its mode, and so is a write when it is begun, since
-- one that raises may have changed the vessel already. The audit event is left out.
pub mod Targets
mod Tests
use phantasm.Base.{
  ℕ, ◌≡◌, String, Bool, true, false, not, ◌&&◌, ◌||◌, Option, none, some, List, [], ◌∷◌, ◌++◌,
  str_eq, if◌then◌else◌,
}
use phantasm.Base.Except.{Result, ok, err}
use phantasm.PassphrasePolicy.{Text, Message, check_store_passphrases}
use phantasm.Web.{Web, Request, Exception, enforce_rate_limit, restricted_session_valid}

-- `access_cue_service.status()`, as far as the entries are chosen by it
pub record GateStatus : Type 0 where
  pub matched_mode : Option String
  pub object_detected : Bool
  -- `registered_modes.get(mode)`
  pub registered : String → Bool

-- The keys of `ENTRY_TO_MODE`
unfoldable pub is_entry : String → Bool
is_entry entry = str_eq entry "entry_1" || str_eq entry "entry_2"

unfoldable pub entry_mode : String → String
entry_mode entry = if str_eq entry "entry_1" then "dummy" else "secret"

abbrev is_mode : String → Bool
is_mode mode = str_eq mode "dummy" || str_eq mode "secret"

unfoldable pub mode_to_entry : String → Option String
mode_to_entry mode =
    if str_eq mode "dummy"
    then some "entry_1"
    else if str_eq mode "secret"
    then some "entry_2"
    else none

-- `object_state` of `neutral_status`
unfoldable pub object_state : GateStatus → String
object_state s = elim s.matched_mode [
  | none ↦ if s.object_detected then "detected" else "none"
  | some mode ↦
      if str_eq mode "ambiguous"
      then "ambiguous"
      else if is_mode mode
      then "matched"
      else if s.object_detected
      then "detected"
      else "none"
]

unfoldable pub first_unbound_entry : GateStatus → Option String
first_unbound_entry s =
    if not (s.registered "dummy")
    then some "entry_1"
    else if not (s.registered "secret")
    then some "entry_2"
    else none

unfoldable pub matched_entry : GateStatus → Option String
matched_entry s = elim s.matched_mode [
  | none ↦ none
  | some mode ↦ if is_mode mode then mode_to_entry mode else none
]

unfoldable pub entry_needs_its_object_presented : GateStatus → String → Bool
entry_needs_its_object_presented s hint = is_entry hint && s.registered (entry_mode hint)

abbrev same_entry : Option String → String → Bool
same_entry none entry = false
same_entry (some e) entry = str_eq e entry

abbrev or_unbound : Option String → Option String → Option String × Bool
or_unbound (some entry) free = (some entry, false)
or_unbound none (some entry) = (some entry, true)
or_unbound none none = (none, false)

-- The entry, and whether its object is to be captured; the two readings of the status in their order
unfoldable pub select_entry_for_store :
    GateStatus → GateStatus → String → Bool → Option String × Bool
select_entry_for_store first second hint overwrite =
    if is_entry hint
    then (if not (first.registered (entry_mode hint))
        then (some hint, true)
        else if overwrite
        then (some hint, true)
        else if same_entry (matched_entry second) hint
        then (some hint, false)
        else (none, false))
    else or_unbound (matched_entry first) (first_unbound_entry second)

pub data Answer : Type 0 where
  error : String → Answer
  passphrase_error : Message → Answer
  overwrite_required : Answer
  -- with the entry's state
  saved : String → Answer

pub record Effects : Type 0 where
  pub captures : List String
  -- the modes whose write was begun, whether it returned or raised; to look for the vessel counts to it
  pub writes : List String

pub record Form : Type 0 where
  pub password : Text
  pub secondary_passphrase : Text
  pub restricted_recovery_password : Text
  pub entry_hint : String
  pub overwrite : Bool
  pub overwrite_confirmation : String

-- What the request meets
pub record Services : Type 0 where
  pub status : ℕ → GateStatus
  -- `none` for a success, or the message of a failure
  pub capture_reference : String → Option String
  -- does the write of a mode return? An exception of it is caught
  pub writes_to : String → Bool
  pub passphrase_min_length : ℕ

abbrev or_other : Text → Text → Text
or_other [] other = other
or_other (c ∷ cs) other = c ∷ cs

abbrev actionable : String → Bool
actionable message =
    str_eq message "Capture the empty scene first, with the object out of frame."
    || str_eq message "Too much of the view changed. Keep the camera still and only add the object."
    || str_eq message
        "Object does not stand out from the scene behind it. Fill more of the frame, or use a plainer background."
    || str_eq message
        "Rejected: the cue still matches the empty scene, so the background would open it without the object. Re-capture."
    || str_eq message "No frame."

-- `none` for a success, or the message that is shown
unfoldable pub capture_entry_binding : Services → String → Option String
capture_entry_binding services mode = elim (services.capture_reference mode) [
  | none ↦ none
  | some message ↦
      some (if actionable message then message else "Object binding failed. Retry capture.")
]

abbrev entry_state : Bool → Bool → String
entry_state overwrite needs_capture =
    if overwrite then "replaced" else if needs_capture then "created" else "updated"

abbrev write_entry : Services → Form → String → Bool → Effects → Answer × Effects
write_entry services form mode needs_capture effects = (
  if services.writes_to mode
      then saved (entry_state form.overwrite needs_capture)
      else error "Store operation failed.",
  record effects { writes = effects.writes ++ (mode ∷ []) },
)

abbrev captured : Services → Form → String → Bool → Option String → Effects → Answer × Effects
captured services form mode needs_capture (some message) effects = (error message, effects)
captured services form mode needs_capture none effects =
    write_entry services form mode needs_capture
      (record effects { captures = effects.captures ++ (mode ∷ []) })

abbrev to_entry : Services → Form → Option String × Bool → Effects → Answer × Effects
to_entry services form (none, needs_capture) effects = (
  if entry_needs_its_object_presented (services.status 2) form.entry_hint
      then error
          "That entry is already set up. Hold its access object in front of the camera until it matches, then save again."
      else overwrite_required,
  effects,
)
to_entry services form (some entry, needs_capture) effects =
    if needs_capture || form.overwrite
    then captured services form (entry_mode entry) needs_capture
        (capture_entry_binding services (entry_mode entry)) effects
    else write_entry services form (entry_mode entry) needs_capture effects

abbrev no_effects : Effects
no_effects = record { captures = []; writes = [] }

-- An `overwrite` looks for the restricted session, at `now`, and drops it if it is over.
abbrev confirmed : ℕ → Request → Form → Web → Option Answer × Web
confirmed now r form web =
    if not form.overwrite
    then (none, web)
    else if not (str_eq form.overwrite_confirmation "REPLACE LOCAL ENTRY")
    then (some (error "Replacement confirmation required."), web)
    else (let (valid, after) = restricted_session_valid now r web in
        (
          if valid
              then none
              else some (
                  error
                    "Restricted confirmation required. Please confirm local control and retry."),
          after,
        ))

abbrev store_confirmed : Services → Form → Option Answer × Web → (Answer × Effects) × Web
store_confirmed services form (some answer, web) = ((answer, no_effects), web)
store_confirmed services form (none, web) = (
  to_entry services form
      (select_entry_for_store (services.status 0) (services.status 1) form.entry_hint
        form.overwrite)
      no_effects,
  web,
)

abbrev store_checked : ℕ → Services → Request → Form → Web → (Answer × Effects) × Web
store_checked now services r form web = elim form.password [
  | [] ↦ ((error "Access password must not be empty.", no_effects), web)
  | c ∷ cs ↦
      let check =
        check_store_passphrases services.passphrase_min_length form.password
          (or_other form.secondary_passphrase form.restricted_recovery_password) in
      if not check.ok
      then ((passphrase_error check.message, no_effects), web)
      else store_confirmed services form (confirmed now r form web)
]

abbrev limited :
    ℕ
    → Services
    → Request
    → Form
    → Result Exception (Unit {0}) × Web
    → Result Exception (Answer × Effects) × Web
limited now services r form (err e, web) = (err e, web)
limited now services r form (ok u, web) =
    let (answer, after) = store_checked now services r form web in (ok answer, after)

-- The clock is read by the rate limit and for the restricted session.
unfoldable pub store_route :
    ℕ → ℕ → Services → Request → Form → Web → Result Exception (Answer × Effects) × Web
store_route t₁ t₂ services r form web = limited t₂ services r form (enforce_rate_limit t₁ r web)
