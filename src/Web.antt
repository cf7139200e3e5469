-- ===== src/Web.antt =====
-- web_server.py: the sessions, the roles and the rate limit of the web interface. Times are in
-- nanoseconds; each reading of the clock in a function is an argument of it, in order. The text
-- that `secrets.token_urlsafe` gives is an argument too, and so is the access token service.
pub mod RateLimit
pub mod Sessions
mod Tests
use phantasm.Base.{
  ℕ, ◌+◌, ◌-◌, ◌*◌, ◌/◌, String, Bool, true, false, not, ◌&&◌, ◌||◌, Option, none, some, List, [],
  ◌∷◌, ◌++◌, ltb, leb, str_eq, if◌then◌else◌, length, Bytes, codes,
}
use phantasm.Base.Dict.{Dict, lookup, insert, erase}
use phantasm.Base.Except.{
  Result, ok, err, Method, pure, raise, lift, gets, require, modify, ◌>>=◌, ◌>>◌,
}
use phantasm.AttemptLimiter.{AttemptLimiter, AttemptDecision, check, record_failure, record_success}
use phantasm.Capabilities.{Capability, capability_enabled}
use phantasm.RestrictedActions.{
  Rejected, restricted_action_rejected, RestrictedActionPolicy, Evidence,
  evaluate_restricted_action, restricted_action_policies,
}

abbrev pub second : ℕ
second = 1000000000

abbrev pub rate_limit_window : ℕ
rate_limit_window = 60 * second

abbrev pub rate_limit_max : ℕ
rate_limit_max = 20

-- A role is kept as its text, as in the session.
abbrev pub role_store : String
role_store = "store"

abbrev pub role_recover : String
role_recover = "recover"

pub record Request : Type 0 where
  -- `request.client.host`
  pub client : Option String
  pub path : String
  pub ui_session_token : String
  pub restricted_session_token : String

pub record UiSession : Type 0 where
  pub client_id : String
  pub expires_at : ℕ
  pub role : String

pub record RestrictedSession : Type 0 where
  pub client_id : String
  pub expires_at : ℕ

-- The module's variables
pub record Web : Type 0 where
  pub ui_sessions : Dict UiSession
  pub restricted_sessions : Dict RestrictedSession
  pub rate_limit : Dict (List ℕ)
  pub unlock_attempts : AttemptLimiter

-- What the configuration gives
pub record Config : Type 0 where
  pub profile_name : String
  pub ui_session_ttl_seconds : ℕ
  pub restricted_session_ttl_seconds : ℕ

pub data Exception : Type 0 where
  http_exception : ℕ → Exception
  -- raised by `secrets.compare_digest`
  type_error : Exception

abbrev pub Handler : Type 0 → Type 0
Handler A = Method Web Exception A

abbrev or_unknown : Option String → String
or_unknown none = "unknown"
or_unknown (some host) = host

unfoldable pub client_id : Request → String
client_id r = or_unknown r.client

abbrev pub in_window : ℕ → List ℕ → List ℕ
in_window now [] = []
in_window now (t ∷ ts) =
    let rest = in_window now ts in if ltb now (t + rate_limit_window) then t ∷ rest else rest

abbrev pub or_empty : Option (List ℕ) → List ℕ
or_empty none = []
or_empty (some ts) = ts

abbrev pub bucket_key : Request → String
bucket_key r = Prim.Native.String.◌++◌ (client_id r) (Prim.Native.String.◌++◌ ":" r.path)

unfoldable pub enforce_rate_limit : ℕ → Request → Handler (Unit {0})
enforce_rate_limit now r web =
    let bucket = in_window now (or_empty (lookup (bucket_key r) web.rate_limit)) in
    if leb rate_limit_max (length bucket) then (err (http_exception 429), web) else (
      ok tt,
      record web { rate_limit = insert (bucket_key r) (bucket ++ (now ∷ [])) web.rate_limit },
    )

unfoldable pub create_ui_session : Config → ℕ → String → String → String → Web → Web
create_ui_session config now token client role web = record web {
  ui_sessions =
      insert token
        (record {
          client_id = client;
          expires_at = now + config.ui_session_ttl_seconds * second;
          role = role;
        })
        web.ui_sessions;
}

abbrev loopback_hosts : String → Bool
loopback_hosts host = str_eq host "127.0.0.1" || (str_eq host "::1" || str_eq host "localhost")

abbrev host_is_loopback : Option String → Bool
host_is_loopback none = loopback_hosts ""
host_is_loopback (some host) = loopback_hosts host

unfoldable pub ui_unlock_required : Request → Bool
ui_unlock_required r = not (host_is_loopback r.client)

-- The answer, and the sessions without one that is over
unfoldable pub ui_unlocked : ℕ → Request → Web → Bool × Web
ui_unlocked now r web =
    if not (ui_unlock_required r)
    then (true, web)
    else if str_eq r.ui_session_token ""
    then (false, web)
    else elim (lookup r.ui_session_token web.ui_sessions) [
      | none ↦ (false, web)
      | some session ↦
          if not (str_eq session.client_id (client_id r))
          then (false, web)
          else if leb session.expires_at now
          then (false, record web { ui_sessions = erase r.ui_session_token web.ui_sessions })
          else (true, web)
    ]

abbrev pub answered : {A : Type 0} → (Web → A × Web) → Handler A
answered f web = let (a, web') = f web in (ok a, web')

unfoldable pub require_ui_unlock : ℕ → Request → Handler (Unit {0})
require_ui_unlock now r =
    answered (ui_unlocked now r) >>= λ unlocked. require unlocked (http_exception 423)

unfoldable pub ui_session_role : Request → Web → String
ui_session_role r web =
    if not (ui_unlock_required r)
    then role_store
    else elim (lookup r.ui_session_token web.ui_sessions) [
      | none ↦ role_recover
      | some session ↦ session.role
    ]

unfoldable pub require_store_role : Request → Handler (Unit {0})
require_store_role r =
    gets (ui_session_role r) >>= λ role. require (str_eq role role_store) (http_exception 404)

unfoldable pub create_restricted_session : Config → ℕ → String → String → Web → Web
create_restricted_session config now token client web = record web {
  restricted_sessions =
      insert token
        (record {
          client_id = client;
          expires_at = now + config.restricted_session_ttl_seconds * second;
        })
        web.restricted_sessions;
}

unfoldable pub restricted_session_valid : ℕ → Request → Web → Bool × Web
restricted_session_valid now r web =
    if str_eq r.restricted_session_token ""
    then (false, web)
    else elim (lookup r.restricted_session_token web.restricted_sessions) [
      | none ↦ (false, web)
      | some session ↦
          if not (str_eq session.client_id (client_id r))
          then (false, web)
          else if leb session.expires_at now
          then (
            false,
            record web {
              restricted_sessions = erase r.restricted_session_token web.restricted_sessions;
            },
          )
          else (true, web)
    ]

-- `int` of a negative number of seconds is not above 0 either.
unfoldable pub restricted_session_seconds_remaining : ℕ → Request → Web → ℕ
restricted_session_seconds_remaining now r web =
    if str_eq r.restricted_session_token ""
    then 0
    else elim (lookup r.restricted_session_token web.restricted_sessions) [
      | none ↦ 0
      | some session ↦
          if not (str_eq session.client_id (client_id r))
          then 0
          else (session.expires_at - now) / second
    ]

unfoldable pub require_restricted_confirmation : ℕ → Request → Handler (Unit {0})
require_restricted_confirmation now r =
    answered (restricted_session_valid now r) >>= λ valid. require valid (http_exception 403)

unfoldable pub require_capability : Config → Capability → Handler (Unit {0})
require_capability config c =
    require (capability_enabled config.profile_name c) (http_exception 403)

abbrev forbidden : Result Rejected Bool → Handler (Unit {0})
forbidden (ok passed) = pure tt
forbidden (err e) = raise (http_exception 403)

-- The last two of the evidence are the defaults of the parameters, which this caller leaves out.
unfoldable pub require_restricted_action :
    Config → ℕ → RestrictedActionPolicy → Request → String → Handler (Unit {0})
require_restricted_action config now policy r confirmation =
    answered (restricted_session_valid now r) >>= λ valid. forbidden (
      evaluate_restricted_action policy (record {
        capability_allowed = capability_enabled config.profile_name policy.capability;
        restricted_confirmed = valid;
        confirmation = confirmation;
        password_reentered = true;
        object_cue_accepted = true;
      }))

-- What `/unlock` asks of the access token service
pub record TokenService : Type 0 where
  pub verify : String → Option String
  pub issued_roles : Bool

-- The answers that `/unlock` gives: the page with status 429, the redirect to itself, and the
-- redirect to the start page with the session's cookie
pub data Unlocking : Type 0 where
  unavailable : Unlocking
  rejected : Unlocking
  unlocked : String → Unlocking

abbrev pub granted_role : TokenService → String → String → Option String
granted_role service web_token token = elim (service.verify token) [
  | none ↦ if not service.issued_roles && str_eq token web_token then some role_store else none
  | some role ↦ some role
]

abbrev is_ascii : Bytes → Bool
is_ascii [] = true
is_ascii (c ∷ cs) = ltb c 128 && is_ascii cs

-- `secrets.compare_digest` takes texts of ASCII only.
abbrev cannot_compare : TokenService → String → String → Bool
cannot_compare service web_token token = elim (service.verify token) [
  | none ↦ not service.issued_roles && not (is_ascii (codes token) && is_ascii (codes web_token))
  | some role ↦ false
]

abbrev pub unlock_scope : Request → String
unlock_scope r = Prim.Native.String.◌++◌ "unlock:" (client_id r)

abbrev with_attempts : AttemptLimiter → Web → Web
with_attempts attempts web = record web { unlock_attempts = attempts }

abbrev answer_unlock : Config → ℕ → ℕ → String → Option String → Request → Web → Unlocking × Web
answer_unlock config t₁ t₂ fresh none r web = (
  rejected,
  with_attempts (record_failure web.unlock_attempts (unlock_scope r) (t₁ / second)) web,
)
answer_unlock config t₁ t₂ fresh (some role) r web = (
  unlocked fresh,
  create_ui_session config t₂ fresh (client_id r) role
      (with_attempts (record_success web.unlock_attempts (unlock_scope r)) web),
)

-- The clock is read by the rate limit, by the check of the attempts, by the record of a failure and
-- for the session.
unfoldable pub unlock_submit :
    Config → TokenService → String → ℕ → ℕ → ℕ → ℕ → String → Request → String → Handler Unlocking
unlock_submit config service web_token t₁ t₂ t₃ t₄ fresh r token =
    enforce_rate_limit t₁ r >> (λ web.
      let (decision, attempts) = check web.unlock_attempts (unlock_scope r) (t₂ / second) in
      let checked = with_attempts attempts web in
      if not decision.allowed
      then (ok unavailable, checked)
      else if cannot_compare service web_token token
      then (err type_error, checked)
      else answered (answer_unlock config t₃ t₄ fresh (granted_role service web_token token) r)
          checked)

unfoldable pub lock_session : ℕ → Request → Handler (Unit {0})
lock_session now r =
    enforce_rate_limit now r
    >> modify (λ web. record web {
      ui_sessions = erase r.ui_session_token web.ui_sessions;
      restricted_sessions = erase r.restricted_session_token web.restricted_sessions;
    })

-- The token of the new session, or none where the phrase is rejected
unfoldable pub restricted_confirm :
    Config → ℕ → ℕ → String → Request → String → Handler (Option String)
restricted_confirm config t₁ t₂ fresh r confirmation =
    enforce_rate_limit t₁ r
    >> answered (λ web.
      if not (str_eq confirmation "CONFIRM LOCAL CONTROL")
      then (none, web)
      else (some fresh, create_restricted_session config t₂ fresh (client_id r) web))
