-- ===== src/Web/Sessions.antt =====
-- Who is let in, for how long, and as what.
use phantasm.Base.{
  List, [], ◌∷◌, ◌++◌, length, ℕ, ◌+◌, ◌*◌, ◌≡◌, ◌⊎◌, inl, inr, ap, ◌∙◌, String, Bool, true, false,
  ◌&&◌, Option-cases, Bool-cases, none, some, str_eq, ltb, leb, arith, eq_refl, eq_iff,
}
use phantasm.Base.Dict.{Dict, lookup, insert, lookup-insert, lookup-erase}
use phantasm.Base.Except.{Result, ok, err}
use phantasm.Web.{
  in_window, or_empty, bucket_key, rate_limit_max, second, Request, UiSession, Web, Config,
  Exception, http_exception, client_id, enforce_rate_limit, ui_unlock_required, ui_unlocked,
  ui_session_role, restricted_session_valid, create_ui_session, TokenService, Unlocking,
  unavailable, rejected, unlocked, granted_role, unlock_submit, lock_session,
}

-- A session on the word of the access token service, for the client of the request
abbrev pub session_of : Config → ℕ → Request → String → UiSession
session_of config now r role = record {
  client_id = client_id r;
  expires_at = now + config.ui_session_ttl_seconds * second;
  role = role;
}

-- Is the answer a session?
abbrev pub is_session : Result Exception Unlocking → Bool
is_session (ok (unlocked s)) = true
is_session (ok unavailable) = false
is_session (ok rejected) = false
is_session (err e) = false

abbrev limited : Dict (List ℕ) → Web → Web
limited buckets web = record web { rate_limit = buckets }

enforce-cases :
    (now : ℕ) (r : Request) (web : Web)
    → (enforce_rate_limit now r web ≡ (err (http_exception 429), web))
      ⊎ ((buckets : Dict (List ℕ)) × (enforce_rate_limit now r web ≡ (ok tt, limited buckets web)))
unfolding enforce_rate_limit
enforce-cases now r web =
    let kept = in_window now (or_empty (lookup (bucket_key r) web.rate_limit)) in
    elim (Bool-cases (leb rate_limit_max (length kept))) [
      | inl full ↦ inl (ground (arith, full))
      | inr space ↦
          inr (insert (bucket_key r) (kept ++ (now ∷ [])) web.rate_limit, ground (arith, space))
    ]

module _ (config : Config) (service : TokenService) (web_token : String) (t₁ t₂ t₃ t₄ : ℕ)
    (fresh : String) (r : Request) (token : String) where
  without_role :
      (web : Web)
      → granted_role service web_token token ≡ none
      → let after = unlock_submit config service web_token t₁ t₂ t₃ t₄ fresh r token web in
        (after.1.ui_sessions ≡ web.ui_sessions) × (is_session after.0 ≡ false)
  unfolding unlock_submit
  without_role web none_granted = elim (enforce-cases t₁ r web) [
    | inl full ↦ ground (arith, full)
    | inr (buckets, passed) ↦ ground (arith, passed, none_granted)
  ]

  with_role :
      (web : Web) (role : String)
      → granted_role service web_token token ≡ some role
      → let after = unlock_submit config service web_token t₁ t₂ t₃ t₄ fresh r token web in
        (after.1.ui_sessions ≡ web.ui_sessions)
        ⊎ ((after.0 ≡ ok (unlocked fresh))
            × (after.1.ui_sessions ≡ insert fresh (session_of config t₄ r role) web.ui_sessions))
  unfolding unlock_submit create_ui_session
  with_role web role granted = elim (enforce-cases t₁ r web) [
    | inl full ↦ ground (arith, full)
    | inr (buckets, passed) ↦ ground (arith, passed, granted)
  ]

-- `/unlock` changes no session but the one it makes, and it makes one only for a token that has a
-- role: what a session's token finds afterwards is what it found before, or it is the fresh token,
-- the access token service gave the role or the shared token did while no role token was issued,
-- and the session is bound to the client and ends after the configured time.
pub unlock_submit_sessions :
    (config : Config) (service : TokenService) (web_token : String) (t₁ t₂ t₃ t₄ : ℕ)
    (fresh : String) (r : Request) (token k : String) (web : Web)
    → let after = unlock_submit config service web_token t₁ t₂ t₃ t₄ fresh r token web in
      (lookup k after.1.ui_sessions ≡ lookup k web.ui_sessions)
      ⊎ ((k ≡ fresh)
          × (after.0 ≡ ok (unlocked fresh))
          × ((role : String) × (granted_role service web_token token ≡ some role)
              × (lookup k after.1.ui_sessions ≡ some (session_of config t₄ r role))))
unlock_submit_sessions config service web_token t₁ t₂ t₃ t₄ fresh r token k web =
    elim (Option-cases (granted_role service web_token token)) [
      | inl none_granted ↦ inl (
          ap (lookup k)
            (without_role config service web_token t₁ t₂ t₃ t₄ fresh r token web none_granted).0)
      | inr (role, granted) ↦
          elim (with_role config service web_token t₁ t₂ t₃ t₄ fresh r token web role granted) [
            | inl same ↦ inl (ap (lookup k) same)
            | inr (opened, sessions) ↦ elim (Bool-cases (str_eq fresh k)) [
              | inl is_fresh ↦ inr (
                ground (arith, is_fresh, eq_iff fresh k),
                opened,
                (
                  role,
                  granted,
                  ap (lookup k) sessions
                      ∙ ground (
                        arith,
                        is_fresh,
                        lookup-insert fresh k (session_of config t₄ r role) web.ui_sessions,
                      ),
                ),
              )
              | inr is_other ↦ inl (
                  ap (lookup k) sessions
                  ∙ ground (
                    arith,
                    is_other,
                    lookup-insert fresh k (session_of config t₄ r role) web.ui_sessions,
                  ))
            ]
          ]
    ]

-- Once a role token is issued, the shared token opens no session: if the service does not know the
-- token, no session is changed, whatever the token is, and the answer is not a session.
pub shared_token_spent :
    (config : Config) (service : TokenService) (web_token : String) (t₁ t₂ t₃ t₄ : ℕ)
    (fresh : String) (r : Request) (token : String) (web : Web)
    → service.issued_roles ≡ true
    → service.verify token ≡ none
    → let after = unlock_submit config service web_token t₁ t₂ t₃ t₄ fresh r token web in
      (after.1.ui_sessions ≡ web.ui_sessions) × (is_session after.0 ≡ false)
shared_token_spent config service web_token t₁ t₂ t₃ t₄ fresh r token web issued unknown =
    without_role config service web_token t₁ t₂ t₃ t₄ fresh r token web
      (ground (arith, issued, unknown))

-- A remote request that carries the token of a session is let in exactly if it comes from the
-- session's client and the session is not over.
pub ui_unlocked_iff :
    (now : ℕ) (r : Request) (session : UiSession) (web : Web)
    → ui_unlock_required r ≡ true
    → str_eq r.ui_session_token "" ≡ false
    → lookup r.ui_session_token web.ui_sessions ≡ some session
    → (ui_unlocked now r web).0
      ≡ (str_eq session.client_id (client_id r) && ltb now session.expires_at)
unfolding ui_unlocked
ui_unlocked_iff now r session web remote cookie found = ground (arith, remote, cookie, found)

-- After `/lock`, if the rate limit let it through, a remote request with the same tokens is not let
-- in at any time, has the role of the smaller surface, and has no restricted confirmation.
pub lock_session_locks :
    (t now : ℕ) (r : Request) (web : Web)
    → ui_unlock_required r ≡ true
    → (lock_session t r web).0 ≡ ok tt
    → ((ui_unlocked now r (lock_session t r web).1).0 ≡ false)
      × (ui_session_role r (lock_session t r web).1 ≡ "recover")
      × ((restricted_session_valid now r (lock_session t r web).1).0 ≡ false)
unfolding lock_session ui_unlocked ui_session_role restricted_session_valid
lock_session_locks t now r web remote done = elim (enforce-cases t r web) [
  | inl full ↦ ground (arith, full, done)
  | inr (buckets, passed) ↦ ground (
    arith,
    passed,
    remote,
    lookup-erase r.ui_session_token r.ui_session_token web.ui_sessions,
    lookup-erase r.restricted_session_token r.restricted_session_token web.restricted_sessions,
    eq_refl r.ui_session_token,
    eq_refl r.restricted_session_token,
  )
]
