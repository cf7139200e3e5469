-- ===== src/AccessTokens/Bootstrap.antt =====
-- The unlock page (web_server.py) with the stored tokens (services/access_token_service.py): which token
-- opens which role, before any is issued, after one is, and after it is revoked.
use phantasm.Base.{
  eq_iff, eq_refl, ℕ, ◌≡◌, refl, String, Bool, true, false, Option, none, some, [], ◌∷◌, Bytes,
  bytes_eq, str_eq, if◌then◌else◌, arith, inl, inr, Bool-cases,
}
use phantasm.Base.Dict.{Dict, lookup, insert, erase, lookup-insert}
use phantasm.Base.Except.{Result, ok, err}
use phantasm.Platform.{Platform}
use phantasm.LocalState.{Files, Secrets}
use phantasm.LocalState.RoundTrip.{files}
use phantasm.Web.{TokenService, granted_role}
use phantasm.AccessTokens.{
  Entry, AllRoles, AllIssued, Codec, Pinned, Raised, entry, is_role, role_store, role_recover, load,
  digest, issue, revoke, verify, issued_roles, env_token, is_pinned,
}
use phantasm.AccessTokens.Stored.{Holds, issue_adds, revoke_removes}

abbrev role_of : Result Raised (Option String) → Option String
role_of (ok role) = role
role_of (err e) = none

abbrev any_role : Result Raised (Dict Bytes) → Bool
any_role (ok []) = false
any_role (ok (r ∷ rs)) = true
any_role (err e) = true

abbrev pub unpinned : Pinned
unpinned = record { store_token = ""; recover_token = "" }

unpinned_free : (role : String) → is_pinned unpinned role ≡ false
unfolding env_token
unpinned_free role = elim (Bool-cases (str_eq role role_store)) [
  | inl same ↦ rw same refl
  | inr other ↦ rw other refl
]

module _ (env : Platform) (secrets : Secrets) (codec : Codec) where
  -- The service that the web server asks, at these files, where the environment fixes no token
  unfoldable pub token_service : Files → TokenService
  token_service s = record {
    verify = λ token. role_of (verify env secrets codec unpinned token s).0;
    issued_roles = any_role (issued_roles env secrets codec unpinned s).0;
  }

  opens_empty :
      (web_token token : String) (s : Files)
      → Holds env secrets codec [] s
      → str_eq token "" ≡ false
      → granted_role (token_service s) web_token token
        ≡ (if str_eq token web_token then some role_store else none)
  unfolding token_service verify issued_roles Holds env_token lookup
  opens_empty web_token token s held given = ground (arith, held, given)

  opens_issued :
      (role issued web_token token : String) (salt timestamp : Bytes) (s : Files)
      → Holds env secrets codec
          (insert role
            (entry
              (codec.b64encode salt)
              (codec.b64encode (digest env secrets codec salt issued))
              timestamp)
            [])
          s
      → is_role role ≡ true
      → str_eq token "" ≡ false
      → granted_role (token_service s) web_token token ≡ (
          if bytes_eq (digest env secrets codec salt token) (digest env secrets codec salt issued)
          then some role
          else none)
  unfolding token_service verify issued_roles Holds env_token lookup insert
  opens_issued role issued web_token token salt timestamp s held valid given =
      let salt_back = codec.b64decode-b64encode salt in
      let hash_back = codec.b64decode-b64encode (digest env secrets codec salt issued) in
      ground (
        arith,
        held,
        valid,
        given,
        salt_back,
        hash_back,
        eq_iff role role_store,
        eq_iff role role_recover,
      )

  erase-insert : (role : String) (e : Entry) → erase role (insert role e []) ≡ []
  unfolding erase insert
  erase-insert role e = ground (arith, eq_refl role)

  -- The bootstrap token opens the store role where no token is issued.
  unfoldable pub OpensBootstrap : Files → Type 0
  OpensBootstrap s =
      (web_token token : String)
      → str_eq token "" ≡ false
      → granted_role (token_service s) web_token token
        ≡ (if str_eq token web_token then some role_store else none)

  -- On a new device the bootstrap token, and nothing else that is not empty, opens the store role. Once
  -- a token is issued for a role, a token that is not empty opens that role exactly if its hash under
  -- the stored salt is that of the issued one, and the bootstrap token opens nothing by itself. Once the
  -- token is revoked, the bootstrap token opens the store role again.
  pub bootstrap_until_issued :
      (role issued ip : String) (timestamp : Bytes) (o : Option Bytes) (n : ℕ)
      → is_role role ≡ true
      → str_eq ip "" ≡ false
      → let salt = env.rng.urandom n 16 in
        OpensBootstrap (files o none n)
        × (s : Files) × (issue env secrets codec unpinned role
              (some ip)
              issued
              timestamp
              (files o none n)
            ≡ (ok issued, s))
        × ((web_token token : String)
            → str_eq token "" ≡ false
            → granted_role (token_service s) web_token token ≡ (
                if bytes_eq
                  (digest env secrets codec salt token)
                  (digest env secrets codec salt issued)
                then some role
                else none))
        × (after : Files) × (revoke env secrets codec unpinned role s ≡ (ok true, after))
        × OpensBootstrap after
  unfolding OpensBootstrap Holds load env_token lookup AllRoles AllIssued insert
  bootstrap_until_issued role issued ip timestamp o n valid given =
      let salt = env.rng.urandom n 16 in
      let e =
        entry (codec.b64encode salt) (codec.b64encode (digest env secrets codec salt issued))
          timestamp in
      let free = unpinned_free role in
      let there : lookup role (insert role e []) ≡ some e =
        ground (arith, lookup-insert role role e [], eq_refl role) in
      let (s, done, holds, refused) =
        issue_adds env secrets codec unpinned role issued ip timestamp [] o none n refl tt tt valid
          free refl given in
      let (after, revoked, left) =
        revoke_removes env secrets codec unpinned role e (insert role e []) s.state_key s.blob
          s.draws holds (valid, tt)
          (
            (
              codec.b64encode salt,
              codec.b64encode (digest env secrets codec salt issued),
              timestamp,
              refl,
            ),
            tt,
          )
          valid free there in
      (
        λ web_token token some_token. opens_empty web_token token (files o none n) refl some_token,
        s,
        done,
        λ web_token token some_token.
            opens_issued role issued web_token token salt timestamp s holds valid some_token,
        after,
        revoked,
        λ web_token token some_token.
            opens_empty web_token token after (rw (erase-insert role e) at left) some_token,
      )
