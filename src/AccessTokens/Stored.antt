-- ===== src/AccessTokens/Stored.antt =====
-- What the token file holds after it is written, and after a token is issued or revoked.
use phantasm.Base.{
  eq_refl, ℕ, suc, ◌≡◌, refl, String, true, false, Option, none, some, [], ◌∷◌, Bytes, str_eq,
  arith, inl, inr, Bool-cases,
}
use phantasm.Base.Dict.{Dict, lookup, insert, erase, contains, lookup-insert}
use phantasm.Base.Except.{ok, err}
use phantasm.Platform.{Platform}
use phantasm.LocalState.{Files, Secrets, urandom, decrypt}
use phantasm.LocalState.RoundTrip.{files, encrypt_made}
use phantasm.AccessTokens as AccessTokens
use phantasm.AccessTokens.{
  Entry, AllRoles, AllIssued, Codec, Pinned, entry, token_cipher, is_role, load, load_blob, save,
  digest, validate_role, issue, revoke, verify, issued_roles, env_token, is_pinned,
  role_already_issued,
}

module _ (env : Platform) (secrets : Secrets) (codec : Codec) where
  -- The token file holds this, and reading it changes no file.
  unfoldable pub Holds : Dict Entry → Files → Type 0
  Holds d s = load env secrets codec s ≡ (ok d, s)

  load_sealed :
      (d : Dict Entry) (payload : Bytes) (s : Files)
      → codec.loads (codec.dumps d) ≡ ok (AccessTokens.object d)
      → ((short failed : String)
          → decrypt env secrets token_cipher payload short failed s ≡ (ok (codec.dumps d), s))
      → load_blob env secrets codec (some payload) s ≡ (ok d, s)
  unfolding decrypt
  load_sealed d [] s again opened = absurd (cc (opened "" ""))
  load_sealed d (c ∷ payload) s again opened = ground (
    arith,
    again,
    opened "access token store is too short" "access token store authentication failed",
  )

  pub saved :
      (d : Dict Entry) (o b : Option Bytes) (n : ℕ)
      → AllRoles d
      → AllIssued d
      → (s : Files) × (save env secrets codec d (files o b n) ≡ (ok tt, s)) × Holds d s
  unfolding save load Holds
  saved d o b n roles issued =
      let (payload, o', n', sealed, opened) =
        encrypt_made env secrets token_cipher (codec.dumps d) o b n in
      let s = files o' (some payload) n' in
      (
        s,
        ground (arith, sealed),
        load_sealed d payload s (codec.loads-dumps d roles issued)
            (λ short failed. opened short failed (some payload) n'),
      )

insert-AllRoles :
    (role : String) (e : Entry) (d : Dict Entry)
    → is_role role ≡ true
    → AllRoles d
    → AllRoles (insert role e d)
unfolding insert AllRoles
insert-AllRoles role e [] valid roles = (valid, tt)
insert-AllRoles role e ((r, x) ∷ d) valid (v, roles) = elim (Bool-cases (str_eq r role)) [
  | inl same ↦ rw same (v, roles)
  | inr other ↦ rw other (v, insert-AllRoles role e d valid roles)
]

insert-AllIssued :
    (role : String) (salt hash issued_at : Bytes) (d : Dict Entry)
    → AllIssued d
    → AllIssued (insert role (entry salt hash issued_at) d)
unfolding insert AllIssued
insert-AllIssued role salt hash issued_at [] issued = ((salt, hash, issued_at, refl), tt)
insert-AllIssued role salt hash issued_at ((r, x) ∷ d) (v, issued) =
    elim (Bool-cases (str_eq r role)) [
      | inl same ↦ rw same ((salt, hash, issued_at, refl), issued)
      | inr other ↦ rw other (v, insert-AllIssued role salt hash issued_at d issued)
    ]

erase-AllRoles : (role : String) (d : Dict Entry) → AllRoles d → AllRoles (erase role d)
unfolding erase AllRoles
erase-AllRoles role [] roles = tt
erase-AllRoles role ((r, x) ∷ d) (v, roles) = elim (Bool-cases (str_eq r role)) [
  | inl same ↦ rw same (erase-AllRoles role d roles)
  | inr other ↦ rw other (v, erase-AllRoles role d roles)
]

erase-AllIssued : (role : String) (d : Dict Entry) → AllIssued d → AllIssued (erase role d)
unfolding erase AllIssued
erase-AllIssued role [] issued = tt
erase-AllIssued role ((r, x) ∷ d) (v, issued) = elim (Bool-cases (str_eq r role)) [
  | inl same ↦ rw same (erase-AllIssued role d issued)
  | inr other ↦ rw other (v, erase-AllIssued role d issued)
]

module _ (env : Platform) (secrets : Secrets) (codec : Codec) (pinned : Pinned) where
  -- Issuing a token for a role that has none, over a gadget, gives that token, adds the hash of it
  -- under a fresh salt to what is held, and cannot be done again.
  pub issue_adds :
      (role token ip : String) (timestamp : Bytes) (d : Dict Entry) (o b : Option Bytes) (n : ℕ)
      → Holds env secrets codec d (files o b n)
      → AllRoles d
      → AllIssued d
      → is_role role ≡ true
      → is_pinned pinned role ≡ false
      → lookup role d ≡ none
      → str_eq ip "" ≡ false
      → let salt = env.rng.urandom n 16 in
        (s : Files) × (issue env secrets codec pinned role (some ip) token timestamp (files o b n)
          ≡ (ok token, s))
        × Holds env secrets codec
            (insert role
              (entry
                (codec.b64encode salt)
                (codec.b64encode (digest env secrets codec salt token))
                timestamp)
              d)
            s
        × ((again : String) (time : Bytes)
            → issue env secrets codec pinned role (some ip) again time s
              ≡ (err (role_already_issued role), s))
  unfolding issue Holds urandom validate_role contains
  issue_adds role token ip timestamp d o b n held roles issued valid free absent given =
      let salt = codec.b64encode (env.rng.urandom n 16) in
      let hash = codec.b64encode (digest env secrets codec (env.rng.urandom n 16) token) in
      let (s, done, holds) =
        saved env secrets codec (insert role (entry salt hash timestamp) d) o b (suc n)
          (insert-AllRoles role (entry salt hash timestamp) d valid roles)
          (insert-AllIssued role salt hash timestamp d issued) in
      let there = lookup-insert role role (entry salt hash timestamp) d in
      (
        s,
        ground (arith, held, valid, free, absent, given, done),
        holds,
        λ again time. ground (arith, holds, valid, free, given, there, eq_refl role),
      )

  -- Revoking the token of a role that has one removes its record and keeps the others'.
  pub revoke_removes :
      (role : String) (e : Entry) (d : Dict Entry) (o b : Option Bytes) (n : ℕ)
      → Holds env secrets codec d (files o b n)
      → AllRoles d
      → AllIssued d
      → is_role role ≡ true
      → is_pinned pinned role ≡ false
      → lookup role d ≡ some e
      → (s : Files) × (revoke env secrets codec pinned role (files o b n) ≡ (ok true, s))
        × Holds env secrets codec (erase role d) s
  unfolding revoke Holds validate_role contains
  revoke_removes role e d o b n held roles issued valid free there =
      let (s, done, holds) =
        saved env secrets codec (erase role d) o b n (erase-AllRoles role d roles)
          (erase-AllIssued role d issued) in
      (s, ground (arith, held, valid, free, there, done), holds)
