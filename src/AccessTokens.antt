-- ===== src/AccessTokens.antt =====
-- services/access_token_service.py: the tokens of the two roles of the web interface, of which the
-- state directory keeps a salted hash. The token that `secrets.token_urlsafe` makes, the address of the
-- USB gadget and the time stamp are arguments of `issue`. The file system refuses nothing.
pub mod Stored
pub mod Bootstrap
mod Tests
use phantasm.Base.{
  ℕ, ◌≡◌, String, Bool, true, false, not, ◌&&◌, ◌||◌, Option, none, some, List, [], ◌∷◌, ◌++◌,
  Bytes, codes, bytes_eq, str_eq, ltb, if◌then◌else◌,
}
use phantasm.Base.Dict.{Dict, lookup, insert, erase, contains}
use phantasm.Base.Except.{Result, ok, err, Method, pure, raise, lift, require, modify, ◌>>=◌, ◌>>◌}
use phantasm.Storage.{Error, value_error, type_error, attribute_error}
use phantasm.Platform.{Platform}
use phantasm.LocalState.{Files, State, Secrets, LocalStateCipher, urandom, encrypt, decrypt}

abbrev pub role_store : String
role_store = "store"

abbrev pub role_recover : String
role_recover = "recover"

abbrev pub roles : List String
roles = role_store ∷ role_recover ∷ []

abbrev pub is_role : String → Bool
is_role role = str_eq role role_store || str_eq role role_recover

-- A value of the parsed file: an object of texts, as `str` gives them, in UTF-8, or anything else
pub data Entry : Type 0 where
  fields : Dict Bytes → Entry
  no_dict : Entry

pub data Document : Type 0 where
  object : Dict Entry → Document
  not_object : Document

-- Every key is a role, as in all that this class writes.
unfoldable pub AllRoles : Dict Entry → Type 0
AllRoles [] = Unit
AllRoles ((role, e) ∷ d) = (is_role role ≡ true) × AllRoles d

abbrev pub entry : Bytes → Bytes → Bytes → Entry
entry salt_b64 hash_b64 issued_at =
    fields (("salt_b64", salt_b64) ∷ ("hash_b64", hash_b64) ∷ ("issued_at", issued_at) ∷ [])

-- Every value is such an entry.
unfoldable pub AllIssued : Dict Entry → Type 0
AllIssued [] = Unit
AllIssued ((role, e) ∷ d) =
    ((salt hash issued_at : Bytes) × (e ≡ entry salt hash issued_at)) × AllIssued d

-- base64 (`none` for ValueError), UTF-8 and the JSON codec
pub record Codec : Type 0 where
  pub utf8 : String → Bytes
  pub b64encode : Bytes → Bytes
  pub b64decode : Bytes → Option Bytes
  pub b64decode-b64encode : (b : Bytes) → b64decode (b64encode b) ≡ some b
  pub dumps : Dict Entry → Bytes
  pub loads : Bytes → Result Error Document
  pub loads-dumps : (d : Dict Entry) → AllRoles d → AllIssued d → loads (dumps d) ≡ ok (object d)

-- `store_token_env()` and `recover_token_env()`, empty where the variable is not set
pub record Pinned : Type 0 where
  pub store_token : String
  pub recover_token : String

pub data Raised : Type 0 where
  raised : Error → Raised
  role_already_issued : String → Raised
  gadget_required : Raised
  env_pinned : String → Raised

abbrev pub Service : Type 0 → Type 0
Service A = Method Files Raised A

abbrev from_result : {A : Type 0} → Result Error A → Result Raised A
from_result (ok a) = ok a
from_result (err e) = err (raised e)

abbrev from_state : {A : Type 0} → State A → Service A
from_state m s = let (r, after) = m s in (from_result r, after)

abbrev pub token_cipher : LocalStateCipher
token_cipher = record {
  aad = codes "phasmid-access-tokens-v1:access_tokens.bin";
  local_key_suffix = none;
}

unfoldable pub validate_role : String → Service (Unit {0})
validate_role role = require (is_role role) (raised (value_error "unsupported access token role"))

unfoldable pub env_token : Pinned → String → String
env_token pinned role = if str_eq role role_store then pinned.store_token else pinned.recover_token

abbrev pub is_pinned : Pinned → String → Bool
is_pinned pinned role = not (str_eq (env_token pinned role) "")

abbrev is_ascii : Bytes → Bool
is_ascii [] = true
is_ascii (c ∷ s) = ltb c 128 && is_ascii s

-- `secrets.compare_digest` on texts takes ASCII only.
abbrev compare_digest : String → String → Result Raised Bool
compare_digest a b =
    if is_ascii (codes a) && is_ascii (codes b) then ok (str_eq a b) else err (raised type_error)

abbrev or_empty : Option Bytes → Bytes
or_empty none = []
or_empty (some b) = b

module _ (env : Platform) (secrets : Secrets) (codec : Codec) where
  abbrev object_of : Result Error Document → Result Error (Dict Entry)
  object_of (err e) = err e
  object_of (ok (object d)) = ok d
  object_of (ok not_object) = ok []

  abbrev load_blob : Option Bytes → State (Dict Entry)
  load_blob none = pure []
  load_blob (some []) = pure []
  load_blob (some (c ∷ payload)) =
      decrypt env secrets token_cipher (c ∷ payload) "access token store is too short"
        "access token store authentication failed"
      >>= λ plaintext. lift (object_of (codec.loads plaintext))

  unfoldable pub load : State (Dict Entry)
  load s = load_blob s.blob s

  unfoldable pub save : Dict Entry → State (Unit {0})
  save d = encrypt env secrets token_cipher (codec.dumps d) >>= λ payload.
      modify (λ s. record s { blob = some payload })

  unfoldable pub digest : Bytes → String → Bytes
  digest salt token = secrets.sha256 (salt ++ codec.utf8 token)

  module _ (pinned : Pinned) where
    unfoldable pub has_token : String → Service Bool
    has_token role =
        validate_role role
        >> (if is_pinned pinned role
            then pure true
            else from_state (load >>= λ d. pure (contains role d)))

    abbrev issued_at : Entry → Result Raised Bytes
    issued_at (fields f) = ok (or_empty (lookup "issued_at" f))
    issued_at no_dict = err (raised attribute_error)

    -- What one round of the loop of `issued_roles` adds to the result
    abbrev issued_role : Dict Entry → String → Result Raised (Dict Bytes)
    issued_role d role =
        if is_pinned pinned role then ok ((role, codes "env") ∷ []) else elim (lookup role d) [
          | none ↦ ok []
          | some e ↦ elim (issued_at e) [ ok t ↦ ok ((role, t) ∷ []) | err e ↦ err e ]
        ]

    unfoldable pub issued_roles : Service (Dict Bytes)
    issued_roles = from_state load >>= λ d. lift (issued_role d role_store) >>= λ store.
        lift (issued_role d role_recover) >>= λ recover. pure (store ++ recover)

    abbrev no_address : Option String → Bool
    no_address none = true
    no_address (some ip) = str_eq ip ""

    unfoldable pub issue : String → Option String → String → Bytes → Service String
    issue role gadget_ip token timestamp =
        validate_role role
        >> require (not (is_pinned pinned role)) (env_pinned role)
        >> require (not (no_address gadget_ip)) gadget_required
        >> (from_state load >>= λ d.
            require (not (contains role d)) (role_already_issued role)
            >> (from_state (urandom env secrets 16) >>= λ salt.
                from_state (
                  save (
                    insert role
                      (entry (codec.b64encode salt) (codec.b64encode (digest salt token)) timestamp)
                      d))
                >> pure token))

    unfoldable pub revoke : String → Service Bool
    revoke role =
        validate_role role
        >> require (not (is_pinned pinned role)) (env_pinned role)
        >> (from_state load >>= λ d.
            if contains role d then from_state (save (erase role d)) >> pure true else pure false)

    -- Whether the stored record of a role is that of the token; a record that cannot be read is not.
    abbrev matches : String → Option Entry → Bool
    matches token none = false
    matches token (some no_dict) = false
    matches token (some (fields f)) = elim (codec.b64decode (or_empty (lookup "salt_b64" f))) [
      | none ↦ false
      | some salt ↦ elim (codec.b64decode (or_empty (lookup "hash_b64" f))) [
        | none ↦ false
        | some expected ↦ bytes_eq (digest salt token) expected
      ]
    ]

    -- One round of the loop of `verify`
    abbrev is_for : Dict Entry → String → String → Result Raised Bool
    is_for d token role =
        if is_pinned pinned role
        then compare_digest token (env_token pinned role)
        else ok (matches token (lookup role d))

    unfoldable pub verify : String → Service (Option String)
    verify token =
        if str_eq token ""
        then pure none
        else (from_state load >>= λ d. lift (is_for d token role_store) >>= λ store.
            lift (is_for d token role_recover) >>= λ recover.
            pure (if recover then some role_recover else if store then some role_store else none))
