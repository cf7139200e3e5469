-- ===== src/KdfEngine.antt =====
-- kdf_engine.py: the key of a record, from the local access key, the providers' secrets and the
-- password with its context; and the access key file.
pub mod Context
pub mod Keys
mod Tests
use phantasm.Base.{
  ℕ, max, String, Bool, Option, none, some, List, [], ◌∷◌, ◌++◌, Bytes, length, codes, ◌==◌,
  if◌then◌else◌,
}
use phantasm.Base.Except.{Result, ok, err, pure, raise, lift, gets, modify, ◌>>=◌, ◌>>◌}
use phantasm.Storage.{World, Vault, Error, value_error, random}
use phantasm.Platform.{Platform}

abbrev pub access_key_size : ℕ
access_key_size = 32

-- "-".join(parts)
unfoldable pub join_dash : List Bytes → Bytes
join_dash [] = []
join_dash (part ∷ []) = part
join_dash (part ∷ (next ∷ parts)) = part ++ (codes "-" ++ join_dash (next ∷ parts))

-- f"{password}_{gesture_str}_{mode}_{password_role}"
unfoldable pub context_password : Bytes → List Bytes → String → String → Bytes
unfolding join_dash
context_password password gesture_sequence mode role =
    password
    ++ (codes "_"
        ++ (join_dash gesture_sequence ++ (codes "_" ++ (codes mode ++ (codes "_" ++ codes role)))))

-- `if secret: parts.append(secret)`, and the join of all
abbrev join_secrets : List (Option Bytes) → Bytes
join_secrets [] = []
join_secrets (none ∷ secrets) = join_secrets secrets
join_secrets (some secret ∷ secrets) = secret ++ join_secrets secrets

abbrev local_part : Option Bytes → Bytes
local_part none = []
local_part (some key) = key

module _ (env : Platform) where
  -- makedirs and chmod change no bytes that are modelled
  unfoldable pub write_new_access_key : Vault Bytes
  unfolding random
  write_new_access_key = do
    key ← random env.rng access_key_size
    modify (λ s. record s { access_key = some key })
    pure key

  checked_key : Bytes → Vault (Option Bytes)
  checked_key key =
      if length key == access_key_size
      then pure (some key)
      else raise (value_error "invalid local vault access key")

  created_key : Bool → Vault (Option Bytes)
  unfolding write_new_access_key
  created_key create =
      if create then (do key ← write_new_access_key; pure (some key)) else pure none

  unfoldable pub load_or_create_access_key : Bool → Vault (Option Bytes)
  unfolding checked_key created_key
  load_or_create_access_key create s = elim s.access_key [
    | some key ↦ checked_key key s
    | none ↦ created_key create s
  ]

  unfoldable pub kdf_secret : Bool → Vault Bytes
  unfolding load_or_create_access_key
  kdf_secret create = do
    local_key ← load_or_create_access_key create
    pure (local_part local_key ++ join_secrets env.secrets)

  unfoldable pub derive_key : Bytes → List Bytes → String → Bytes → String → Bool → Vault Bytes
  unfolding kdf_secret
  derive_key password gesture_sequence mode salt role create = do
    secret ← kdf_secret create
    pure (env.argon2id salt secret (context_password password gesture_sequence mode role))

  -- the old file is unlinked first
  unfoldable pub rotate_access_key : Vault (Unit {0})
  unfolding write_new_access_key
  rotate_access_key = do modify (λ s. record s { access_key = none }); write_new_access_key; pure tt

  -- The file is overwritten and then removed.
  destroy_key : Bytes → Vault (Unit {0})
  unfolding random
  destroy_key key = do
    noise ← random env.rng (max (length key) access_key_size)
    modify (λ s. record s { access_key = some noise })
    modify (λ s. record s { access_key = none })

  unfoldable pub destroy_access_keys : Vault (Unit {0})
  unfolding destroy_key
  destroy_access_keys s = elim s.access_key [ none ↦ (ok tt, s) | some key ↦ destroy_key key s ]
