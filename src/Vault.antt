-- ===== src/Vault.antt =====
-- vault_core.py: the vault over its container layout, record cipher and key derivation. A password
-- is its UTF-8 bytes.
pub mod Slots
pub mod RoundTrip
pub mod Effects
pub mod Blank
mod Tests
use phantasm.Base.{
  ℕ, ◌+◌, ◌-◌, ◌<◌, String, Bool, true, false, not, ◌||◌, Option, none, some, List, [], ◌∷◌, ◌++◌,
  Bytes, length, bytes_eq, ltb, ◌==◌, if◌then◌else◌,
}
use phantasm.Base.Except.{Result, ok, err, Method, pure, raise, lift, require, ◌>>=◌, ◌>>◌}
use phantasm.Storage.{
  write_at, read_at, World, Vault, Error, file_not_found, os_error, value_error, invalid_tag,
  json_decode_error, unicode_decode_error, key_error, type_error, attribute_error, struct_error,
  random,
}
use phantasm.Container.{
  ContainerLayout, Span, open_role, purge_role, require_container, get_slot_span,
}
use phantasm.Container
use phantasm.Platform.{Platform}
use phantasm.RecordCipher.{Sealed, Opened, encrypt_record, decrypt_record}
use phantasm.KdfEngine.{load_or_create_access_key, derive_key}
use phantasm.KdfEngine

abbrev pub salt_size : ℕ
salt_size = 16

abbrev pub nonce_size : ℕ
nonce_size = 12

-- `tuple[bytes | None, str | None]`
abbrev pub Retrieved : Type 0
Retrieved = Option (Bytes × Bytes)

-- data, filename and the role of the slot that opened
abbrev pub RetrievedAs : Type 0
RetrievedAs = Option (Bytes × Bytes × String)

-- a `restricted_recovery_password` that is not there, or is empty, is falsy
is_same : Bytes → Option Bytes → Bool
is_same password none = false
is_same password (some restricted) = bytes_eq restricted password

-- The exceptions that `_retrieve_slot` catches; JSONDecodeError and UnicodeDecodeError are
-- ValueErrors too, and FileNotFoundError is an OSError.
caught : Error → Bool
caught invalid_tag = true
caught (value_error _) = true
caught os_error = true
caught file_not_found = true
caught json_decode_error = true
caught unicode_decode_error = true
caught key_error = true
caught type_error = false
caught attribute_error = false
caught struct_error = false

module _ (env : Platform) (l : ContainerLayout) where
  rotate_access_key : Vault (Unit {0})
  rotate_access_key = KdfEngine.rotate_access_key env

  unfoldable pub format_container : Bool → Vault (Unit {0})
  unfolding rotate_access_key
  format_container rotate = do
    if rotate then rotate_access_key else (load_or_create_access_key env true >> pure tt)
    Container.format_container env.rng l

  -- `payload += os.urandom(padding_len)` if there is room behind the record
  pad_payload : ℕ → Bytes → Vault Bytes
  unfolding random
  pad_payload span_len payload =
      if ltb (length payload) span_len
      then (do padding ← random env.rng (span_len - length payload); pure (payload ++ padding))
      else pure payload

  -- `with open(self.path, "r+b")`
  write_container : ℕ → Bytes → Vault (Unit {0})
  write_container start payload s = elim s.container [
    | none ↦ (err file_not_found, s)
    | some file ↦ (ok tt, record s { container = some (write_at start payload file) })
  ]

  unfoldable pub write_slot :
      Bytes → Bytes → List Bytes → Option Bytes → String → String → Vault (Unit {0})
  unfolding random pad_payload write_container
  write_slot password payload gestures filename mode role = do
    (start, span_len) ← lift (get_slot_span l mode role)
    salt ← random env.rng salt_size
    key ← derive_key env password gestures mode salt role true
    sealed ← encrypt_record env l payload key mode role filename none none (some salt)
    bytes ← pad_payload span_len (sealed.salt ++ (sealed.nonce ++ sealed.ciphertext))
    write_container start bytes

  write_restricted : Bytes → List Bytes → Option Bytes → String → Option Bytes → Vault (Unit {0})
  unfolding write_slot
  write_restricted payload gestures filename mode none =
      Container.randomize_slot env.rng l mode purge_role
  write_restricted payload gestures filename mode (some []) =
      Container.randomize_slot env.rng l mode purge_role
  write_restricted payload gestures filename mode (some (c ∷ restricted)) =
      write_slot (c ∷ restricted) payload gestures filename mode purge_role

  unfoldable pub store :
      Bytes → Bytes → List Bytes → Option Bytes → String → Option Bytes → Vault (Unit {0})
  unfolding require_container is_same write_restricted
  store password payload gestures filename mode restricted = do
    require_container
    require (not (is_same password restricted))
        (value_error "open and restricted recovery passwords must be different")
    write_slot password payload gestures filename mode open_role
    write_restricted payload gestures filename mode restricted

  unfoldable pub store_open_only :
      Bytes → Bytes → List Bytes → Option Bytes → String → Vault (Unit {0})
  unfolding require_container
  store_open_only password payload gestures filename mode = do
    require_container
    write_slot password payload gestures filename mode open_role

  -- The body of the `try`.
  open_record : Bytes → List Bytes → String → String → Bytes → Bytes → Bytes → Vault Opened
  open_record password gestures mode role salt nonce ciphertext = do
    key ← derive_key env password gestures mode salt role false
    lift (decrypt_record env l ciphertext key nonce mode role)

  -- and its `except`
  recover : Result Error Opened × World → Result Error Retrieved × World
  unfolding caught
  recover (ok opened, s) = (ok (some (opened.payload, opened.filename)), s)
  recover (err e, s) = if caught e then (ok none, s) else (err e, s)

  -- `f.read` of a negative length reads on to the end of the file, and then the length differs: a
  -- span with no room for the salt and the nonce gives nothing.
  read_slot : Bytes → List Bytes → String → String → Span → Bytes → Vault Retrieved
  read_slot password gestures mode role (start, span_len) file s =
      let salt = read_at start salt_size file in
      let nonce = read_at (start + salt_size) nonce_size file in
      let ciphertext_len = span_len - salt_size - nonce_size in
      let ciphertext = read_at (start + salt_size + nonce_size) ciphertext_len file in
      if not (length salt == salt_size) || not (length nonce == nonce_size)
      then (ok none, s)
      else if ltb span_len (salt_size + nonce_size) || not (length ciphertext == ciphertext_len)
      then (ok none, s)
      else recover (open_record password gestures mode role salt nonce ciphertext s)

  pub read_container : Bytes → List Bytes → String → String → Span → Vault Retrieved
  read_container password gestures mode role span s = elim s.container [
    | none ↦ (err file_not_found, s)
    | some file ↦ read_slot password gestures mode role span file s
  ]

  unfoldable pub retrieve_slot : Bytes → List Bytes → String → String → Vault Retrieved
  retrieve_slot password gestures mode role = do
    span ← lift (get_slot_span l mode role)
    read_container password gestures mode role span

  unfoldable pub retrieve_open_only : Bytes → List Bytes → String → Vault Retrieved
  unfolding require_container
  retrieve_open_only password gestures mode = do
    require_container
    retrieve_slot password gestures mode open_role

  -- The loop over SLOT_ROLES: the first slot that opens is the answer.
  try_roles : Bytes → List Bytes → String → List String → Vault RetrievedAs
  try_roles password gestures mode [] = pure none
  try_roles password gestures mode (role ∷ roles) = do
    found ← retrieve_slot password gestures mode role
    elim found [
      | none ↦ try_roles password gestures mode roles
      | some (payload, name) ↦ pure (some (payload, name, role))
    ]

  unfoldable pub retrieve_with_policy : Bytes → List Bytes → String → Vault RetrievedAs
  unfolding require_container try_roles
  retrieve_with_policy password gestures mode = do
    require_container
    try_roles password gestures mode (open_role ∷ purge_role ∷ [])

  without_role : RetrievedAs → Retrieved
  without_role none = none
  without_role (some (payload, name, _)) = some (payload, name)

  unfoldable pub retrieve : Bytes → List Bytes → String → Vault Retrieved
  unfolding retrieve_with_policy without_role
  retrieve password gestures mode = do
    found ← retrieve_with_policy password gestures mode
    pure (without_role found)

  unfoldable pub destroy_access_keys : Vault (Unit {0})
  destroy_access_keys = KdfEngine.destroy_access_keys env

  unfoldable pub silent_brick : Vault (Unit {0})
  unfolding destroy_access_keys
  silent_brick = do destroy_access_keys; Container.silent_brick env.rng l

  unfoldable pub purge_mode : String → Vault (Unit {0})
  purge_mode mode = Container.purge_mode env.rng l mode

  unfoldable pub purge_other_mode : String → Vault (Unit {0})
  purge_other_mode accessed_mode = Container.purge_other_mode env.rng l accessed_mode
