-- ===== src/Roles.antt =====
-- roles.py: `RoleStore`, the encrypted file of the supervisor's passphrase hash that the dual approval
-- gate asks. Whether the file system lets the role file be written, and removed, are arguments of the
-- methods that do so; a file that is there can be read.
pub mod Supervisor
pub mod Signing
mod Tests
use phantasm.Base.{
  ℕ, ◌≡◌, String, Bool, true, false, Option, none, some, [], ◌∷◌, Bytes, max, codes, bytes_eq,
  length, leb, if◌then◌else◌,
}
use phantasm.Base.Dict.{Dict, lookup}
use phantasm.Base.Except.{Result, ok, err, Method, pure, lift, ◌>>=◌}
use phantasm.Storage.{
  Error, os_error, value_error, json_decode_error, unicode_decode_error, key_error, type_error,
}
use phantasm.Platform.{Platform}
use phantasm.LocalState.{Files, State, Secrets, LocalStateCipher, urandom, encrypt, decrypt}

pub data Role : Type 0 where
  operator : Role
  supervisor : Role

pub record RoleVerificationResult : Type 0 where
  pub verified : Bool
  pub role : Option Role
  pub reason : String

-- The parsed role file, as far as the code looks at it. The texts of the entry are what `str`
-- gives, as their UTF-8 bytes.
pub data Payload : Type 0 where
  not_object : Payload
  no_supervisor : Payload
  supervisor_no_dict : Payload
  supervisor_entry : Dict Bytes → Payload

abbrev pub entry : Bytes → Bytes → Payload
entry salt hash = supervisor_entry (("salt", salt) ∷ ("hash", hash) ∷ [])

-- hashlib, the texts of bytes, and the JSON codec
pub record Codec : Type 0 where
  pub pbkdf2_hmac : String → Bytes → Bytes → ℕ → ℕ → Bytes
  pub utf8 : String → Bytes
  pub hex : Bytes → Bytes
  -- `none` where it raises ValueError
  pub fromhex : Bytes → Option Bytes
  pub fromhex-hex : (b : Bytes) → fromhex (hex b) ≡ some b
  -- of the whole document, with its schema 1
  pub dumps : Payload → Bytes
  pub loads : Bytes → Result Error Payload
  pub loads-dumps : (salt hash : Bytes) → loads (dumps (entry salt hash)) ≡ ok (entry salt hash)

abbrev pub role_cipher : LocalStateCipher
role_cipher = record {
  aad = codes "phasmid-role-store:v1";
  local_key_suffix = some (codes ":roles");
}

abbrev pub refusal : Option Role → String → RoleVerificationResult
refusal role reason = record { verified = false; role = role; reason = reason }

-- What `verify_supervisor` catches of the reading
abbrev caught : Error → Bool
caught os_error = true
caught (value_error message) = true
caught json_decode_error = true
caught unicode_decode_error = true
caught key_error = true
caught _ = false

unfoldable pub is_configured : Files → Bool
is_configured s = elim s.blob [ none ↦ false | some _ ↦ true ]

module _ (env : Platform) (secrets : Secrets) (codec : Codec) where
  unfoldable pub hash : String → Bytes → Bytes
  hash passphrase salt = codec.pbkdf2_hmac "sha256" (codec.utf8 passphrase) salt 100000 32

  abbrev supervisor_of : Payload → Result Error (Dict Bytes)
  supervisor_of not_object = err type_error
  supervisor_of no_supervisor = err key_error
  supervisor_of supervisor_no_dict = err (value_error "role state supervisor entry is not a dict")
  supervisor_of (supervisor_entry fields) = ok fields

  abbrev parsed : Result Error Payload → Result Error (Dict Bytes)
  parsed (err e) = err e
  parsed (ok payload) = supervisor_of payload

  unfoldable pub read_supervisor : Bytes → State (Dict Bytes)
  read_supervisor contents =
      decrypt env secrets role_cipher contents "role state is too short"
        "role state authentication failed"
      >>= λ plaintext. lift (parsed (codec.loads plaintext))

  abbrev bytes_at : Option Bytes → Result Error Bytes
  bytes_at none = err key_error
  bytes_at (some digits) = elim (codec.fromhex digits) [
    | none ↦ err (value_error "fromhex")
    | some b ↦ ok b
  ]

  -- The two fields are read outside of the `try`.
  abbrev compare : String → Dict Bytes → State RoleVerificationResult
  compare passphrase stored = lift (bytes_at (lookup "salt" stored)) >>= λ salt.
      lift (bytes_at (lookup "hash" stored)) >>= λ expected. pure (
        if bytes_eq (hash passphrase salt) expected
        then record { verified = true; role = some supervisor; reason = "verified" }
        else refusal (some supervisor) "wrong_passphrase")

  abbrev judge : String → Result Error (Dict Bytes) → State RoleVerificationResult
  judge passphrase (ok stored) s = compare passphrase stored s
  judge passphrase (err e) s = (if caught e then ok (refusal none "store_error") else err e, s)

  abbrev checked :
      String → Result Error (Dict Bytes) × Files → Result Error RoleVerificationResult × Files
  checked passphrase (r, s) = judge passphrase r s

  unfoldable pub verify_supervisor : String → State RoleVerificationResult
  verify_supervisor passphrase s = elim s.blob [
    | none ↦ (ok (refusal none "not_configured"), s)
    | some contents ↦ checked passphrase (read_supervisor contents s)
  ]

  abbrev written : Bool → Bytes → State (Bool × String)
  written false encrypted s = (ok (false, "Store operation failed."), s)
  written true encrypted s =
      (ok (true, "Supervisor passphrase configured."), record s { blob = some encrypted })

  -- The new file takes the place of the old one only when it is whole.
  unfoldable pub configure_supervisor : Bool → String → State (Bool × String)
  configure_supervisor writable passphrase =
      if leb (length (codec.utf8 passphrase)) 0
      then pure (false, "Supervisor passphrase is not configured.")
      else (urandom env secrets 32 >>= λ salt.
          encrypt env secrets role_cipher
            (codec.dumps (entry (codec.hex salt) (codec.hex (hash passphrase salt))))
          >>= λ encrypted. written writable encrypted)

  abbrev overwritten : Bool → Result Error Bytes × Files → Result Error (Bool × String) × Files
  overwritten removable (err e, s) = (err e, s)
  overwritten true (ok noise, s) =
      (ok (true, "Supervisor passphrase cleared."), record s { blob = none })
  overwritten false (ok noise, s) =
      (ok (false, "Failed to clear supervisor passphrase."), record s { blob = some noise })

  -- Overwritten by random bytes, at least 512 of them, and removed
  unfoldable pub clear : Bool → Bool → State (Bool × String)
  clear writable removable s = elim s.blob [
    | none ↦ (ok (true, "Supervisor passphrase cleared."), s)
    | some contents ↦
        if writable
        then overwritten removable (urandom env secrets (max (length contents) 512) s)
        else (ok (false, "Failed to clear supervisor passphrase."), s)
  ]
