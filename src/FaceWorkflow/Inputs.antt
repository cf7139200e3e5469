-- ===== src/FaceWorkflow/Inputs.antt =====
-- services/vessel_workflow_service.py: what the workflows are given, the names of the faces, and what a call can raise.
use phantasm.Base.{
  ℕ, String, Bool, true, false, Option, none, some, List, [], ◌∷◌, Bytes, str_eq, ltb,
  if◌then◌else◌,
}
use phantasm.Base.Dict.{Dict}
use phantasm.Base.Int.{ℤ, pos, negsuc}
use phantasm.Base.Except.{Result}
use phantasm.Storage.{World, Vault, Error}
use phantasm.Storage
use phantasm.Container.{ContainerLayout}
use phantasm.Platform.{Platform}
use phantasm.RegistrySeal.{Values, Codec}
use phantasm.VesselRegistry.{Defaults, Registry}
use phantasm.FaceNamespace.{Raised, value_error, Scalars}

-- What a call raises: one of its own exceptions, or one of the vault
pub data Failure : Type 0 where
  raised : Raised → Failure
  from_vault : Error → Failure

-- `except ValueError`
unfoldable pub is_value_error : Failure → Bool
is_value_error (raised (value_error message)) = true
is_value_error (from_vault (Storage.value_error message)) = true
is_value_error (from_vault Storage.json_decode_error) = true
is_value_error (from_vault Storage.unicode_decode_error) = true
is_value_error _ = false

-- The object that is presented with a call
pub record Presented : Type 0 where
  pub cue_sequence : Option (List Bytes)
  pub object_image_path : Option String  -- `none` for an empty path
  pub camera_object : Bool
  pub no_object_binding : Bool

pub record Services (Profile Binding Candidate : Type 0) : Type 0 where
  -- `.strip().lower()`, and UTF-8
  pub normal : String → String
  pub text_of : Bytes → String
  -- ObjectBindingService
  pub source_type : Binding → String
  pub disabled_record : Binding
  pub to_record : Candidate → Binding
  pub profile_from_image_path : String → Result Failure Candidate
  pub matches : Binding → Candidate → Bool → Bool
  pub no_object_binding_allowed : Bool
  -- the access cue service: the profile of the camera frame, the sequences of the modes, of their default length and
  -- of one object, the object that is seen, and whether a reference is matched before the timeout
  pub capture_camera_profile : Result Failure Candidate
  pub sequence_for_mode : String → List Bytes
  pub short_sequence_for_mode : String → List Bytes
  pub auth_sequence : List Bytes
  pub match_none : Bytes
  pub reference_matched : Bool
  pub capture_reference_for_mode : String → Result Failure (Unit {0})
  -- the clocks of the registry and of the workflows, and FileAttemptLimiter.check
  pub utc_now : String
  pub current_timestamp : String
  pub attempt_allowed : Bool
  -- os.urandom(16), and hashlib.scrypt of password, salt, n, r, p and dklen: `none` for ValueError
  pub salt : Bytes
  pub scrypt : Bytes → Bytes → ℕ → ℕ → ℕ → ℕ → Option Bytes

pub record Setting (Json Profile Binding Candidate : Type 0) : Type 0 where
  pub values : Values Json
  pub scalars : Scalars values
  pub codec : Codec values
  pub platform : Platform
  pub layout : ContainerLayout
  pub defaults : Defaults Profile Binding
  pub services : Services Profile Binding Candidate
  -- `_build_dummy_profile` of a namespace
  pub build_dummy_profile : Dict Json → Profile
  -- the profile of a face without files, at a time
  pub emptied_profile : String → Profile
  -- does a path of the registry exist?
  pub path_exists : String → Bool

-- The vessel file with the machine it is on, the registry, and whether there are references of objects
pub record Drive (Profile Binding : Type 0) : Type 0 where
  pub world : World
  pub registry : Registry Profile Binding
  pub has_references : Bool

abbrev pub entry_to_mode : Dict String
entry_to_mode =
    ("a", "dummy")
    ∷ ("b", "secret")
    ∷ ("face_a", "dummy")
    ∷ ("face_b", "secret")
    ∷ ("face_1", "dummy")
    ∷ ("face_2", "secret")
    ∷ ("profile_a", "dummy")
    ∷ ("profile_b", "secret")
    ∷ ("dummy", "dummy")
    ∷ ("secret", "secret")
    ∷ []

abbrev pub face_aliases : Dict String
face_aliases =
    ("a", "face_a")
    ∷ ("b", "face_b")
    ∷ ("face_a", "face_a")
    ∷ ("face_b", "face_b")
    ∷ ("face_1", "face_a")
    ∷ ("face_2", "face_b")
    ∷ ("dummy", "face_a")
    ∷ ("secret", "face_b")
    ∷ []

-- `selector or default`
abbrev pub selector_or : String → Option String → String
selector_or default none = default
selector_or default (some s) = if str_eq s "" then default else s

-- `_recorded_kdf_value`, of a normalized record
unfoldable pub recorded_kdf_value : ℤ → ℕ → ℕ
recorded_kdf_value (pos n) fallback = if ltb 0 n then n else fallback
recorded_kdf_value (negsuc n) fallback = fallback

-- The cost of the destroy passphrase, and that of records without one
abbrev pub scrypt_destroy_n : ℕ
scrypt_destroy_n = 32768

abbrev pub scrypt_destroy_r : ℕ
scrypt_destroy_r = 8

abbrev pub scrypt_destroy_p : ℕ
scrypt_destroy_p = 1

abbrev pub scrypt_destroy_key_length : ℕ
scrypt_destroy_key_length = 32

abbrev pub scrypt_destroy_legacy_n : ℕ
scrypt_destroy_legacy_n = 16384

abbrev pub scrypt_destroy_legacy_r : ℕ
scrypt_destroy_legacy_r = 8

abbrev pub scrypt_destroy_legacy_p : ℕ
scrypt_destroy_legacy_p = 1
