-- ===== src/VesselRegistry/Records.antt =====
-- services/vessel_service.py: the records of the registry, and the arguments of the calls that change it.
use phantasm.Base.{
  String, Bool, false, not, Option, none, some, List, [], ◌∷◌, str_eq, if◌then◌else◌,
}
use phantasm.Base.Int.{ℤ, pos}

pub data RegistryError : Type 0 where
  -- "unsupported face id"
  unsupported_face_id : String → RegistryError

pub record EmergencyAuth : Type 0 where
  pub salt_b64 : String
  pub hash_b64 : String
  pub updated_at : String
  pub kdf_n : ℤ
  pub kdf_r : ℤ
  pub kdf_p : ℤ

-- `{}`, after a load
abbrev pub no_auth : EmergencyAuth
no_auth = record {
  salt_b64 = "";
  hash_b64 = "";
  updated_at = "";
  kdf_n = pos 0;
  kdf_r = pos 0;
  kdf_p = pos 0;
}

pub record Face (Profile Binding : Type 0) : Type 0 where
  pub face_id : String
  pub label : String
  pub created_at : String
  pub last_accessed : String
  pub occupancy : ℤ
  pub file_count : ℤ
  pub status : String
  pub selector : String
  pub credentials_initialized : Bool
  pub object_binding_initialized : Bool
  pub dummy_profile : Profile
  pub object_binding : Binding
  pub emergency_auth : EmergencyAuth

pub record VesselRecord (Profile Binding : Type 0) : Type 0 where
  pub path : String
  pub label : String
  pub faces : List (Face Profile Binding)
  pub is_open : Bool
  pub open_count : ℤ
  pub last_opened_at : String
  pub last_closed_at : String
  pub active_face_id : String

-- `_default_dummy_profile_record()`, and `normalize_record({})`
pub record Defaults (Profile Binding : Type 0) : Type 0 where
  pub no_profile : Profile
  pub no_binding : Binding

-- The keyword arguments of `_update_registry_record`, but for the labels of the faces
pub record Change (Profile Binding : Type 0) : Type 0 where
  pub is_open : Option Bool
  pub increment_open_count : Bool
  pub label : Option String
  pub faces : Option (List (Face Profile Binding))
  pub active_face_id : Option String

-- The keyword arguments of `update_face_access`
pub record Access (Profile Binding : Type 0) : Type 0 where
  pub opened : Bool
  pub closed : Bool
  pub status : Option String
  pub occupancy : Option ℤ
  pub file_count : Option ℤ
  pub dummy_profile : Option Profile
  pub object_binding : Option Binding
  pub emergency_auth : Option EmergencyAuth
  pub credentials_initialized : Option Bool
  pub object_binding_initialized : Option Bool

abbrev pub Registry : Type 0 → Type 0 → Type 0
Registry Profile Binding = List (VesselRecord Profile Binding)

-- The id, the label and the selector
abbrev pub default_face_specs : List (String × String × String)
default_face_specs =
    ("face_a", "Disclosure Face 1", "a") ∷ ("face_b", "Disclosure Face 2", "b") ∷ []

-- `if x is not None: y = x`
abbrev pub given : {A : Type 0} → Option A → A → A
given none old = old
given (some new) old = new

-- `x or y` of two texts
abbrev pub or_else : String → String → String
or_else x y = if str_eq x "" then y else x

module _ {Profile Binding : Type 0} where
  abbrev pub nothing_changed : Change Profile Binding
  nothing_changed = record {
    is_open = none;
    increment_open_count = false;
    label = none;
    faces = none;
    active_face_id = none;
  }

  abbrev pub touched : Access Profile Binding
  touched = record {
    opened = false;
    closed = false;
    status = none;
    occupancy = none;
    file_count = none;
    dummy_profile = none;
    object_binding = none;
    emergency_auth = none;
    credentials_initialized = none;
    object_binding_initialized = none;
  }

  abbrev pub has_id : String → Face Profile Binding → Bool
  has_id id f = str_eq f.face_id id

  abbrev pub is_at : String → VesselRecord Profile Binding → Bool
  is_at p r = str_eq r.path p

  -- `str(record.get("face_id"))` is not ""
  abbrev pub is_named : Face Profile Binding → Bool
  is_named f = not (str_eq f.face_id "")
