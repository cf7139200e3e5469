-- ===== src/FaceWorkflow.antt =====
-- services/vessel_workflow_service.py: what the workflows on the faces of one vessel share: the names of the
-- faces, the object that a face is bound to, the destroy passphrase, and the namespace in the slot of a face.
-- Paths are resolved already. The camera, the clock and the counter of attempts are read once in a call and are
-- fields of the setting, and so is what the object matcher says.
mod Inputs
mod Credentials
mod Binding
pub mod Files
pub mod Destroy
pub mod Passphrase
pub mod Stored
pub mod RoundTrip
pub mod Camera
pub mod Filler
pub mod Lifecycle
mod Tests
unfoldable pub use Inputs.*
unfoldable pub use Credentials.*
unfoldable pub use Binding.*
use phantasm.Base.{
  ℕ, ◌≡◌, ◌⊎◌, inl, inr, String, Bool, true, false, not, ◌&&◌, ◌||◌, Option, none, some, List, [],
  ◌∷◌, Bytes, length, map, codes, bytes_eq, str_eq, ltb, if◌then◌else◌,
}
use phantasm.Base.Dict.{Dict, lookup}
use phantasm.Base.Int.{ℤ, pos, negsuc, ◌+ℤ◌}
use phantasm.Base.Except.{
  Result, ok, err, Method, pure, raise, gets, modify, lift, require, ◌>>=◌, ◌>>◌,
}
use phantasm.Storage.{World, Vault, Error}
use phantasm.Storage
use phantasm.Container.{ContainerLayout}
use phantasm.Platform.{Platform}
use phantasm.Vault.{Retrieved, store, store_open_only, retrieve_open_only}
use phantasm.RegistrySeal.{Values, Codec}
use phantasm.VesselRegistry.{
  Face, VesselRecord, Defaults, EmergencyAuth, Access, Registry, RegistryError, touched,
  update_face_access, get_face_state_record, unsupported_face_id,
}
use phantasm.FaceNamespace.{
  Raised, value_error, file_not_found, permission_error, type_error, runtime_error, Scalars,
  FaceFileRecord, empty_namespace, decode_namespace, encode_namespace, namespace_file_records,
}

module _ {Json Profile Binding Candidate : Type 0}
    (s : Setting Json Profile Binding Candidate) where
  abbrev name_of : Bytes → Option String
  name_of filename = some (s.services.text_of filename)

  abbrev read_result : Bool → Retrieved → Result Failure (Dict Json)
  read_result initialized (some (payload, filename)) =
      ok (decode_namespace s.values s.scalars s.codec payload (name_of filename))
  read_result false none = ok (empty_namespace s.values s.scalars)
  read_result true none = err (raised (value_error "password mismatch"))

  unfoldable pub read_face_namespace :
      String → Bytes → Option String → List Bytes → Workflow s (Dict Json)
  read_face_namespace path open_passphrase selector cues = do
    mode ← lift (resolve_mode s selector)
    id ← lift (resolve_face_id s selector)
    found ← on_vault s (retrieve_open_only s.platform s.layout open_passphrase cues mode)
    initialized ← gets (credentials_initialized s path id)
    lift (read_result initialized found)

  abbrev raised_of : {A : Type 0} → Result Raised A → Result Failure A
  raised_of (ok a) = ok a
  raised_of (err e) = err (raised e)

  abbrev pub lifted : {A : Type 0} → Result Raised A → Workflow s A
  lifted r = lift (raised_of r)

  abbrev pub total_size : List FaceFileRecord → ℤ
  total_size [] = pos 0
  total_size (r ∷ rs) = r.size +ℤ total_size rs

  abbrev pub file_count : List FaceFileRecord → ℤ
  file_count rs = pos (length rs)

  abbrev write_slots :
      Bytes → Option Bytes → Bytes → List Bytes → String → String → Vault (Unit {0})
  write_slots open_passphrase none encoded cues filename mode =
      store_open_only s.platform s.layout open_passphrase encoded cues (some (codes filename)) mode
  write_slots open_passphrase (some restricted) encoded cues filename mode =
      store s.platform s.layout open_passphrase encoded cues (some (codes filename)) mode
        (some restricted)

  unfoldable pub write_face_namespace :
      String
      → Bytes
      → Option Bytes
      → Option String
      → List Bytes
      → Dict Json
      → Workflow s (Registered s)
  write_face_namespace path open_passphrase restricted selector cues namespace = do
    mode ← lift (resolve_mode s selector)
    let (encoded, filename) = encode_namespace s.values s.scalars s.codec namespace
    on_vault s (write_slots open_passphrase restricted encoded cues filename mode)
    files ← lifted (namespace_file_records s.values s.scalars namespace)
    id ← lift (resolve_face_id s selector)
    touch_face s path id (record touched {
      occupancy = some (total_size files);
      file_count = some (file_count files);
      dummy_profile = some (s.build_dummy_profile namespace);
    })
