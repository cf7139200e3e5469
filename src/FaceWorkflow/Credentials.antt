-- ===== src/FaceWorkflow/Credentials.antt =====
-- services/vessel_workflow_service.py: the faces of the registry as the workflows read and touch them, and the destroy
-- passphrase of a face.
use phantasm.Base.{
  String, Bool, true, false, not, ◌||◌, Option, none, some, Bytes, length, bytes_eq, str_eq,
  if◌then◌else◌,
}
use phantasm.Base.Dict.{lookup}
use phantasm.Base.Int.{pos}
use phantasm.Base.Except.{Result, ok, err, Method, raise}
use phantasm.Storage.{World, Vault, Error}
use phantasm.VesselRegistry.{
  Face, VesselRecord, EmergencyAuth, Access, Registry, RegistryError, touched, update_face_access,
  get_face_state_record, unsupported_face_id,
}
use phantasm.FaceNamespace.{Raised, value_error}
use phantasm.FaceWorkflow.Inputs.{
  Failure, Setting, Drive, entry_to_mode, face_aliases, selector_or, recorded_kdf_value,
  scrypt_destroy_n, scrypt_destroy_r, scrypt_destroy_p, scrypt_destroy_key_length,
  scrypt_destroy_legacy_n, scrypt_destroy_legacy_r, scrypt_destroy_legacy_p, raised, from_vault,
}

module _ {Json Profile Binding Candidate : Type 0}
    (s : Setting Json Profile Binding Candidate) where
  abbrev pub Workflow : Type 0 → Type 0
  Workflow A = Method (Drive Profile Binding) Failure A

  abbrev pub fail : {A : Type 0} → Raised → Workflow A
  fail e = raise (raised e)

  abbrev pub looked_up : String → Option String → Result Failure String
  looked_up message none = err (raised (value_error message))
  looked_up message (some v) = ok v

  unfoldable pub resolve_mode : Option String → Result Failure String
  resolve_mode selector =
      looked_up "unsupported disclosure face selector"
        (lookup (s.services.normal (selector_or "a" selector)) entry_to_mode)

  unfoldable pub resolve_face_id : Option String → Result Failure String
  resolve_face_id selector =
      looked_up "unsupported face selector"
        (lookup (s.services.normal (selector_or "face_a" selector)) face_aliases)

  -- A call of the vault, of the registry
  abbrev pub vault_result :
      {A : Type 0}
      → Drive Profile Binding
      → Result Error A × World
      → Result Failure A × Drive Profile Binding
  vault_result d (ok a, w) = (ok a, record d { world = w })
  vault_result d (err e, w) = (err (from_vault e), record d { world = w })

  abbrev pub on_vault : {A : Type 0} → Vault A → Workflow A
  on_vault m d = vault_result d (m d.world)

  abbrev pub registry_failure : RegistryError → Failure
  registry_failure (unsupported_face_id id) = raised (value_error "unsupported face id")

  abbrev pub registry_result :
      {A : Type 0}
      → Drive Profile Binding
      → Result RegistryError A × Registry Profile Binding
      → Result Failure A × Drive Profile Binding
  registry_result d (ok a, r) = (ok a, record d { registry = r })
  registry_result d (err e, r) = (err (registry_failure e), record d { registry = r })

  abbrev pub on_registry :
      {A : Type 0} → Method (Registry Profile Binding) RegistryError A → Workflow A
  on_registry m d = registry_result d (m d.registry)

  abbrev pub touch_face :
      String → String → Access Profile Binding → Workflow (VesselRecord Profile Binding)
  touch_face path id a = on_registry (update_face_access s.defaults s.services.utc_now path id a)

  unfoldable pub binding_registered : Option Binding → Bool
  binding_registered none = false
  binding_registered (some b) = not (str_eq (s.services.source_type b) "")

  abbrev pub binding_of : Option (Face Profile Binding) → Option Binding
  binding_of none = none
  binding_of (some f) = some f.object_binding

  unfoldable pub get_face_binding_record : String → String → Drive Profile Binding → Option Binding
  get_face_binding_record path id d = binding_of (get_face_state_record path id d.registry)

  unfoldable pub credentials_initialized : String → String → Drive Profile Binding → Bool
  credentials_initialized path id d = elim (get_face_state_record path id d.registry) [
    | none ↦ false
    | some f ↦ f.credentials_initialized
  ]

  unfoldable pub set_face_binding_record :
      String → String → Binding → Workflow (VesselRecord Profile Binding)
  set_face_binding_record path id binding =
      touch_face path id
        (record touched { object_binding = some binding; object_binding_initialized = some true })

  unfoldable pub set_face_emergency_password :
      String → String → Bytes → Workflow (VesselRecord Profile Binding)
  set_face_emergency_password path id password =
      elim (s.services.scrypt password s.services.salt scrypt_destroy_n scrypt_destroy_r
        scrypt_destroy_p scrypt_destroy_key_length) [
          | none ↦ fail (value_error "scrypt")
          | some digest ↦ touch_face path id (record touched {
            emergency_auth = some (record {
              salt_b64 = s.scalars.b64encode s.services.salt;
              hash_b64 = s.scalars.b64encode digest;
              updated_at = s.services.current_timestamp;
              kdf_n = pos scrypt_destroy_n;
              kdf_r = pos scrypt_destroy_r;
              kdf_p = pos scrypt_destroy_p;
            });
          })
        ]

  abbrev pub decoded_b64 : Option Bytes → Result Failure Bytes
  decoded_b64 none = err (raised (value_error "Incorrect padding"))
  decoded_b64 (some b) = ok b

  abbrev pub compared : Option Bytes → Bytes → Bool
  compared none expected = false
  compared (some actual) expected = bytes_eq actual expected

  -- The record of a face, `no_auth` where there is none
  unfoldable pub verify_auth : EmergencyAuth → Bytes → Result Failure Bool
  verify_auth auth password =
      if str_eq auth.salt_b64 "" || str_eq auth.hash_b64 ""
      then ok false
      else (elim (decoded_b64 (s.scalars.b64decode auth.salt_b64)) [
        | err e ↦ err e
        | ok salt ↦ elim (decoded_b64 (s.scalars.b64decode auth.hash_b64)) [
          | err e ↦ err e
          | ok expected ↦ ok (
              compared
                (s.services.scrypt password salt
                  (recorded_kdf_value auth.kdf_n scrypt_destroy_legacy_n)
                  (recorded_kdf_value auth.kdf_r scrypt_destroy_legacy_r)
                  (recorded_kdf_value auth.kdf_p scrypt_destroy_legacy_p) (length expected))
                expected)
        ]
      ])

  unfoldable pub verify_face_emergency_password : String → String → Bytes → Workflow Bool
  unfolding verify_auth
  verify_face_emergency_password path id password d =
      elim (get_face_state_record path id d.registry) [
        | none ↦ (ok false, d)
        | some f ↦ (verify_auth f.emergency_auth password, d)
      ]
