-- ===== src/FaceWorkflow/Destroy.antt =====
-- services/vessel_workflow_service.py: the calls that destroy a face, destroy a vessel, or delete a vessel that
-- is not used any more.
mod Held
mod Known
pub mod Authorized
pub mod Forgotten
use phantasm.Base.{
  ◌≡◌, String, Bool, true, false, not, ◌&&◌, ◌||◌, Option, none, some, List, [], ◌∷◌, Bytes, str_eq,
  bytes_eq, if◌then◌else◌,
}
use phantasm.Base.Int.{pos}
use phantasm.Base.Find.{filter}
use phantasm.Base.Except.{Result, ok, err, pure, gets, modify, lift, require, ◌>>=◌, ◌>>◌}
use phantasm.Vault.{purge_mode, silent_brick}
use phantasm.VesselRegistry.{VesselRecord, Registry, touched, no_auth, unregister_vessel}
use phantasm.FaceNamespace.{value_error}
use phantasm.FaceWorkflow.{
  Failure, raised, Presented, Services, Setting, Drive, Workflow, resolve_mode, resolve_face_id,
  binding_registered, get_face_binding_record, credentials_initialized,
  verify_face_emergency_password, ensure_object_binding, touch_face, on_vault,
}
use phantasm.FaceWorkflow.Files.{require_vessel}

pub data Scope : Type 0 where
  face : Scope
  vessel : Scope

module _ {Json Profile Binding Candidate : Type 0}
    (s : Setting Json Profile Binding Candidate) where
  -- `list(observed) == list(expected)`
  abbrev pub same_sequence : List Bytes → List Bytes → Bool
  same_sequence [] [] = true
  same_sequence [] (y ∷ ys) = false
  same_sequence (x ∷ xs) [] = false
  same_sequence (x ∷ xs) (y ∷ ys) = bytes_eq x y && same_sequence xs ys

  abbrev pub shown : List Bytes → List Bytes → Bool
  shown [] expected = false
  shown (x ∷ xs) expected = same_sequence (x ∷ xs) expected

  unfoldable pub require_bound_object : String → Option String → Presented → Workflow s (Unit {0})
  require_bound_object path selector p = do
    id ← lift (resolve_face_id s selector)
    stored ← gets (get_face_binding_record s path id)
    if binding_registered s stored
        then (ensure_object_binding s path selector (record p { no_object_binding = false }) false
            >> pure tt)
        else (do
          mode ← lift (resolve_mode s selector)
          require (shown s.services.auth_sequence (s.services.short_sequence_for_mode mode))
              (raised (value_error "object mismatch")))

  -- What `destroy_face` and `destroy_vessel` ask for
  unfoldable pub authorize :
      String → String → Bytes → Option String → Presented → String → Workflow s String
  unfolding require_bound_object
  authorize phrase path password selector p confirmation = do
    require (str_eq confirmation phrase) (raised (value_error "confirmation rejected"))
    id ← lift (resolve_face_id s selector)
    initialized ← gets (credentials_initialized s path id)
    require initialized (raised (value_error "credentials not initialized"))
    require_bound_object path selector p
    verified ← verify_face_emergency_password s path id password
    require verified (raised (value_error "emergency password mismatch"))
    pure id

  -- The confirmation is stripped already.
  unfoldable pub destroy_face :
      String → Bytes → Option String → Presented → String → Workflow s Scope
  unfolding authorize
  destroy_face path password selector p confirmation = do
    id ← authorize "DESTROY FACE" path password selector p confirmation
    mode ← lift (resolve_mode s selector)
    on_vault s (purge_mode s.platform s.layout mode)
    touch_face s path id (record touched {
      occupancy = some (pos 0);
      file_count = some (pos 0);
      status = some "available";
      credentials_initialized = some false;
      object_binding_initialized = some false;
      object_binding = some s.defaults.no_binding;
      emergency_auth = some no_auth;
      dummy_profile = some (s.emptied_profile s.services.current_timestamp);
    })
    pure face

  abbrev pub unregistered : String → Drive Profile Binding → Drive Profile Binding
  unregistered path d = record d { registry = (unregister_vessel path d.registry).1 }

  unfoldable pub destroy_vessel :
      String → Bytes → Option String → Presented → String → Workflow s Scope
  unfolding authorize
  destroy_vessel path password selector p confirmation = do
    authorize "DESTROY VESSEL" path password selector p confirmation
    on_vault s (silent_brick s.platform s.layout)
    modify (unregistered path)
    pure vessel

  -- `vessel.unlink()`
  abbrev pub unlinked : Drive Profile Binding → Drive Profile Binding
  unlinked d = record d { world = record d.world { container = none } }

  abbrev pub some_vessel : Registry Profile Binding → Bool
  some_vessel [] = false
  some_vessel (r ∷ registry) = s.path_exists r.path || some_vessel registry

  -- The references of objects go with the last vessel.
  abbrev pub forgotten : Drive Profile Binding → Drive Profile Binding
  forgotten d = if some_vessel d.registry then d else record d { has_references = false }

  unfoldable pub delete_vessel : String → String → Workflow s (Unit {0})
  delete_vessel path confirmation = do
    require (str_eq confirmation "DELETE VESSEL") (raised (value_error "confirmation rejected"))
    require_vessel s
    on_vault s (silent_brick s.platform s.layout)
    modify unlinked
    modify (unregistered path)
    modify forgotten
