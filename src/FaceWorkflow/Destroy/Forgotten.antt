-- ===== src/FaceWorkflow/Destroy/Forgotten.antt =====
-- services/vessel_workflow_service.py: what is left of a face that was destroyed, and of a vessel.
use phantasm.Base.{◌≡◌, refl, String, Bool, false, some, Bytes, arith}
use phantasm.Base.Int.{pos}
use phantasm.Base.Except.{ok, err}
use phantasm.Storage.{World}
use phantasm.Vault.{purge_mode}
use phantasm.VesselRegistry.{Face, touched, no_auth}
use phantasm.VesselRegistry.Operations.{IsSound}
use phantasm.FaceNamespace.{value_error}
use phantasm.FaceWorkflow.{
  raised, Presented, Setting, Drive, resolve_mode, resolve_face_id, credentials_initialized,
  verify_face_emergency_password, verify_auth,
}
use phantasm.FaceWorkflow.Files.{list_files}
use phantasm.FaceWorkflow.Passphrase.{HasFace, touch_face_runs}
use phantasm.FaceWorkflow.Destroy.{face, authorize, destroy_face}
use phantasm.FaceWorkflow.Destroy.Authorized.{authorize-IsAuthorized, authorize_reads}

module _ {Json Profile Binding Candidate : Type 0}
    (s : Setting Json Profile Binding Candidate) where
  list_refused :
      (path : String) (password : Bytes) (selector id : String) (limit : Bool) (p : Presented)
      (d : Drive Profile Binding)
      → resolve_face_id s (some selector) ≡ ok id
      → credentials_initialized s path id d ≡ false
      → list_files s path password (some selector) limit p d
        ≡ (err (raised (value_error "credentials not initialized")), d)
  unfolding list_files
  list_refused path password selector id limit p d h k = ground (arith, h, k)

  no_auth_refused : (guess : Bytes) → verify_auth s no_auth guess ≡ ok false
  unfolding verify_auth
  no_auth_refused guess = refl

  -- An authorized call to destroy a face, of a sound registry and where the purge of its mode returns, returns; the face has
  -- no credentials and no destroy passphrase any more: no guess is accepted, and its files are not listed with any
  -- password.
  pub destroy_face_forgets :
      (path : String) (password guess other : Bytes) (selector id mode confirmation : String)
      (limit : Bool) (p q : Presented) (d : Drive Profile Binding) (f : Face Profile Binding)
      (w : World)
      → IsSound d.registry
      → HasFace s path id d f
      → (authorize s "DESTROY FACE" path password (some selector) p confirmation d).0 ≡ ok id
      → resolve_mode s (some selector) ≡ ok mode
      → purge_mode s.platform s.layout mode d.world ≡ (ok tt, w)
      → (after : Drive Profile Binding) × (destroy_face s path password
            (some selector)
            p
            confirmation
            d
          ≡ (ok face, after))
        × (after.world ≡ w)
        × (verify_face_emergency_password s path id guess after ≡ (ok false, after))
        × (list_files s path other (some selector) limit q after
            ≡ (err (raised (value_error "credentials not initialized")), after))
  unfolding destroy_face credentials_initialized verify_face_emergency_password
  destroy_face_forgets path password guess other selector id mode confirmation limit p q d f w sound
        found allowed names purges =
      let cleared = record touched {
        occupancy = some (pos 0);
        file_count = some (pos 0);
        status = some "available";
        credentials_initialized = some false;
        object_binding_initialized = some false;
        object_binding = some s.defaults.no_binding;
        emergency_auth = some no_auth;
        dummy_profile = some (s.emptied_profile s.services.current_timestamp);
      } in
      let (r, after, runs, world, kept, _) =
        touch_face_runs s path id cleared (record d { world = w }) f sound found in
      let authorized =
        authorize-IsAuthorized s "DESTROY FACE" path password (some selector) p confirmation id d
          allowed in
      (
        after,
        ground (
          arith,
          allowed,
          authorize_reads s "DESTROY FACE" path password (some selector) p confirmation d,
          names,
          purges,
          runs,
        ),
        world,
        ground (arith, kept, no_auth_refused guess),
        list_refused path other selector id limit q after authorized.names (ground (arith, kept)),
      )
