-- ===== src/FaceWorkflow/Lifecycle.antt =====
-- services/vessel_workflow_service.py: the creation of a vessel, of a size that is accepted.
use phantasm.Base.{
  ◌≡◌, refl, sym, ◌∙◌, String, Bool, true, false, not, ◌||◌, Option, none, some, List, Bytes, arith,
  str_eq, if◌then◌else◌,
}
use mathlib.Core.Path.{subst}
use phantasm.Base.Find.{find_first}
use phantasm.Base.Except.{ok, err, pure, gets, modify, require, ◌>>=◌, ◌>>◌}
use phantasm.Storage.{World}
use phantasm.Vault.{format_container, retrieve_open_only}
use phantasm.VesselRegistry.{
  Face, has_id, record_at, nothing_changed, register_vessel, update_registry_record,
  get_face_state_record,
}
use phantasm.VesselRegistry.TouchFace.{find-register, faces_at}
use phantasm.FaceNamespace.{value_error, file_exists}
use phantasm.FaceWorkflow.{
  raised, Setting, Drive, Workflow, resolve_mode, resolve_face_id, credentials_initialized,
  on_vault, on_registry, read_face_namespace,
}
use phantasm.FaceWorkflow.Files.{vessel_exists}
use phantasm.FaceWorkflow.Stored.{read_face_namespace_mismatch}
use phantasm.FaceWorkflow.Passphrase.{found-HasFace}

module _ {Json Profile Binding Candidate : Type 0}
    (s : Setting Json Profile Binding Candidate) where
  abbrev registered : String → Drive Profile Binding → Drive Profile Binding
  registered path d = record d {
    registry = register_vessel s.defaults s.services.utc_now path d.registry;
  }

  abbrev labelled : String → String → Workflow s (Unit {0})
  labelled path label =
      if str_eq label ""
      then pure tt
      else (on_registry s (
            update_registry_record s.defaults s.services.utc_now path
              (record nothing_changed { label = some label }))
          >> pure tt)

  unfoldable pub create_vessel : String → Bool → String → Workflow s (Unit {0})
  create_vessel path overwrite label = do
    there ← gets (vessel_exists s)
    require (not there || overwrite) (raised (file_exists "vessel already exists"))
    on_vault s (format_container s.platform s.layout true)
    modify (registered path)
    labelled path label
    modify (λ d. record d { has_references = false })

  -- A creation that is let through, without a label, makes the container anew and forgets the references of objects; the faces are
  -- those of the record of the path, where it is registered already, and new ones where it is not.
  pub create_vessel_faces :
      (path id : String) (overwrite : Bool) (d : Drive Profile Binding) (w : World)
      → (not (vessel_exists s d) || overwrite) ≡ true
      → format_container s.platform s.layout true d.world ≡ (ok tt, w)
      → (after : Drive Profile Binding) × (create_vessel path overwrite "" d ≡ (ok tt, after))
        × (after.world ≡ w)
        × (after.has_references ≡ false)
        × (get_face_state_record path id after.registry
            ≡ find_first
                (has_id id)
                (record_at s.defaults s.services.utc_now path d.registry).faces)
  unfolding create_vessel
  create_vessel_faces path id overwrite d w allowed formats = (
    record d {
      world = w;
      registry = register_vessel s.defaults s.services.utc_now path d.registry;
      has_references = false;
    },
    ground (arith, allowed, formats),
    refl,
    refl,
    faces_at s.defaults s.services.utc_now path id _ _
        (find-register s.defaults s.services.utc_now path d.registry),
  )

  -- Over a vessel whose registered face was set up, a creation with overwriting returns and keeps the record of the face as it
  -- was, so that a passphrase that opens no slot of the new container is refused as a wrong one, and not taken for that of
  -- an empty face.
  pub create_vessel_keeps :
      (path id mode : String) (selector : Option String) (password : Bytes) (cues : List Bytes)
      (d : Drive Profile Binding) (f : Face Profile Binding) (w : World)
      → get_face_state_record path id d.registry ≡ some f
      → f.credentials_initialized ≡ true
      → resolve_mode s selector ≡ ok mode
      → resolve_face_id s selector ≡ ok id
      → format_container s.platform s.layout true d.world ≡ (ok tt, w)
      → retrieve_open_only s.platform s.layout password cues mode w ≡ (ok none, w)
      → (after : Drive Profile Binding) × (create_vessel path true "" d ≡ (ok tt, after))
        × (get_face_state_record path id after.registry ≡ some f)
        × (read_face_namespace s path password selector cues after
            ≡ (err (raised (value_error "password mismatch")), after))
  unfolding credentials_initialized
  create_vessel_keeps path id mode selector password cues d f w face initialized mode_is id_is
        formats shut =
      let (after, creates, world, _, faces) =
        create_vessel_faces path id true d w (ground arith) formats in
      let kept = faces ∙ found-HasFace s path id d f face in
      (
        after,
        creates,
        kept,
        read_face_namespace_mismatch s path id mode selector password cues after mode_is id_is
            (subst (λ t. retrieve_open_only s.platform s.layout password cues mode t ≡ (ok none, t))
              (sym world) shut)
            (ground (arith, kept, initialized)),
      )
