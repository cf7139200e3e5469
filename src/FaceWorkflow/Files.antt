-- ===== src/FaceWorkflow/Files.antt =====
-- services/vessel_workflow_service.py: the calls that add, list, retrieve and remove the files of a face. A payload
-- comes and goes as bytes; the file that it is read from or written to is left out.
use phantasm.Base.{
  ℕ, String, Bool, true, false, not, ◌&&◌, ◌||◌, Option, none, some, List, [], ◌∷◌, Bytes, length,
  if◌then◌else◌,
}
use phantasm.Base.Dict.{Dict}
use phantasm.Base.Except.{Result, ok, err, pure, gets, lift, require, ◌>>=◌, ◌>>◌}
use phantasm.VesselRegistry.{touched}
use phantasm.FaceNamespace.{
  value_error, file_not_found, permission_error, FaceFileRecord, files_of, add_entry, remove_entry,
  namespace_file_records, choose, file_data, truthy,
}
use phantasm.FaceWorkflow.{
  Failure, raised, is_value_error, Presented, Setting, Drive, Workflow, resolve_mode,
  resolve_face_id, binding_registered, get_face_binding_record, credentials_initialized,
  set_face_emergency_password, ensure_object_binding, presents_object, with_camera,
  active_cue_sequence, cues_of, none_matched, read_face_namespace, write_face_namespace, touch_face,
  lifted, total_size, file_count,
}

-- What `retrieve_file` returns, with the bytes beside it
pub record RetrievePayloadResult : Type 0 where
  pub payload : Bytes
  pub filename : String
  pub mode : String

module _ {Json Profile Binding Candidate : Type 0}
    (s : Setting Json Profile Binding Candidate) where
  abbrev pub vessel_exists : Drive Profile Binding → Bool
  vessel_exists d = elim d.world.container [ none ↦ false | some file ↦ true ]

  abbrev pub require_vessel : Workflow s (Unit {0})
  require_vessel = do
    there ← gets vessel_exists
    require there (raised (file_not_found "vessel file not found"))

  abbrev pub own_cues : String → Presented → Bool → Workflow s (List Bytes)
  own_cues mode p capture_reference =
      if capture_reference
      then (do
        lift (s.services.capture_reference_for_mode mode)
        pure (s.services.sequence_for_mode mode))
      else elim p.cue_sequence [
        | none ↦ pure (s.services.sequence_for_mode mode)
        | some cues ↦ pure cues
      ]

  -- The object cues of a call that writes to a face
  unfoldable pub store_cue_sequence :
      String → Option String → String → Presented → Bool → Workflow s (List Bytes)
  store_cue_sequence path selector mode p capture_reference = do
    id ← lift (resolve_face_id s selector)
    stored ← gets (get_face_binding_record s path id)
    let is_bound = binding_registered s stored
    if presents_object s p is_bound
        then (do
          cues ← ensure_object_binding s path selector (with_camera s p is_bound) true
          pure (cues_of s cues))
        else own_cues mode p capture_reference

  -- `emergency_password`, or else `restricted_passphrase`
  abbrev pub destroy_password : Option Bytes → Option Bytes → Option Bytes
  destroy_password none restricted = restricted
  destroy_password (some password) restricted = some password

  abbrev pub set_destroy_password : String → Option String → Option Bytes → Workflow s (Unit {0})
  set_destroy_password path selector none = pure tt
  set_destroy_password path selector (some []) = pure tt
  set_destroy_password path selector (some (c ∷ password)) = do
    id ← lift (resolve_face_id s selector)
    set_face_emergency_password s path id (c ∷ password)
    pure tt

  -- The file has its name without directories, and one.
  unfoldable pub add_payload :
      String
      → String
      → Bytes
      → Bytes
      → Option Bytes
      → Option String
      → Presented
      → Bool
      → Option Bytes
      → Workflow s ℕ
  unfolding store_cue_sequence
  add_payload path name payload open_passphrase restricted selector p capture_reference emergency =
      do
        mode ← lift (resolve_mode s selector)
        require_vessel
        cues ← store_cue_sequence path selector mode p capture_reference
        namespace ← read_face_namespace s path open_passphrase selector cues
        added ←
            lifted s
              (add_entry s.values s.scalars name payload s.services.current_timestamp namespace)
        let password = destroy_password emergency restricted
        set_destroy_password path selector password
        write_face_namespace s path open_passphrase password selector cues added
        id ← lift (resolve_face_id s selector)
        touch_face s path id (record touched { credentials_initialized = some true })
        pure (length payload)

  -- One turn of the loop over the candidate faces
  unfoldable pub read_candidate : String → Bytes → String → Presented → Workflow s (Dict Json)
  read_candidate path open_passphrase candidate p = do
    cues ← active_cue_sequence s path (some candidate) p
    require (not (none_matched s cues)) (raised (value_error "no bound object matched"))
    read_face_namespace s path open_passphrase (some candidate) cues

  -- `selector is not None or object_image_path or camera_object or no_object_binding`
  abbrev pub is_explicit : Option String → Presented → Bool
  is_explicit (some selector) p = true
  is_explicit none p = presents_object s p false

  abbrev pub next_candidate :
      Bool
      → String
      → Workflow s (Dict Json × String)
      → Result Failure (Dict Json) × Drive Profile Binding
      → Result Failure (Dict Json × String) × Drive Profile Binding
  next_candidate explicit candidate rest (ok namespace, d) = (ok (namespace, candidate), d)
  next_candidate explicit candidate rest (err e, d) =
      if is_value_error e && not explicit then rest d else (err e, d)

  unfoldable pub try_candidates :
      String → Bytes → Bool → Presented → List String → Workflow s (Dict Json × String)
  unfolding read_candidate
  try_candidates path open_passphrase explicit p [] d =
      (err (raised (value_error "password mismatch")), d)
  try_candidates path open_passphrase explicit p (candidate ∷ rest) d =
      let later = try_candidates path open_passphrase explicit p rest in
      elim (resolve_face_id s (some candidate)) [
        | err e ↦ (err e, d)
        | ok id ↦
            if credentials_initialized s path id d
            then next_candidate explicit candidate later
                (read_candidate path open_passphrase candidate p d)
            else later d
      ]

  -- `[selector] if selector else ["face_a", "face_b"]`
  abbrev pub candidate_selectors : Option String → List String
  candidate_selectors selector = elim (truthy selector) [
    | none ↦ "face_a" ∷ "face_b" ∷ []
    | some name ↦ name ∷ []
  ]

  abbrev pub require_credentials : String → Option String → Workflow s (Unit {0})
  require_credentials path none = pure tt
  require_credentials path (some selector) = do
    id ← lift (resolve_face_id s (some selector))
    initialized ← gets (credentials_initialized s path id)
    require initialized (raised (value_error "credentials not initialized"))

  abbrev pub limited : Bool → Workflow s (Unit {0})
  limited use_attempt_limiter =
      require (not use_attempt_limiter || s.services.attempt_allowed)
        (raised (permission_error "Access temporarily unavailable"))

  unfoldable pub list_files :
      String → Bytes → Option String → Bool → Presented → Workflow s (List FaceFileRecord)
  unfolding try_candidates
  list_files path open_passphrase selector use_attempt_limiter p = do
    require_credentials path selector
    limited use_attempt_limiter
    (namespace, accessed) ←
        try_candidates path open_passphrase (is_explicit selector p) p
          (candidate_selectors selector)
    files ← lifted s (namespace_file_records s.values s.scalars namespace)
    id ← lift (resolve_face_id s (some accessed))
    touch_face s path id (record touched {
      occupancy = some (total_size s files);
      file_count = some (file_count s files);
    })
    pure files

  abbrev pub raw_files : Option (Dict Json) → Dict Json
  raw_files none = []
  raw_files (some files) = files

  unfoldable pub retrieve_file :
      String
      → Bytes
      → Option String
      → Option String
      → Bool
      → Presented
      → Option String
      → Workflow s RetrievePayloadResult
  unfolding try_candidates
  retrieve_file path open_passphrase output_name selector use_attempt_limiter p filename = do
    require_vessel
    require_credentials path selector
    limited use_attempt_limiter
    (namespace, accessed) ←
        try_candidates path open_passphrase (is_explicit selector p) p
          (candidate_selectors selector)
    files ← lifted s (namespace_file_records s.values s.scalars namespace)
    let raw = raw_files (files_of s.values s.scalars namespace)
    chosen ← lifted s (choose s.values s.scalars filename output_name raw files)
    payload ← lifted s (file_data s.values s.scalars raw chosen)
    mode ← lift (resolve_mode s (some accessed))
    id ← lift (resolve_face_id s (some accessed))
    touch_face s path id (record touched {
      occupancy = some (total_size s files);
      file_count = some (file_count s files);
    })
    pure (record { payload = payload; filename = chosen.name; mode = mode })

  unfoldable pub remove_file :
      String → String → Bytes → Option String → Presented → Workflow s (Unit {0})
  remove_file path stored_name open_passphrase selector p = do
    id ← lift (resolve_face_id s selector)
    initialized ← gets (credentials_initialized s path id)
    require initialized (raised (value_error "credentials not initialized"))
    cues ← active_cue_sequence s path selector p
    namespace ← read_face_namespace s path open_passphrase selector cues
    kept ← lifted s (remove_entry s.values s.scalars stored_name namespace)
    write_face_namespace s path open_passphrase none selector cues kept
    pure tt
