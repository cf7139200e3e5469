-- ===== src/FaceWorkflow/RoundTrip.antt =====
-- services/vessel_workflow_service.py: a file that is added to a face, and retrieved from it by its name.
use phantasm.Base.{
  ◌≡◌, refl, sym, ◌∙◌, String, Bool, true, false, Option, none, some, List, [], ◌∷◌, Bytes, length,
  arith, str_eq, eq_refl,
}
use mathlib.Core.Path.{subst}
use phantasm.Base.Dict.{Dict, lookup, insert, lookup-insert}
use phantasm.Base.Except.{ok}
use phantasm.Container.{open_role}
use phantasm.Container.Spans.{IsMode}
use phantasm.RecordCipher.RoundTrip.{Fits, recovered_name}
use phantasm.Vault.{retrieve_open_only}
use phantasm.Vault.RoundTrip.{IsFormatted}
use phantasm.VesselRegistry.{Face, touched, get_face_state_record}
use phantasm.VesselRegistry.Operations.{IsSound}
use phantasm.FaceNamespace.{
  FaceFileRecord, files_of, with_files, manual_entry, next_store_seq, namespace_file_records,
}
use phantasm.FaceNamespace.Entries.{
  IsNamespace, with_files-IsNamespace, files_of-with_files, add_entry_runs, file_data-manual_entry,
}
use phantasm.FaceNamespace.Listing.{listed-IsThere, choose_named}
use phantasm.FaceWorkflow.{
  Presented, Setting, Drive, resolve_mode, resolve_face_id, binding_registered,
  get_face_binding_record, credentials_initialized, active_cue_sequence, none_matched,
  read_face_namespace, total_size, file_count,
}
use phantasm.FaceWorkflow.Files.{
  store_cue_sequence, add_payload, read_candidate, try_candidates, retrieve_file,
}
use phantasm.FaceWorkflow.Passphrase.{found-HasFace, touch_face_runs}
use phantasm.FaceWorkflow.Stored.{
  encoded, namespace_name, write_face_namespace_runs, read_face_namespace_opened,
}

-- A call that gives the cues of the object itself
abbrev pub by_cues : List Bytes → Presented
by_cues cues = record {
  cue_sequence = some cues;
  object_image_path = none;
  camera_object = false;
  no_object_binding = false;
}

module _ {Json Profile Binding Candidate : Type 0}
    (s : Setting Json Profile Binding Candidate) where
  -- The face is bound to no object by the registry.
  abbrev pub IsUnbound : Face Profile Binding → Type 0
  IsUnbound f = str_eq (s.services.source_type f.object_binding) "" ≡ true

  unbound :
      (path id : String) (d : Drive Profile Binding) (f : Face Profile Binding)
      → get_face_state_record path id d.registry ≡ some f
      → IsUnbound f
      → binding_registered s (get_face_binding_record s path id d) ≡ false
  unfolding binding_registered get_face_binding_record
  unbound path id d f h u = ground (arith, h, u)

  store_cues :
      (path id mode : String) (selector : Option String) (cues : List Bytes)
      (d : Drive Profile Binding) (f : Face Profile Binding)
      → get_face_state_record path id d.registry ≡ some f
      → IsUnbound f
      → resolve_face_id s selector ≡ ok id
      → store_cue_sequence s path selector mode (by_cues cues) false d ≡ (ok cues, d)
  unfolding store_cue_sequence
  store_cues path id mode selector cues d f h u id_is =
      ground (arith, id_is, unbound path id d f h u)

  read_cues :
      (path id : String) (selector : Option String) (cues : List Bytes) (d : Drive Profile Binding)
      (f : Face Profile Binding)
      → get_face_state_record path id d.registry ≡ some f
      → IsUnbound f
      → resolve_face_id s selector ≡ ok id
      → active_cue_sequence s path selector (by_cues cues) d ≡ (ok cues, d)
  unfolding active_cue_sequence
  read_cues path id selector cues d f h u id_is = ground (arith, id_is, unbound path id d f h u)

  candidate_read :
      (path id mode selector : String) (password : Bytes) (cues : List Bytes)
      (namespace : Dict Json) (d : Drive Profile Binding) (f : Face Profile Binding)
      → get_face_state_record path id d.registry ≡ some f
      → IsUnbound f
      → f.credentials_initialized ≡ true
      → none_matched s cues ≡ false
      → resolve_face_id s (some selector) ≡ ok id
      → read_face_namespace s path password (some selector) cues d ≡ (ok namespace, d)
      → (explicit : Bool)
      → try_candidates s path password explicit (by_cues cues) (selector ∷ []) d
        ≡ (ok (namespace, selector), d)
  unfolding try_candidates read_candidate credentials_initialized
  candidate_read path id mode selector password cues namespace d f h u c m id_is reads explicit =
      ground (arith, h, c, m, id_is, reads, read_cues path id (some selector) cues d f h u id_is)

  -- The namespace with the file in it
  abbrev pub with_file : String → Bytes → Dict Json → Dict Json → Dict Json
  with_file name payload files namespace =
      with_files s.values s.scalars
        (insert name
          (manual_entry s.values s.scalars payload s.services.current_timestamp
            (next_store_seq s.values s.scalars files))
          files)
        namespace

  -- What a call that added a file leaves
  pub record IsAdded (path id mode : String) (password : Bytes) (cues : List Bytes)
      (namespace : Dict Json) (after : Drive Profile Binding) : Type 0 where
    pub opens :
        retrieve_open_only s.platform s.layout password cues mode after.world
        ≡ (ok (some (encoded s namespace, recovered_name (namespace_name s))), after.world)
    pub formatted : IsFormatted s.platform s.layout after.world
    pub sound : IsSound after.registry
    pub face : Face Profile Binding
    pub has : get_face_state_record path id after.registry ≡ some face
    pub initialized : face.credentials_initialized ≡ true
    pub unbound : IsUnbound face

  pub add_payload_runs :
      (path id mode : String) (selector : Option String) (name : String) (payload password : Bytes)
      (cues : List Bytes) (namespace files : Dict Json) (listing : List FaceFileRecord)
      (d : Drive Profile Binding) (f : Face Profile Binding)
      → IsSound d.registry
      → get_face_state_record path id d.registry ≡ some f
      → IsUnbound f
      → resolve_mode s selector ≡ ok mode
      → resolve_face_id s selector ≡ ok id
      → IsFormatted s.platform s.layout d.world
      → IsMode mode
      → read_face_namespace s path password selector cues d ≡ (ok namespace, d)
      → files_of s.values s.scalars namespace ≡ some files
      → namespace_file_records s.values s.scalars (with_file name payload files namespace)
        ≡ ok listing
      → Fits s.platform s.layout
          (encoded s (with_file name payload files namespace))
          mode
          open_role
          (namespace_name s)
          d.world.clock
      → (after : Drive Profile Binding) × (add_payload s path name payload password none selector
            (by_cues cues)
            false
            none
            d
          ≡ (ok (length payload), after))
        × IsAdded path id mode password cues (with_file name payload files namespace) after
  unfolding add_payload
  add_payload_runs path id mode selector name payload password cues namespace files listing d f
        sound face u mode_is id_is formatted im reads is listed fits =
      let (_, middle, writes, w) =
        write_face_namespace_runs s path id mode selector password cues
          (with_file name payload files namespace) listing d f sound
          (found-HasFace s path id d f face) mode_is id_is formatted im fits listed in
      let (r, after, runs, world, face', sound') =
        touch_face_runs s path id (record touched { credentials_initialized = some true }) middle _
          w.sound (found-HasFace s path id middle _ w.face) in
      (
        after,
        ground (
          arith,
          mode_is,
          id_is,
          formatted.at,
          store_cues path id mode selector cues d f face u id_is,
          reads,
          add_entry_runs s.values s.scalars name payload s.services.current_timestamp namespace
              files is,
          writes,
          runs,
        ),
        record {
          opens =
              subst
                (λ t. retrieve_open_only s.platform s.layout password cues mode t ≡ (
                  ok (
                      some (
                        encoded s (with_file name payload files namespace),
                        recovered_name (namespace_name s),
                      )),
                  t,
                ))
                (sym world) w.opens;
          formatted = subst (IsFormatted s.platform s.layout) (sym world) w.formatted;
          sound = sound';
          face = _;
          has = face';
          initialized = refl;
          unbound = u;
        },
      )

  -- The retrieval of a file by its name from a face whose namespace opens
  retrieve_named :
      (path id mode selector name : String) (payload password : Bytes) (cues : List Bytes)
      (namespace files : Dict Json) (listing : List FaceFileRecord) (d : Drive Profile Binding)
      → resolve_mode s (some selector) ≡ ok mode
      → resolve_face_id s (some selector) ≡ ok id
      → str_eq selector "" ≡ false
      → str_eq name "" ≡ false
      → none_matched s cues ≡ false
      → IsNamespace s.values s.scalars (with_file name payload files namespace)
      → s.codec.loads (s.codec.dumps (s.values.of_dict (with_file name payload files namespace)))
        ≡ some (s.values.of_dict (with_file name payload files namespace))
      → namespace_file_records s.values s.scalars (with_file name payload files namespace)
        ≡ ok listing
      → IsAdded path id mode password cues (with_file name payload files namespace) d
      → (after : Drive Profile Binding) × (retrieve_file s path password none
            (some selector)
            false
            (by_cues cues)
            (some name)
            d
          ≡ (ok (record { payload = payload; filename = name; mode = mode }), after))
  unfolding retrieve_file manual_entry credentials_initialized
  retrieve_named path id mode selector name payload password cues namespace files listing d mode_is
        id_is selected named matched n codec listed a =
      let entries =
        insert name
          (manual_entry s.values s.scalars payload s.services.current_timestamp
            (next_store_seq s.values s.scalars files))
          files in
      let raw = files_of-with_files s.values s.scalars entries namespace in
      let there =
        lookup-insert name name
          (manual_entry s.values s.scalars payload s.services.current_timestamp
            (next_store_seq s.values s.scalars files))
          files
        ∙ ground (arith, eq_refl name) in
      let (r, chosen, called) = choose_named s.values s.scalars name none entries listing named (
        listed-IsThere s.values s.scalars (with_file name payload files namespace) entries listing
          name _ _ raw listed there (s.values.as_dict-of_dict _)) in
      let bytes =
        file_data-manual_entry s.values s.scalars entries r payload s.services.current_timestamp
          (next_store_seq s.values s.scalars files)
          (subst
            (λ k.
              lookup k entries
              ≡ some (
                  manual_entry s.values s.scalars payload s.services.current_timestamp
                    (next_store_seq s.values s.scalars files)))
            (sym called) there) in
      let reads =
        read_face_namespace_opened s path id mode (some selector) password cues
          (with_file name payload files namespace) (recovered_name (namespace_name s)) d mode_is
          id_is n codec a.opens in
      let (v, after, runs, _, _, _) =
        touch_face_runs s path id
          (record touched {
            occupancy = some (total_size s listing);
            file_count = some (file_count s listing);
          })
          d a.face a.sound (found-HasFace s path id d a.face a.has) in
      (
        after,
        ground (
          arith,
          a.formatted.at,
          a.has,
          a.initialized,
          id_is,
          mode_is,
          selected,
          candidate_read path id mode selector password cues
              (with_file name payload files namespace) d a.face a.has a.unbound a.initialized
              matched id_is reads true,
          listed,
          raw,
          chosen,
          called,
          bytes,
          runs,
        ),
      )

  -- A file that is added to the open slot of a face, with the passphrase and the object cues of the face, comes back under
  -- its name with the same passphrase and cues, byte for byte; both calls return. The face is bound to no object by
  -- the registry, the vault is formatted, the namespace with the file fits the slot, and the JSON codec reads what it
  -- wrote.
  pub retrieve_file-add_payload :
      (path id mode selector name : String) (payload password : Bytes) (cues : List Bytes)
      (namespace files : Dict Json) (listing : List FaceFileRecord) (d : Drive Profile Binding)
      (f : Face Profile Binding)
      → IsSound d.registry
      → get_face_state_record path id d.registry ≡ some f
      → IsUnbound f
      → resolve_mode s (some selector) ≡ ok mode
      → resolve_face_id s (some selector) ≡ ok id
      → str_eq selector "" ≡ false
      → str_eq name "" ≡ false
      → none_matched s cues ≡ false
      → IsFormatted s.platform s.layout d.world
      → IsMode mode
      → read_face_namespace s path password (some selector) cues d ≡ (ok namespace, d)
      → IsNamespace s.values s.scalars namespace
      → files_of s.values s.scalars namespace ≡ some files
      → namespace_file_records s.values s.scalars (with_file name payload files namespace)
        ≡ ok listing
      → s.codec.loads (s.codec.dumps (s.values.of_dict (with_file name payload files namespace)))
        ≡ some (s.values.of_dict (with_file name payload files namespace))
      → Fits s.platform s.layout
          (encoded s (with_file name payload files namespace))
          mode
          open_role
          (namespace_name s)
          d.world.clock
      → (middle after : Drive Profile Binding) × (add_payload s path name payload password none
            (some selector)
            (by_cues cues)
            false
            none
            d
          ≡ (ok (length payload), middle))
        × (retrieve_file s path password none
              (some selector)
              false
              (by_cues cues)
              (some name)
              middle
            ≡ (ok (record { payload = payload; filename = name; mode = mode }), after))
  retrieve_file-add_payload path id mode selector name payload password cues namespace files listing
        d f sound face u mode_is id_is selected named matched formatted im reads n is listed codec
        fits =
      let (middle, adds, a) =
        add_payload_runs path id mode (some selector) name payload password cues namespace files
          listing d f sound face u mode_is id_is formatted im reads is listed fits in
      let (after, retrieves) =
        retrieve_named path id mode selector name payload password cues namespace files listing
          middle mode_is id_is selected named matched
          (with_files-IsNamespace s.values s.scalars _ namespace n) codec listed a in
      (middle, after, adds, retrieves)
