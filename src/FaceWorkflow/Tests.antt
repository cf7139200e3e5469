-- ===== src/FaceWorkflow/Tests.antt =====
-- A vessel of 1024 bytes with two faces: a file that is added and retrieved, and a face that is destroyed.
use phantasm.Base.{
  ℕ, suc, ◌+◌, ◌*◌, ◌≤◌, ltb, ◌≡◌, ◌⊎◌, refl, inl, String, Bool, true, false, none, some, List, [],
  ◌∷◌, ◌++◌, Bytes, replicate, take, codes, bytes_eq, length-replicate, arith,
}
use phantasm.Base.Dict.{Dict, lookup, insert}
use phantasm.Base.Int.{pos}
use phantasm.Base.Find.{find_first, all}
use phantasm.Base.Except.{ok, err}
use phantasm.Storage.{World}
use phantasm.Storage.Sample.{holding}
use phantasm.Container.{get_plaintext_capacity, get_mode_span, overwrite}
use phantasm.Container
use phantasm.Platform.Sample.{simple}
use phantasm.RecordCipher.{basename}
use phantasm.RecordCipher.RoundTrip.{Fits}
use phantasm.Vault.{purge_mode}
use phantasm.Vault.Blank.{
  layout, blank, remade, retrieve_open_only-blank, format_container-remade,
  retrieve_open_only-remade,
}
use phantasm.Vault.RoundTrip.{IsFormatted}
use phantasm.RegistrySeal.{Codec}
use phantasm.RegistrySeal.Sample.{Json, json}
use phantasm.VesselRegistry.{
  Face, VesselRecord, Defaults, Registry, new_record, default_face_record, get_face_state_record,
  get_vessel_record,
}
use phantasm.VesselRegistry.Operations.{IsSound}
use phantasm.VesselRegistry.Faces.{default_faces-IsComplete}
use phantasm.FaceNamespace.{
  FaceFileRecord, empty_namespace, files_of, manual_entry, namespace_file_records, sorted, place,
  encode_namespace, value_error,
}
use phantasm.FaceNamespace.Entries.{empty_namespace-IsNamespace}
use phantasm.FaceNamespace.Sample.{scalars, encode_text}
use phantasm.FaceWorkflow.Camera.{wait_for_camera_frame, wait_for_camera_frame_sees}
use phantasm.FaceWorkflow.Lifecycle.{create_vessel, create_vessel_keeps}
use phantasm.FaceWorkflow.Passphrase.{hashed, verify-set_face_emergency_password}
use phantasm.FaceWorkflow.Destroy.{face, authorize, require_bound_object, destroy_face}
use phantasm.FaceWorkflow.Destroy.Authorized.{IsAuthorized, destroy_face-IsAuthorized}
use phantasm.FaceWorkflow.Destroy.Forgotten.{destroy_face_forgets}
use phantasm.FaceWorkflow.{
  set_face_emergency_password, verify_face_emergency_password, verify_auth, recorded_kdf_value,
  compared, binding_registered, get_face_binding_record, raised, Services, Setting, Drive, Failure,
  resolve_mode, resolve_face_id, read_face_namespace, credentials_initialized,
}
use phantasm.FaceWorkflow.Files.{add_payload, retrieve_file, list_files}
use phantasm.FaceWorkflow.Stored.{read_face_namespace_empty}
use phantasm.FaceWorkflow.RoundTrip.{by_cues, with_file, retrieve_file-add_payload}

abbrev services : Services ℕ String ℕ
services = record {
  normal = λ s. s;
  text_of = λ b. "face-namespace.bin";
  source_type = λ b. b;
  disabled_record = "disabled";
  to_record = λ c. "camera";
  profile_from_image_path = λ p. ok 1;
  matches = λ b c tolerant. true;
  no_object_binding_allowed = false;
  capture_camera_profile = ok 1;
  sequence_for_mode = λ mode. codes mode ∷ [];
  short_sequence_for_mode = λ mode. codes mode ∷ [];
  auth_sequence = codes "dummy" ∷ [];
  match_none = codes "none";
  reference_matched = true;
  capture_reference_for_mode = λ mode. ok tt;
  utc_now = "2026-01-01";
  current_timestamp = "2026-01-01";
  attempt_allowed = true;
  salt = 3 ∷ [];
  scrypt = λ password salt n r p k. some (take k (password ++ replicate k 0));
}

abbrev defaults : Defaults ℕ String
defaults = record { no_profile = 0; no_binding = "" }

-- The one document that is stored is read again.
abbrev codec : Dict Json → Codec json
codec namespace = record { dumps = λ v. 1 ∷ []; loads = λ b. some (json.of_dict namespace) }

abbrev setting : Dict Json → Setting Json ℕ String ℕ
setting namespace = record {
  values = json;
  scalars = scalars;
  codec = codec namespace;
  platform = simple;
  layout = layout;
  defaults = defaults;
  services = services;
  build_dummy_profile = λ n. 7;
  emptied_profile = λ at. 0;
  path_exists = λ p. false;
}

abbrev vessels : Registry ℕ String
vessels = new_record defaults "2026-01-01" "/vessel" ∷ []

abbrev drive : Drive ℕ String
drive = record { world = holding blank; registry = vessels; has_references = true }

abbrev first_face : Face ℕ String
first_face = default_face_record defaults "2026-01-01" "face_a" "Disclosure Face 1" "a"

abbrev plain : Setting Json ℕ String ℕ
plain = setting []

abbrev stored : Dict Json
stored = with_file plain "plan.txt" (1 ∷ 2 ∷ []) [] (empty_namespace json scalars)

abbrev s : Setting Json ℕ String ℕ
s = setting stored

abbrev listing : List FaceFileRecord
listing = record { name = "plan.txt"; size = pos 2; added_at = "2026-01-01" } ∷ []

vessels-IsSound : IsSound vessels
unfolding find_first
vessels-IsSound = (default_faces-IsComplete defaults "2026-01-01", refl, tt)

blank-IsFormatted : IsFormatted simple layout (holding blank)
blank-IsFormatted = record {
  file = blank;
  at = refl;
  size = length-replicate {A = ℕ} 1024 7;
  usable = tt;
}

stored-Fits : Fits simple layout (1 ∷ []) "dummy" "open" (some (codes "face-namespace.bin")) 1000
unfolding get_plaintext_capacity lookup basename
stored-Fits = record { capacity = 212; room = refl; enough = omega arith; short = omega arith }

drive_read :
    read_face_namespace s "/vessel" (codes "alpha") (some "face_a") (codes "dummy" ∷ []) drive
    ≡ (ok (empty_namespace json scalars), drive)
unfolding resolve_mode resolve_face_id credentials_initialized get_face_state_record
    get_vessel_record lookup find_first
drive_read =
    read_face_namespace_empty s "/vessel" "face_a" "dummy" (some "face_a") (codes "alpha")
      (codes "dummy" ∷ []) drive refl refl retrieve_open_only-blank refl

retrieve_file-add_payload_example :
    (middle after : Drive ℕ String) × (add_payload s "/vessel" "plan.txt"
        (1 ∷ 2 ∷ [])
        (codes "alpha")
        none
        (some "face_a")
        (by_cues (codes "dummy" ∷ []))
        false
        none
        drive
      ≡ (ok 2, middle))
    × (retrieve_file s "/vessel"
          (codes "alpha")
          none
          (some "face_a")
          false
          (by_cues (codes "dummy" ∷ []))
          (some "plan.txt")
          middle
        ≡ (ok (record { payload = 1 ∷ 2 ∷ []; filename = "plan.txt"; mode = "dummy" }), after))
unfolding get_face_state_record get_vessel_record find_first resolve_mode resolve_face_id lookup
    files_of namespace_file_records manual_entry insert sorted place encode_namespace bytes_eq
retrieve_file-add_payload_example =
    retrieve_file-add_payload s "/vessel" "face_a" "dummy" "face_a" "plan.txt" (1 ∷ 2 ∷ [])
      (codes "alpha") (codes "dummy" ∷ []) (empty_namespace json scalars) [] listing drive
      first_face vessels-IsSound refl refl refl refl refl refl refl blank-IsFormatted (inl refl)
      drive_read (empty_namespace-IsNamespace json scalars) refl refl refl stored-Fits

-- A face with the destroy passphrase of two bytes
abbrev secret_word : Bytes
secret_word = 1 ∷ 2 ∷ []

abbrev word_digest : Bytes
word_digest = take 32 (secret_word ++ replicate 32 0)

abbrev armed_face : Face ℕ String
armed_face = record first_face {
  credentials_initialized = true;
  emergency_auth = record {
    salt_b64 = encode_text (3 ∷ []);
    hash_b64 = encode_text word_digest;
    updated_at = "";
    kdf_n = pos 0;
    kdf_r = pos 0;
    kdf_p = pos 0;
  };
}

abbrev armed : Drive ℕ String
armed = record drive {
  registry =
      (record (new_record defaults "2026-01-01" "/vessel") {
        faces =
            armed_face
            ∷ default_face_record defaults "2026-01-01" "face_b" "Disclosure Face 2" "b"
            ∷ [];
      })
      ∷ [];
}

armed-IsSound : IsSound armed.registry
unfolding find_first all
armed-IsSound = (record { all_named = refl; has_a = (_, refl); has_b = (_, refl) }, refl, tt)

armed_authorized :
    (authorize plain "DESTROY FACE" "/vessel" secret_word
      (some "face_a")
      (by_cues [])
      "DESTROY FACE"
      armed).0
    ≡ ok "face_a"
unfolding authorize require_bound_object binding_registered get_face_binding_record
    verify_face_emergency_password verify_auth recorded_kdf_value resolve_mode resolve_face_id
    credentials_initialized get_face_state_record get_vessel_record lookup find_first bytes_eq
armed_authorized = refl

verify-set_face_emergency_password_example :
    (r : VesselRecord ℕ String) × (after : Drive ℕ String) × (set_face_emergency_password plain
        "/vessel" "face_a" secret_word drive
      ≡ (ok r, after))
    × (verify_face_emergency_password plain "/vessel" "face_a" (9 ∷ []) after
        ≡ (ok (compared plain (hashed plain (9 ∷ [])) word_digest), after))
    × (verify_face_emergency_password plain "/vessel" "face_a" secret_word after ≡ (ok true, after))
unfolding find_first
verify-set_face_emergency_password_example =
    verify-set_face_emergency_password plain "/vessel" "face_a" secret_word (9 ∷ []) word_digest
      drive first_face vessels-IsSound refl refl refl refl refl

destroy_face-IsAuthorized_example :
    ((e : Failure) × (destroy_face plain "/vessel"
          (9 ∷ [])
          (some "face_a")
          (by_cues [])
          "DESTROY FACE"
          armed
        ≡ (err e, armed)))
    ⊎ ((id : String) × IsAuthorized plain "DESTROY FACE" "/vessel"
          (9 ∷ [])
          (some "face_a")
          (by_cues [])
          "DESTROY FACE"
          armed
          id)
destroy_face-IsAuthorized_example =
    destroy_face-IsAuthorized plain "/vessel" (9 ∷ []) (some "face_a") (by_cues []) "DESTROY FACE"
      armed

abbrev purged : World
purged = (purge_mode simple layout "dummy" (holding blank)).1

blank-purged : purge_mode simple layout "dummy" (holding blank) ≡ (ok tt, purged)
unfolding purge_mode Container.purge_mode get_mode_span overwrite
blank-purged = refl

destroy_face_forgets_example :
    (after : Drive ℕ String) × (destroy_face plain "/vessel" secret_word
        (some "face_a")
        (by_cues [])
        "DESTROY FACE"
        armed
      ≡ (ok face, after))
    × (after.world ≡ purged)
    × (verify_face_emergency_password plain "/vessel" "face_a" secret_word after
        ≡ (ok false, after))
    × (list_files plain "/vessel" (codes "alpha") (some "face_a") false (by_cues []) after
        ≡ (err (raised (value_error "credentials not initialized")), after))
unfolding find_first resolve_mode lookup
destroy_face_forgets_example =
    destroy_face_forgets plain "/vessel" secret_word secret_word (codes "alpha") "face_a" "face_a"
      "dummy" "DESTROY FACE" false (by_cues []) (by_cues []) armed armed_face purged armed-IsSound
      refl armed_authorized refl blank-purged

-- A clock of 120 milliseconds a turn, and a frame from the third turn on
abbrev clock : ℕ → ℕ
clock k = 5000 + 120 * k

abbrev frame : ℕ → Bool
frame k = ltb 1 k

clock_sleeps : (k : ℕ) → clock k + 100 ≤ clock (suc k)
clock_sleeps k = omega arith

wait_for_camera_frame_sees_example : wait_for_camera_frame frame 4990 clock 1000 ≡ some true
wait_for_camera_frame_sees_example =
    wait_for_camera_frame_sees frame clock clock_sleeps 4990 1000 2 (omega arith) (omega arith) refl

create_vessel_keeps_example :
    (after : Drive ℕ String) × (create_vessel plain "/vessel" true "" armed ≡ (ok tt, after))
    × (get_face_state_record "/vessel" "face_a" after.registry ≡ some armed_face)
    × (read_face_namespace plain "/vessel"
          (codes "alpha")
          (some "face_a")
          (codes "dummy" ∷ [])
          after
        ≡ (err (raised (value_error "password mismatch")), after))
unfolding get_face_state_record get_vessel_record find_first resolve_mode resolve_face_id lookup
create_vessel_keeps_example =
    create_vessel_keeps plain "/vessel" "face_a" "dummy" (some "face_a") (codes "alpha")
      (codes "dummy" ∷ []) armed armed_face remade refl refl refl refl format_container-remade
      retrieve_open_only-remade
