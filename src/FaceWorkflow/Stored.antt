-- ===== src/FaceWorkflow/Stored.antt =====
-- services/vessel_workflow_service.py over vault_core.py: a namespace that is written to the open slot of a face, and what
-- is read out of it.
use phantasm.Base.{
  ◌≡◌, refl, sym, inl, String, true, false, Option, none, some, List, Bytes, codes, arith,
}
use mathlib.Core.Path.{subst}
use phantasm.Base.Dict.{Dict}
use phantasm.Base.Except.{ok, err}
use phantasm.Storage.{World}
use phantasm.Container.{open_role}
use phantasm.Container.Spans.{IsMode, span_of}
use phantasm.RecordCipher.RoundTrip.{Fits, recovered_name}
use phantasm.Vault.{store_open_only, retrieve_open_only}
use phantasm.Vault.Slots.{write_slot-Writes, retrieve_slot-Holds}
use phantasm.Vault.RoundTrip.{IsFormatted, Writes-IsFormatted}
use phantasm.VesselRegistry.{Face, VesselRecord, Access, touched, accessed, get_face_state_record}
use phantasm.VesselRegistry.Operations.{IsSound}
use phantasm.FaceNamespace.{
  FaceFileRecord, encode_namespace, namespace_file_records, empty_namespace, value_error,
}
use phantasm.FaceNamespace.Entries.{IsNamespace, decode_namespace-encode_namespace}
use phantasm.FaceWorkflow.{
  Setting, Drive, resolve_mode, resolve_face_id, read_face_namespace, write_face_namespace,
  total_size, file_count, credentials_initialized, raised,
}
use phantasm.FaceWorkflow.Passphrase.{HasFace, touch_face_runs}

module _ {Json Profile Binding Candidate : Type 0}
    (s : Setting Json Profile Binding Candidate) where
  -- The bytes of a namespace
  abbrev pub encoded : Dict Json → Bytes
  encoded namespace = (encode_namespace s.values s.scalars s.codec namespace).0

  abbrev pub namespace_name : Option Bytes
  namespace_name = some (codes "face-namespace.bin")

  slot_round_trip :
      (password payload : Bytes) (cues : List Bytes) (filename : Option Bytes) (mode : String)
      (w : World)
      → IsFormatted s.platform s.layout w
      → IsMode mode
      → Fits s.platform s.layout payload mode open_role filename w.clock
      → (t : World) × (store_open_only s.platform s.layout password payload cues filename mode w
          ≡ (ok tt, t))
        × (retrieve_open_only s.platform s.layout password cues mode t
            ≡ (ok (some (payload, recovered_name filename)), t))
        × IsFormatted s.platform s.layout t
  unfolding store_open_only retrieve_open_only
  slot_round_trip password payload cues filename mode w v im f =
      let (span, q) = span_of s.layout mode open_role im (inl refl) in
      let (t, call, writes) =
        write_slot-Writes s.platform s.layout password payload cues filename mode open_role w v.at
          v.usable q f in
      (
        t,
        ground (arith, v.at, call),
        ground (
          arith,
          writes.holds.container_at,
          retrieve_slot-Holds s.platform s.layout password cues mode open_role t writes.holds,
        ),
        Writes-IsFormatted s.platform s.layout password cues mode open_role v q writes,
      )

  -- A slot that opens gives the namespace in it.
  pub read_face_namespace_opened :
      (path id mode : String) (selector : Option String) (password : Bytes) (cues : List Bytes)
      (namespace : Dict Json) (name : Bytes) (d : Drive Profile Binding)
      → resolve_mode s selector ≡ ok mode
      → resolve_face_id s selector ≡ ok id
      → IsNamespace s.values s.scalars namespace
      → s.codec.loads (s.codec.dumps (s.values.of_dict namespace))
        ≡ some (s.values.of_dict namespace)
      → retrieve_open_only s.platform s.layout password cues mode d.world
        ≡ (ok (some (encoded namespace, name)), d.world)
      → read_face_namespace s path password selector cues d ≡ (ok namespace, d)
  unfolding read_face_namespace
  read_face_namespace_opened path id mode selector password cues namespace name d mode_is id_is n
        codec opens =
      ground (
        arith,
        mode_is,
        id_is,
        opens,
        decode_namespace-encode_namespace s.values s.scalars s.codec namespace
            (some (s.services.text_of name)) n codec,
      )

  -- Where no slot opens, a face that was never set up is empty,
  pub read_face_namespace_empty :
      (path id mode : String) (selector : Option String) (password : Bytes) (cues : List Bytes)
      (d : Drive Profile Binding)
      → resolve_mode s selector ≡ ok mode
      → resolve_face_id s selector ≡ ok id
      → retrieve_open_only s.platform s.layout password cues mode d.world ≡ (ok none, d.world)
      → credentials_initialized s path id d ≡ false
      → read_face_namespace s path password selector cues d
        ≡ (ok (empty_namespace s.values s.scalars), d)
  unfolding read_face_namespace
  read_face_namespace_empty path id mode selector password cues d mode_is id_is shut fresh =
      ground (arith, mode_is, id_is, shut, fresh)

  -- and for one that was, the passphrase is wrong.
  pub read_face_namespace_mismatch :
      (path id mode : String) (selector : Option String) (password : Bytes) (cues : List Bytes)
      (d : Drive Profile Binding)
      → resolve_mode s selector ≡ ok mode
      → resolve_face_id s selector ≡ ok id
      → retrieve_open_only s.platform s.layout password cues mode d.world ≡ (ok none, d.world)
      → credentials_initialized s path id d ≡ true
      → read_face_namespace s path password selector cues d
        ≡ (err (raised (value_error "password mismatch")), d)
  unfolding read_face_namespace
  read_face_namespace_mismatch path id mode selector password cues d mode_is id_is shut
        initialized =
      ground (arith, mode_is, id_is, shut, initialized)

  -- The touch of `_write_face_namespace`
  abbrev pub written : Dict Json → List FaceFileRecord → Access Profile Binding
  written namespace files = record touched {
    occupancy = some (total_size s files);
    file_count = some (file_count s files);
    dummy_profile = some (s.build_dummy_profile namespace);
  }

  -- What is in the slot and in the registry after a namespace is written
  pub record IsWritten (path id mode : String) (password : Bytes) (cues : List Bytes)
      (namespace : Dict Json) (files : List FaceFileRecord) (f : Face Profile Binding)
      (after : Drive Profile Binding) : Type 0 where
    pub opens :
        retrieve_open_only s.platform s.layout password cues mode after.world
        ≡ (ok (some (encoded namespace, recovered_name namespace_name)), after.world)
    pub formatted : IsFormatted s.platform s.layout after.world
    pub sound : IsSound after.registry
    pub face :
        get_face_state_record path id after.registry
        ≡ some (accessed s.defaults s.services.utc_now (written namespace files) f)

  pub write_face_namespace_runs :
      (path id mode : String) (selector : Option String) (password : Bytes) (cues : List Bytes)
      (namespace : Dict Json) (files : List FaceFileRecord) (d : Drive Profile Binding)
      (f : Face Profile Binding)
      → IsSound d.registry
      → HasFace s path id d f
      → resolve_mode s selector ≡ ok mode
      → resolve_face_id s selector ≡ ok id
      → IsFormatted s.platform s.layout d.world
      → IsMode mode
      → Fits s.platform s.layout (encoded namespace) mode open_role namespace_name d.world.clock
      → namespace_file_records s.values s.scalars namespace ≡ ok files
      → (r : VesselRecord Profile Binding) × (after : Drive Profile Binding) × (write_face_namespace
            s path password none selector cues namespace d
          ≡ (ok r, after))
        × IsWritten path id mode password cues namespace files f after
  unfolding write_face_namespace encode_namespace
  write_face_namespace_runs path id mode selector password cues namespace files d f sound found
        mode_is id_is formatted im fits listed =
      let (t, stores, retrieves, kept) =
        slot_round_trip password (encoded namespace) cues namespace_name mode d.world formatted im
          fits in
      let (r, after, runs, world, face, sound') =
        touch_face_runs s path id (written namespace files) (record d { world = t }) f sound
          found in
      (
        r,
        after,
        ground (arith, mode_is, stores, listed, id_is, runs),
        record {
          opens =
              subst
                (λ w.
                  retrieve_open_only s.platform s.layout password cues mode w
                  ≡ (ok (some (encoded namespace, recovered_name namespace_name)), w))
                (sym world) retrieves;
          formatted = subst (IsFormatted s.platform s.layout) (sym world) kept;
          sound = sound';
          face = face;
        },
      )

  -- A namespace that is written to the open slot of a face is read back with the same passphrase and the same object, where
  -- the vault is formatted, the namespace fits the slot and the JSON codec reads what it wrote.
  pub read_face_namespace-write_face_namespace :
      (path id mode : String) (selector : Option String) (password : Bytes) (cues : List Bytes)
      (namespace : Dict Json) (files : List FaceFileRecord) (d : Drive Profile Binding)
      (f : Face Profile Binding)
      → IsSound d.registry
      → HasFace s path id d f
      → resolve_mode s selector ≡ ok mode
      → resolve_face_id s selector ≡ ok id
      → IsFormatted s.platform s.layout d.world
      → IsMode mode
      → Fits s.platform s.layout (encoded namespace) mode open_role namespace_name d.world.clock
      → IsNamespace s.values s.scalars namespace
      → s.codec.loads (s.codec.dumps (s.values.of_dict namespace))
        ≡ some (s.values.of_dict namespace)
      → namespace_file_records s.values s.scalars namespace ≡ ok files
      → (r : VesselRecord Profile Binding) × (after : Drive Profile Binding) × (write_face_namespace
            s path password none selector cues namespace d
          ≡ (ok r, after))
        × (read_face_namespace s path password selector cues after ≡ (ok namespace, after))
  read_face_namespace-write_face_namespace path id mode selector password cues namespace files d f
        sound found mode_is id_is formatted im fits n codec listed =
      let (r, after, runs, is) =
        write_face_namespace_runs path id mode selector password cues namespace files d f sound
          found mode_is id_is formatted im fits listed in
      (
        r,
        after,
        runs,
        read_face_namespace_opened path id mode selector password cues namespace
            (recovered_name namespace_name) after mode_is id_is n codec is.opens,
      )
