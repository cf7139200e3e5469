-- ===== src/RegistrySeal.antt =====
-- services/vessel_registry_seal.py: how a record of the vessel registry is split into the half that
-- stays readable and the half that is sealed, how the two are joined again, and the sealed file. The
-- file system refuses nothing.
pub mod Disclosure
pub mod Rejoin
pub mod Fallback
mod Tests
pub mod Sample
use phantasm.Base.{
  ℕ, ◌≡◌, String, Bool, true, false, not, ◌&&◌, ◌||◌, Option, none, some, List, [], ◌∷◌, ◌++◌,
  Bytes, map, codes, str_eq, if◌then◌else◌,
}
use phantasm.Base.Dict.{Dict, lookup, insert, update, contains}
use phantasm.Base.Except.{Result, ok, err, pure, modify, lift, ◌>>=◌}
use phantasm.Storage.{Error, os_error, value_error, json_decode_error, unicode_decode_error}
use phantasm.Platform.{Platform}
use phantasm.LocalState.{Files, State, Secrets, LocalStateCipher, encrypt, decrypt}

abbrev pub sealed_face_fields : List String
sealed_face_fields =
    "label" ∷ "last_accessed" ∷ "occupancy" ∷ "file_count" ∷ "status" ∷ "credentials_initialized"
    ∷ "object_binding_initialized" ∷ "dummy_profile" ∷ "object_binding" ∷ "emergency_auth" ∷ []

abbrev pub sealed_record_fields : List String
sealed_record_fields = "active_face_id" ∷ []

abbrev pub derived_record_fields : List String
derived_record_fields = "face_labels" ∷ "dummy_profile" ∷ []

-- The values of the interpreter: what is a dict or a list, and `str` of a value
pub record Values (Json : Type 0) : Type 0 where
  pub of_dict : Dict Json → Json
  pub of_list : List Json → Json
  -- `none` where it is no dict, or no list
  pub as_dict : Json → Option (Dict Json)
  pub as_list : Json → Option (List Json)
  pub as_dict-of_dict : (d : Dict Json) → as_dict (of_dict d) ≡ some d
  pub as_list-of_list : (xs : List Json) → as_list (of_list xs) ≡ some xs
  pub str : Json → String

-- `key in keys`
unfoldable pub among : List String → String → Bool
among [] key = false
among (k ∷ ks) key = str_eq k key || among ks key

module _ {V : Type 0} where
  -- `{k: v for k, v in d.items() if k not in keys}`
  unfoldable pub without : List String → Dict V → Dict V
  without keys [] = []
  without keys ((k, v) ∷ d) =
      let rest = without keys d in if among keys k then rest else (k, v) ∷ rest

  abbrev with_key : String → Option V → Dict V → Dict V
  with_key k none rest = rest
  with_key k (some v) rest = (k, v) ∷ rest

  -- `{k: d[k] for k in keys if k in d}`
  unfoldable pub only : List String → Dict V → Dict V
  only [] d = []
  only (k ∷ ks) d = with_key k (lookup k d) (only ks d)

  -- `any(k in d for k in keys)`
  unfoldable pub has_any : List String → Dict V → Bool
  has_any [] d = false
  has_any (k ∷ ks) d = contains k d || has_any ks d

module _ {Json : Type 0} (values : Values Json) where
  abbrev pub face_id : Dict Json → String
  face_id face = elim (lookup "face_id" face) [ none ↦ "" | some v ↦ values.str v ]

  abbrev list_at : String → Dict Json → Option (List Json)
  list_at key d = elim (lookup key d) [ none ↦ some [] | some v ↦ values.as_list v ]

  -- The readable faces and the details of the faces, so far
  abbrev Halves : Type 0
  Halves = List Json × Dict Json

  abbrev split_face : Option (Dict Json) → Halves → Halves
  split_face none halves = halves
  split_face (some face) (readable, details) =
      if str_eq (face_id face) "" then (readable, details) else (
        readable ++ (values.of_dict (without sealed_face_fields face) ∷ []),
        insert (face_id face) (values.of_dict (only sealed_face_fields face)) details,
      )

  abbrev pub split_faces : List Json → Halves → Halves
  split_faces [] halves = halves
  split_faces (face ∷ faces) halves = split_faces faces (split_face (values.as_dict face) halves)

  abbrev raw_faces : Dict Json → List Json
  raw_faces d = elim (list_at "faces" d) [ none ↦ [] | some faces ↦ faces ]

  unfoldable pub split_record : Dict Json → Dict Json × Dict Json
  split_record r =
      let (readable, details) = split_faces (raw_faces r) ([], []) in
      (
        insert "faces" (values.of_list readable)
            (without (sealed_record_fields ++ (derived_record_fields ++ ("faces" ∷ []))) r),
        update (("faces", values.of_dict details) ∷ []) (only sealed_record_fields r),
      )

  -- A sealed detail of its id is laid over the face; what is no dict is left out.
  abbrev merge_face : Dict Json → Option (Dict Json) → List Json → List Json
  merge_face details none rest = rest
  merge_face details (some face) rest = elim (lookup (face_id face) details) [
    | none ↦ values.of_dict face ∷ rest
    | some v ↦ elim (values.as_dict v) [
      | none ↦ values.of_dict face ∷ rest
      | some detail ↦ values.of_dict (update face detail) ∷ rest
    ]
  ]

  abbrev pub merge_faces : Dict Json → List Json → List Json
  merge_faces details [] = []
  merge_faces details (face ∷ faces) =
      merge_face details (values.as_dict face) (merge_faces details faces)

  abbrev dict_at : String → Dict Json → Option (Dict Json)
  dict_at key d = elim (lookup key d) [ none ↦ none | some v ↦ values.as_dict v ]

  -- A missing key is no list here.
  abbrev own_list_at : String → Dict Json → Option (List Json)
  own_list_at key d = elim (lookup key d) [ none ↦ none | some v ↦ values.as_list v ]

  abbrev merge_sealed : Dict Json → Dict Json → Dict Json
  merge_sealed readable sealed =
      let merged = update readable (only sealed_record_fields sealed) in
      elim (dict_at "faces" sealed) [
        | none ↦ merged
        | some details ↦ elim (own_list_at "faces" merged) [
          | none ↦ merged
          | some faces ↦ insert "faces" (values.of_list (merge_faces details faces)) merged
        ]
      ]

  -- The sealed half is `none` where it is no dict.
  unfoldable pub merge_record : Dict Json → Option (Dict Json) → Dict Json
  merge_record readable none = readable
  merge_record readable (some sealed) = merge_sealed readable sealed

  abbrev carries_face : Option (Dict Json) → Bool
  carries_face none = false
  carries_face (some face) = has_any sealed_face_fields face

  abbrev any_carries : List Json → Bool
  any_carries [] = false
  any_carries (face ∷ faces) = carries_face (values.as_dict face) || any_carries faces

  abbrev carries : Dict Json → Bool
  carries r =
      if has_any sealed_record_fields r
      then true
      else elim (list_at "faces" r) [ none ↦ false | some faces ↦ any_carries faces ]

  unfoldable pub record_carries_sealed_fields : Json → Bool
  record_carries_sealed_fields v = elim (values.as_dict v) [ none ↦ false | some r ↦ carries r ]

  abbrev pub seal_cipher : LocalStateCipher
  seal_cipher = record {
    aad = codes "phasmid-vessel-registry-v1:vessel_registry.bin";
    local_key_suffix = none;
  }

  -- `json.dumps(…, sort_keys=True)` and `json.loads`, none for ValueError
  pub record Codec : Type 0 where
    pub dumps : Json → Bytes
    pub loads : Bytes → Option Json

  module _ (env : Platform) (secrets : Secrets) (codec : Codec) where
    abbrev entries : Dict Json → Dict Json
    entries [] = []
    entries ((path, v) ∷ d) =
        let rest = entries d in elim (values.as_dict v) [ none ↦ rest | some e ↦ (path, v) ∷ rest ]

    abbrev vessels_of : Option Json → Dict Json
    vessels_of none = []
    vessels_of (some document) = elim (values.as_dict document) [
      | none ↦ []
      | some d ↦ elim (dict_at "vessels" d) [ none ↦ [] | some vessels ↦ entries vessels ]
    ]

    abbrev pub degraded : Result Error Bytes → Result Error (Dict Json)
    degraded (ok plaintext) = ok (vessels_of (codec.loads plaintext))
    degraded (err os_error) = ok []
    degraded (err (value_error message)) = ok []
    degraded (err json_decode_error) = ok []
    degraded (err unicode_decode_error) = ok []
    degraded (err e) = err e

    abbrev degraded_read : Result Error Bytes × Files → Result Error (Dict Json) × Files
    degraded_read (r, s) = (degraded r, s)

    unfoldable pub load : State (Dict Json)
    load s = elim s.blob [
      | none ↦ (ok [], s)
      | some payload ↦ degraded_read (
          decrypt env secrets seal_cipher payload "sealed registry blob is truncated"
            "sealed registry blob failed authentication" s)
    ]

    unfoldable pub save : Dict Json → State (Unit {0})
    save sealed =
        encrypt env secrets seal_cipher
          (codec.dumps (values.of_dict (("vessels", values.of_dict sealed) ∷ [])))
        >>= λ blob. modify (λ s. record s { blob = some blob })

    unfoldable pub discard : State (Unit {0})
    discard = modify (λ s. record s { blob = none })
