-- ===== src/FaceNamespace/Entries.antt =====
-- services/vessel_workflow_service.py: the entries of a namespace, as they are written, read back and removed.
use phantasm.Base.{
  ℕ, ◌<◌, ◌≤◌, ◌≡◌, refl, ◌∙◌, inl, inr, String, true, false, ◌&&◌, Option, none, some, [], ◌∷◌,
  Bytes, length, str_eq, arith, eq_iff, eq_refl, Bool-cases, Option-cases, if◌then◌else◌,
}
use phantasm.Base.Dict.{Dict, lookup, insert, erase, lookup-insert}
use phantasm.Base.Int.{pos, pos_part}
use phantasm.Base.Except.{ok, err}
use phantasm.RegistrySeal.{Values, Codec}
use phantasm.FaceNamespace.{
  Scalars, FaceFileRecord, face_namespace_marker, decode_namespace, encode_namespace,
  empty_namespace, files_of, with_files, add_entry, remove_entry, manual_entry, next_store_seq,
  store_seq, highest, file_data, file_not_found, legacy, decoded, parsed, is_marker, is_dict,
}

module _ {Json : Type 0} (values : Values Json) (scalars : Scalars values) where
  -- A document that `decode_namespace` takes for a namespace
  pub record IsNamespace (namespace : Dict Json) : Type 0 where
    pub format : Json
    pub has_format : lookup "format" namespace ≡ some format
    pub marker : scalars.as_text format ≡ some face_namespace_marker
    pub files_value : Json
    pub has_files : lookup "files" namespace ≡ some files_value
    pub files : Dict Json
    pub files_dict : values.as_dict files_value ≡ some files

  pub with_files-IsNamespace :
      (files namespace : Dict Json)
      → IsNamespace namespace
      → IsNamespace (with_files values scalars files namespace)
  with_files-IsNamespace files namespace n = record {
    format = n.format;
    has_format = lookup-insert "files" "format" _ namespace ∙ n.has_format;
    marker = n.marker;
    files_value = values.of_dict files;
    has_files = lookup-insert "files" "files" _ namespace;
    files = files;
    files_dict = values.as_dict-of_dict files;
  }

  pub empty_namespace-IsNamespace : IsNamespace (empty_namespace values scalars)
  unfolding lookup
  empty_namespace-IsNamespace = record {
    format = scalars.of_text face_namespace_marker;
    has_format = refl;
    marker = scalars.as_text-of_text face_namespace_marker;
    files_value = values.of_dict [];
    has_files = refl;
    files = [];
    files_dict = values.as_dict-of_dict [];
  }

  pub files_of-with_files :
      (files namespace : Dict Json)
      → files_of values scalars (with_files values scalars files namespace) ≡ some files
  unfolding files_of
  files_of-with_files files namespace =
      let found = lookup-insert "files" "files" (values.of_dict files) namespace in
      ground (arith, found, values.as_dict-of_dict files)

  -- A namespace that is written is read back as it was, where the JSON codec reads what it wrote.
  pub decode_namespace-encode_namespace :
      (codec : Codec values) (namespace : Dict Json) (filename : Option String)
      → IsNamespace namespace
      → codec.loads (codec.dumps (values.of_dict namespace)) ≡ some (values.of_dict namespace)
      → decode_namespace values scalars codec
          (encode_namespace values scalars codec namespace).0
          filename
        ≡ namespace
  unfolding decode_namespace encode_namespace
  decode_namespace-encode_namespace codec namespace filename n h = ground (
    arith,
    h,
    values.as_dict-of_dict namespace,
    n.has_format,
    n.marker,
    n.has_files,
    n.files_dict,
    eq_refl face_namespace_marker,
  )

  here :
      (i : String) (w : Json) (files : Dict Json) (name : String) (v : Json) (item : Dict Json)
      → values.as_dict v ≡ some item
      → w ≡ v
      → pos_part (store_seq values scalars item) ≤ highest values scalars ((i, w) ∷ files)
  here i w files name v item k h = ground (arith, k, h)

  legacy-IsNamespace :
      (data_bytes : Bytes) (filename : Option String)
      → IsNamespace (legacy values scalars data_bytes filename)
  unfolding lookup
  legacy-IsNamespace data_bytes filename = record {
    format = scalars.of_text face_namespace_marker;
    has_format = refl;
    marker = scalars.as_text-of_text face_namespace_marker;
    files_value = _;
    has_files = refl;
    files = _;
    files_dict = values.as_dict-of_dict _;
  }

  is_marker_sound :
      (o : Option Json)
      → is_marker values scalars o ≡ true
      → (v : Json) × (o ≡ some v) × (scalars.as_text v ≡ some face_namespace_marker)
  is_marker_sound none h = cc
  is_marker_sound (some v) h = elim (Option-cases (scalars.as_text v)) [
    | inl t ↦ absurd (ground (arith, t, h))
    | inr (s, t) ↦ (v, refl, ground (arith, t, h, eq_iff s face_namespace_marker))
  ]

  is_dict_sound :
      (o : Option Json)
      → is_dict values scalars o ≡ true
      → (v : Json) × (o ≡ some v) × ((d : Dict Json) × (values.as_dict v ≡ some d))
  is_dict_sound none h = cc
  is_dict_sound (some v) h = elim (Option-cases (values.as_dict v)) [
    | inl t ↦ absurd (ground (arith, t, h))
    | inr (d, t) ↦ (v, refl, (d, t))
  ]

  checked-IsNamespace :
      (d : Dict Json)
      → is_marker values scalars (lookup "format" d) ≡ true
      → is_dict values scalars (lookup "files" d) ≡ true
      → IsNamespace d
  checked-IsNamespace d h k =
      let (format, has_format, marker) = is_marker_sound (lookup "format" d) h in
      let (files_value, has_files, (files, files_dict)) = is_dict_sound (lookup "files" d) k in
      record {
        format = format;
        has_format = has_format;
        marker = marker;
        files_value = files_value;
        has_files = has_files;
        files = files;
        files_dict = files_dict;
      }

  decoded-IsNamespace :
      (data_bytes : Bytes) (filename : Option String) (d : Option (Dict Json))
      → IsNamespace (decoded values scalars data_bytes filename d)
  decoded-IsNamespace data_bytes filename none = legacy-IsNamespace data_bytes filename
  decoded-IsNamespace data_bytes filename (some d) =
      elim (is_marker values scalars (lookup "format" d))
          as (λ b.
            is_marker values scalars (lookup "format" d) ≡ b
            → IsNamespace (
                if b && is_dict values scalars (lookup "files" d)
                then d
                else legacy values scalars data_bytes filename)) [
                  | false ↦ λ h. legacy-IsNamespace data_bytes filename
                  | true ↦ λ h.
                      elim (is_dict values scalars (lookup "files" d))
                          as (λ b.
                            is_dict values scalars (lookup "files" d) ≡ b
                            → IsNamespace
                                (if b then d else legacy values scalars data_bytes filename)) [
                                  | false ↦ λ k. legacy-IsNamespace data_bytes filename
                                  | true ↦ λ k. checked-IsNamespace d h k
                                ]
                        refl
                ]
        refl

  -- The number of the next entry is above that of every entry there is.
  pub store_seq-lt-next_store_seq :
      (files : Dict Json) (name : String) (v : Json) (item : Dict Json)
      → lookup name files ≡ some v
      → values.as_dict v ≡ some item
      → pos_part (store_seq values scalars item) < next_store_seq values scalars files
  unfolding next_store_seq lookup
  store_seq-lt-next_store_seq [] name v item h k = absurd cc
  store_seq-lt-next_store_seq ((i, w) ∷ files) name v item h k = elim (Bool-cases (str_eq i name)) [
    | inl t ↦ ground (arith, here i w files name v item k (ground (arith, t, h)))
    | inr t ↦ ground (arith, store_seq-lt-next_store_seq files name v item (ground (arith, t, h)) k)
  ]

  -- An entry that `add_payload` wrote gives its payload back.
  pub file_data-manual_entry :
      (files : Dict Json) (r : FaceFileRecord) (payload : Bytes) (now : String) (seq : ℕ)
      → lookup r.name files ≡ some (manual_entry values scalars payload now seq)
      → file_data values scalars files r ≡ ok payload
  unfolding file_data manual_entry lookup
  file_data-manual_entry files r payload now seq h = ground (
    arith,
    h,
    values.as_dict-of_dict (
        ("data_b64", scalars.of_text (scalars.b64encode payload))
        ∷ ("size", scalars.of_int (pos (length payload)))
        ∷ ("added_at", scalars.of_text now)
        ∷ ("origin", scalars.of_text "manual")
        ∷ ("store_seq", scalars.of_int (pos seq))
        ∷ []),
    scalars.str-of_text (scalars.b64encode payload),
    scalars.b64decode-b64encode payload,
  )

  -- The files after an entry is added, and after one is removed
  pub add_entry_runs :
      (name : String) (payload : Bytes) (now : String) (namespace files : Dict Json)
      → files_of values scalars namespace ≡ some files
      → add_entry values scalars name payload now namespace
        ≡ ok (
            with_files values scalars
              (insert name
                (manual_entry values scalars payload now (next_store_seq values scalars files))
                files)
              namespace)
  unfolding add_entry
  add_entry_runs name payload now namespace files h = ground (arith, h)

  pub remove_entry_runs :
      (name : String) (namespace files : Dict Json) (v : Json)
      → files_of values scalars namespace ≡ some files
      → lookup name files ≡ some v
      → remove_entry values scalars name namespace
        ≡ ok (with_files values scalars (erase name files) namespace)
  unfolding remove_entry
  remove_entry_runs name namespace files v h k = ground (arith, h, k)

  pub remove_entry_missing :
      (name : String) (namespace files : Dict Json)
      → files_of values scalars namespace ≡ some files
      → lookup name files ≡ none
      → remove_entry values scalars name namespace
        ≡ err (file_not_found "file not found in selected face")
  unfolding remove_entry
  remove_entry_missing name namespace files h k = ground (arith, h, k)

  -- What is decoded is always a namespace.
  pub decode_namespace-IsNamespace :
      (codec : Codec values) (data_bytes : Bytes) (filename : Option String)
      → IsNamespace (decode_namespace values scalars codec data_bytes filename)
  unfolding decode_namespace
  decode_namespace-IsNamespace codec data_bytes filename =
      decoded-IsNamespace data_bytes filename (parsed values scalars codec data_bytes)
