-- ===== src/FaceNamespace/Document.antt =====
-- services/vessel_workflow_service.py: the document of the files of a face, and its entries.
use phantasm.Base.{
  ℕ, suc, max, ◌≡◌, String, Bool, true, false, ◌&&◌, ◌||◌, Option, none, some, List, [], ◌∷◌, Bytes,
  length, str_eq, ltb, ◌==◌, if◌then◌else◌,
}
use phantasm.Base.Dict.{Dict, lookup, insert, erase}
use phantasm.Base.Int.{ℤ, pos, pos_part}
use phantasm.Base.Except.{Result, ok, err}
use phantasm.RegistrySeal.{Values, Codec}
use Prim.Native.Char.{code}

-- The exceptions of the workflows, with the fixed part of their message
pub data Raised : Type 0 where
  value_error : String → Raised
  type_error : Raised
  file_not_found : String → Raised
  permission_error : String → Raised
  runtime_error : String → Raised
  file_exists : String → Raised

pub record Scalars {Json : Type 0} (values : Values Json) : Type 0 where
  pub of_text : String → Json
  pub of_int : ℤ → Json
  -- `none` where it is no `str`
  pub as_text : Json → Option String
  -- `int(value)`
  pub int : Json → Result Raised ℤ
  pub b64encode : Bytes → String
  -- `base64.b64decode(text.encode("ascii"))`, `none` for ValueError
  pub b64decode : String → Option Bytes
  pub as_text-of_text : (s : String) → as_text (of_text s) ≡ some s
  pub str-of_text : (s : String) → values.str (of_text s) ≡ s
  pub int-of_int : (n : ℤ) → int (of_int n) ≡ ok n
  pub b64decode-b64encode : (b : Bytes) → b64decode (b64encode b) ≡ some b

pub record FaceFileRecord : Type 0 where
  pub name : String
  pub size : ℤ
  pub added_at : String

abbrev pub face_namespace_marker : String
face_namespace_marker = "phasmid-face-namespace-v1"

abbrev pub generated_plausibility_origin : String
generated_plausibility_origin = "generated_plausibility"

-- `x < y` of two texts, by code points
unfoldable pub str_ltb : String → String → Bool
str_ltb String.[] String.[] = false
str_ltb String.[] (String.◌∷◌ d t) = true
str_ltb (String.◌∷◌ c s) String.[] = false
str_ltb (String.◌∷◌ c s) (String.◌∷◌ d t) = ltb (code c) (code d) || code c == code d && str_ltb s t

-- `sorted(records, key=lambda record: record.name)`
unfoldable pub place : FaceFileRecord → List FaceFileRecord → List FaceFileRecord
place r [] = r ∷ []
place r (x ∷ xs) = if str_ltb x.name r.name then x ∷ place r xs else r ∷ x ∷ xs

unfoldable pub sorted : List FaceFileRecord → List FaceFileRecord
unfolding place
sorted [] = []
sorted (x ∷ xs) = place x (sorted xs)

abbrev pub is_called : String → FaceFileRecord → Bool
is_called name r = str_eq r.name name

-- An empty text counts as none.
abbrev pub truthy : Option String → Option String
truthy none = none
truthy (some s) = if str_eq s "" then none else some s

module _ {Json : Type 0} (values : Values Json) (scalars : Scalars values) where
  abbrev pub empty_dict : Json
  empty_dict = values.of_dict []

  abbrev pub empty_namespace : Dict Json
  empty_namespace = ("format", scalars.of_text face_namespace_marker) ∷ ("files", empty_dict) ∷ []

  -- `namespace.get("files", {})`, `none` where it is no dict
  unfoldable pub files_of : Dict Json → Option (Dict Json)
  files_of namespace = elim (lookup "files" namespace) [
    | none ↦ some []
    | some v ↦ values.as_dict v
  ]

  abbrev pub is_marker : Option Json → Bool
  is_marker none = false
  is_marker (some v) = elim (scalars.as_text v) [
    | none ↦ false
    | some s ↦ str_eq s face_namespace_marker
  ]

  abbrev pub is_dict : Option Json → Bool
  is_dict none = false
  is_dict (some v) = elim (values.as_dict v) [ none ↦ false | some d ↦ true ]

  abbrev pub legacy_name : Option String → String
  legacy_name none = "payload.bin"
  legacy_name (some s) = if str_eq s "" then "payload.bin" else s

  -- A payload that is stored in a slot without a namespace is the one file of a new one.
  abbrev pub legacy : Bytes → Option String → Dict Json
  legacy data_bytes filename =
      let name = legacy_name filename in
      let entry = values.of_dict (
        ("data_b64", scalars.of_text (scalars.b64encode data_bytes))
        ∷ ("size", scalars.of_int (pos (length data_bytes)))
        ∷ ("added_at", scalars.of_text "")
        ∷ []) in
      ("format", scalars.of_text face_namespace_marker)
      ∷ ("files", values.of_dict ((name, entry) ∷ []))
      ∷ []

  abbrev pub parsed : Codec values → Bytes → Option (Dict Json)
  parsed codec data_bytes = elim (codec.loads data_bytes) [
    | none ↦ none
    | some v ↦ values.as_dict v
  ]

  abbrev pub decoded : Bytes → Option String → Option (Dict Json) → Dict Json
  decoded data_bytes filename none = legacy data_bytes filename
  decoded data_bytes filename (some d) =
      if is_marker (lookup "format" d) && is_dict (lookup "files" d)
      then d
      else legacy data_bytes filename

  unfoldable pub decode_namespace : Codec values → Bytes → Option String → Dict Json
  decode_namespace codec data_bytes filename = decoded data_bytes filename (parsed codec data_bytes)

  unfoldable pub encode_namespace : Codec values → Dict Json → Bytes × String
  encode_namespace codec namespace = (codec.dumps (values.of_dict namespace), "face-namespace.bin")

  abbrev pub text_at : String → Dict Json → String
  text_at key item = elim (lookup key item) [ none ↦ "" | some v ↦ values.str v ]

  abbrev pub int_at : String → Dict Json → Result Raised ℤ
  int_at key item = elim (lookup key item) [ none ↦ ok (pos 0) | some v ↦ scalars.int v ]

  abbrev pub record_of : String → Dict Json → Result Raised ℤ → Result Raised FaceFileRecord
  record_of name item (err e) = err e
  record_of name item (ok size) =
      ok (record { name = name; size = size; added_at = text_at "added_at" item })

  abbrev pub and_then :
      Result Raised FaceFileRecord
      → Result Raised (List FaceFileRecord)
      → Result Raised (List FaceFileRecord)
  and_then (err e) rest = err e
  and_then (ok r) (err e) = err e
  and_then (ok r) (ok rest) = ok (r ∷ rest)

  -- The loop over `files.items()`
  abbrev pub records : Dict Json → Result Raised (List FaceFileRecord)
  records [] = ok []
  records ((name, v) ∷ files) =
      let rest = records files in
      elim (values.as_dict v) [
        | none ↦ rest
        | some item ↦ and_then (record_of name item (int_at "size" item)) rest
      ]

  abbrev pub sort_records :
      Result Raised (List FaceFileRecord) → Result Raised (List FaceFileRecord)
  sort_records (err e) = err e
  sort_records (ok rs) = ok (sorted rs)

  unfoldable pub namespace_file_records : Dict Json → Result Raised (List FaceFileRecord)
  namespace_file_records namespace = elim (files_of namespace) [
    | none ↦ ok []
    | some files ↦ sort_records (records files)
  ]

  -- `int(item.get("store_seq", 0))`, 0 where it raises
  abbrev pub store_seq : Dict Json → ℤ
  store_seq item = elim (int_at "store_seq" item) [ err e ↦ pos 0 | ok n ↦ n ]

  abbrev pub seq_of : Option (Dict Json) → ℕ
  seq_of none = 0
  seq_of (some item) = pos_part (store_seq item)

  abbrev pub highest : Dict Json → ℕ
  highest [] = 0
  highest ((name, v) ∷ files) = max (seq_of (values.as_dict v)) (highest files)

  unfoldable pub next_store_seq : Dict Json → ℕ
  next_store_seq files = suc (highest files)

  -- The entry that `add_payload` writes
  unfoldable pub manual_entry : Bytes → String → ℕ → Json
  manual_entry payload now seq = values.of_dict (
      ("data_b64", scalars.of_text (scalars.b64encode payload))
      ∷ ("size", scalars.of_int (pos (length payload)))
      ∷ ("added_at", scalars.of_text now)
      ∷ ("origin", scalars.of_text "manual")
      ∷ ("store_seq", scalars.of_int (pos seq))
      ∷ [])

  unfoldable pub generated_entry : Bytes → String → Json
  generated_entry payload now = values.of_dict (
      ("data_b64", scalars.of_text (scalars.b64encode payload))
      ∷ ("size", scalars.of_int (pos (length payload)))
      ∷ ("added_at", scalars.of_text now)
      ∷ ("origin", scalars.of_text generated_plausibility_origin)
      ∷ [])

  -- `namespace["files"] = files`
  abbrev pub with_files : Dict Json → Dict Json → Dict Json
  with_files files namespace = insert "files" (values.of_dict files) namespace

  -- `files[name] = {…}` of `add_payload`
  unfoldable pub add_entry : String → Bytes → String → Dict Json → Result Raised (Dict Json)
  unfolding files_of next_store_seq manual_entry
  add_entry name payload now namespace = elim (files_of namespace) [
    | none ↦ err (value_error "face namespace is invalid")
    | some files ↦
        ok (
          with_files (insert name (manual_entry payload now (next_store_seq files)) files)
            namespace)
  ]

  -- `del files[stored_name]` of `remove_file`
  unfoldable pub remove_entry : String → Dict Json → Result Raised (Dict Json)
  unfolding files_of
  remove_entry name namespace = elim (files_of namespace) [
    | none ↦ err (file_not_found "file not found in selected face")
    | some files ↦ elim (lookup name files) [
      | none ↦ err (file_not_found "file not found in selected face")
      | some v ↦ ok (with_files (erase name files) namespace)
    ]
  ]

  -- `isinstance(item, dict) and str(item.get("origin", "")) == …`
  unfoldable pub is_generated : Json → Bool
  is_generated v = elim (values.as_dict v) [
    | none ↦ false
    | some item ↦ str_eq (text_at "origin" item) generated_plausibility_origin
  ]

  -- The loop of `clear_dummy_profile` and `generate_dummy_profile`
  unfoldable pub without_generated : Dict Json → Dict Json
  unfolding is_generated
  without_generated [] = []
  without_generated ((name, v) ∷ files) =
      let rest = without_generated files in if is_generated v then rest else (name, v) ∷ rest
