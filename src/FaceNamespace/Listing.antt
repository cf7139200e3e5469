-- ===== src/FaceNamespace/Listing.antt =====
-- services/vessel_workflow_service.py: the listing of a namespace, and the file that is chosen from it by its name.
use phantasm.Base.{
  ◌≡◌, refl, sym, inl, inr, String, Bool, true, false, not, Option, none, some, List, [], ◌∷◌,
  str_eq, arith, eq_iff, Bool-cases, Option-cases,
}
use mathlib.Core.Path.{subst}
use phantasm.Base.Dict.{Dict, lookup}
use phantasm.Base.Int.{ℤ}
use phantasm.Base.Find.{find_first, filter, find_first_sound}
use phantasm.Base.Except.{ok, Result-cases}
use phantasm.RegistrySeal.{Values}
use phantasm.FaceNamespace.{
  Scalars, FaceFileRecord, files_of, namespace_file_records, records, int_at, place, sorted,
  str_ltb, text_at, is_called, choose, operator_files, if_empty, has_generated_origin,
}

-- An item that passes a test is there.
abbrev pub IsThere : (FaceFileRecord → Bool) → List FaceFileRecord → Type 0
IsThere p rs = (r : FaceFileRecord) × (find_first p rs ≡ some r)

place_new :
    (p : FaceFileRecord → Bool) (x : FaceFileRecord) (rs : List FaceFileRecord)
    → p x ≡ true
    → IsThere p (place x rs)
unfolding find_first place
place_new p x [] h = (x, ground (arith, h))
place_new p x (y ∷ rs) h = elim (Bool-cases (str_ltb y.name x.name)) [
  | inr t ↦ (x, ground (arith, h, t))
  | inl t ↦ elim (Bool-cases (p y)) [
    | inl k ↦ (y, ground (arith, t, k))
    | inr k ↦ let (r, found) = place_new p x rs h in (r, ground (arith, t, k, found))
  ]
]

place_old :
    (p : FaceFileRecord → Bool) (x : FaceFileRecord) (rs : List FaceFileRecord)
    → IsThere p rs
    → IsThere p (place x rs)
unfolding find_first place
place_old p x [] h = absurd (cc h.1)
place_old p x (y ∷ rs) (r, h) = elim (Bool-cases (p x)) [
  | inl t ↦ place_new p x (y ∷ rs) t
  | inr t ↦ elim (Bool-cases (str_ltb y.name x.name)) [
    | inr u ↦ (r, ground (arith, h, t, u))
    | inl u ↦ elim (Bool-cases (p y)) [
      | inl k ↦ (y, ground (arith, u, k))
      | inr k ↦
          let (q, found) = place_old p x rs (r, ground (arith, h, k)) in
          (q, ground (arith, u, k, found))
    ]
  ]
]

-- Sorting keeps what is there.
pub sorted-IsThere :
    (p : FaceFileRecord → Bool) (rs : List FaceFileRecord) → IsThere p rs → IsThere p (sorted rs)
unfolding sorted find_first
sorted-IsThere p [] h = h
sorted-IsThere p (x ∷ rs) (r, h) = elim (Bool-cases (p x)) [
  | inl t ↦ place_new p x (sorted rs) t
  | inr t ↦ place_old p x (sorted rs) (sorted-IsThere p rs (r, ground (arith, h, t)))
]

module _ {Json : Type 0} (values : Values Json) (scalars : Scalars values) where
  abbrev pub made : String → Dict Json → ℤ → FaceFileRecord
  made name item size = record {
    name = name;
    size = size;
    added_at = text_at values scalars "added_at" item;
  }

  pub records_step :
      (i : String) (w : Json) (it files : Dict Json) (rs : List FaceFileRecord)
      → values.as_dict w ≡ some it
      → records values scalars ((i, w) ∷ files) ≡ ok rs
      → (size : ℤ) × (rest : List FaceFileRecord) × (int_at values scalars "size" it ≡ ok size)
        × (records values scalars files ≡ ok rest)
        × (rs ≡ made i it size ∷ rest)
  records_step i w it files rs t h = elim (Result-cases (int_at values scalars "size" it)) [
    | inr (e, u) ↦ absurd (ground (arith, h, t, u))
    | inl (size, u) ↦ elim (Result-cases (records values scalars files)) [
      | inr (e, k) ↦ absurd (ground (arith, h, t, u, k))
      | inl (rest, k) ↦ (size, rest, u, k, ground (arith, h, t, u, k))
    ]
  ]

  later :
      (i : String) (w : Json) (files : Dict Json) (name : String) (v : Json) (item : Dict Json)
      → values.as_dict w ≡ none
      → lookup name ((i, w) ∷ files) ≡ some v
      → values.as_dict v ≡ some item
      → lookup name files ≡ some v
  unfolding lookup
  later i w files name v item t k e = ground (arith, t, k, e)

  -- Every entry that is a dict is listed under its name, where the sizes are numbers.
  records-IsThere :
      (files : Dict Json) (rs : List FaceFileRecord) (name : String) (v : Json) (item : Dict Json)
      → records values scalars files ≡ ok rs
      → lookup name files ≡ some v
      → values.as_dict v ≡ some item
      → IsThere (is_called name) rs
  unfolding lookup find_first
  records-IsThere [] rs name v item h k e = absurd (cc k)
  records-IsThere ((i, w) ∷ files) rs name v item h k e = elim (Option-cases (values.as_dict w)) [
    | inl t ↦
        records-IsThere files rs name v item (ground (arith, h, t))
          (later i w files name v item t k e) e
    | inr (it, t) ↦
        let (size, rest, _, below, is) = records_step i w it files rs t h in
        elim (Bool-cases (str_eq i name)) [
          | inl u ↦ (made i it size, ground (arith, is, u))
          | inr u ↦
              let (r, found) =
                records-IsThere files rest name v item below (ground (arith, u, k)) e in
              (r, ground (arith, is, u, found))
        ]
  ]

  -- A listing that returns is that of the entries, sorted.
  pub listed_records :
      (namespace files : Dict Json) (rs : List FaceFileRecord)
      → files_of values scalars namespace ≡ some files
      → namespace_file_records values scalars namespace ≡ ok rs
      → (unsorted : List FaceFileRecord) × (records values scalars files ≡ ok unsorted)
        × (rs ≡ sorted unsorted)
  unfolding namespace_file_records
  listed_records namespace files rs is h = elim (Result-cases (records values scalars files)) [
    | inr (e, k) ↦ absurd (ground (arith, is, h, k))
    | inl (unsorted, k) ↦ (unsorted, k, ground (arith, is, h, k))
  ]

  pub listed-IsThere :
      (namespace files : Dict Json) (rs : List FaceFileRecord) (name : String) (v : Json)
      (item : Dict Json)
      → files_of values scalars namespace ≡ some files
      → namespace_file_records values scalars namespace ≡ ok rs
      → lookup name files ≡ some v
      → values.as_dict v ≡ some item
      → IsThere (is_called name) rs
  listed-IsThere namespace files rs name v item is h k e =
      let (unsorted, read, same) = listed_records namespace files rs is h in
      subst (IsThere (is_called name)) (sym same) (
        sorted-IsThere (is_called name) unsorted
          (records-IsThere files unsorted name v item read k e))

  if_empty_full :
      (xs rs : List FaceFileRecord) (p : FaceFileRecord → Bool)
      → IsThere p rs
      → (y : FaceFileRecord) × (ys : List FaceFileRecord) × (if_empty values scalars xs rs ≡ y ∷ ys)
  unfolding find_first
  if_empty_full [] [] p h = absurd (cc h.1)
  if_empty_full [] (y ∷ ys) p h = (y, ys, refl)
  if_empty_full (x ∷ xs) rs p h = (x, xs, refl)

  -- A file that is asked for by its name is the one that is chosen.
  pub choose_named :
      (name : String) (output : Option String) (files : Dict Json) (rs : List FaceFileRecord)
      → str_eq name "" ≡ false
      → IsThere (is_called name) rs
      → (r : FaceFileRecord) × (choose values scalars (some name) output files rs ≡ ok r)
        × (r.name ≡ name)
  unfolding choose operator_files
  choose_named name output files rs named (r, h) =
      let (y, ys, full) =
        if_empty_full (filter (λ r. not (has_generated_origin values scalars files r)) rs) rs
          (is_called name) (r, h) in
      (
        r,
        ground (arith, full, named, h),
        (eq_iff r.name name).0 (find_first_sound (is_called name) rs r h),
      )
