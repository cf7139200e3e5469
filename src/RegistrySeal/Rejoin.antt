-- ===== src/RegistrySeal/Rejoin.antt =====
-- A record that is split and joined again: it has the values that it had, in another order of the keys.
use phantasm.Base.{
  eq_iff, eq_refl, ◌≡◌, refl, sym, ◌∙◌, ap, String, false, Option-cases, none, some, List, [], ◌∷◌,
  ◌++◌, str_eq, if◌then◌else◌, arith, inl, inr, append_assoc, append-nil,
}
use phantasm.Base.Dict.{Dict, lookup, insert, update, lookup-insert}
use phantasm.RegistrySeal.{
  Values, among, without, only, sealed_face_fields, sealed_record_fields, derived_record_fields,
  split_face, split_faces, split_record, raw_faces, face_id, merge_face, merge_faces, merge_record,
}
use phantasm.RegistrySeal.Disclosure.{lookup-without}

module _ {V : Type 0} where
  -- The two have the same values under every key.
  unfoldable pub Same : Dict V → Dict V → Type 0
  Same d e = (k : String) → lookup k d ≡ lookup k e

  -- Laying the fields that were taken out of a dict over another gives them back.
  pub lookup-update-only :
      (k : String) (ks : List String) (d e : Dict V)
      → lookup k (update e (only ks d)) ≡ (
          if among ks k
          then elim (lookup k d) [ none ↦ lookup k e | some v ↦ some v ]
          else lookup k e)
  unfolding only update among
  lookup-update-only k [] d e = refl
  lookup-update-only k (j ∷ ks) d e = elim (Option-cases (lookup j d)) [
    | inl absent ↦ ground (arith, absent, lookup-update-only k ks d e, eq_iff j k)
    | inr (v, there) ↦
        ground (
          arith,
          there,
          lookup-update-only k ks d (insert j v e),
          lookup-insert j k v e,
          eq_iff j k,
        )
  ]

  pub update-only-without :
      (ks : List String) (d : Dict V) → Same (update (without ks d) (only ks d)) d
  unfolding Same
  update-only-without ks d k =
      ground (arith, lookup-update-only k ks d (without ks d), lookup-without k ks d)

not_faces :
    (k : String) → among ("faces" ∷ derived_record_fields) k ≡ false → str_eq "faces" k ≡ false
unfolding among
not_faces k plain = ground (arith, plain)

module _ {Json : Type 0} (values : Values Json) where
  abbrev pub faces_of : List (Dict Json) → List Json
  faces_of [] = []
  faces_of (f ∷ fs) = values.of_dict f ∷ faces_of fs

  abbrev ids : List (Dict Json) → List String
  ids [] = []
  ids (f ∷ fs) = face_id values f ∷ ids fs

  -- Every face has an identifier, and no two have the same.
  unfoldable pub Identified : List (Dict Json) → Type 0
  Identified [] = Unit
  Identified (f ∷ fs) =
      (str_eq (face_id values f) "" ≡ false)
      × (among (ids fs) (face_id values f) ≡ false)
      × Identified fs

  -- The list has a dict for each face, with the same values.
  pub SameFaces : List Json → List (Dict Json) → Type 0
  SameFaces [] [] = Unit
  SameFaces [] (f ∷ fs) = ⊥
  SameFaces (j ∷ js) [] = ⊥
  SameFaces (j ∷ js) (f ∷ fs) =
      ((g : Dict Json) × (values.as_dict j ≡ some g) × Same g f) × SameFaces js fs

  readable_faces : List (Dict Json) → List Json
  readable_faces [] = []
  readable_faces (f ∷ fs) = values.of_dict (without sealed_face_fields f) ∷ readable_faces fs

  details_of : List (Dict Json) → Dict Json → Dict Json
  details_of [] d = d
  details_of (f ∷ fs) d =
      details_of fs (insert (face_id values f) (values.of_dict (only sealed_face_fields f)) d)

  split_faces-Identified :
      (fs : List (Dict Json)) (xs : List Json) (d : Dict Json)
      → Identified fs
      → split_faces values (faces_of fs) (xs, d) ≡ (xs ++ readable_faces fs, details_of fs d)
  unfolding Identified readable_faces details_of
  split_faces-Identified [] xs d named = ap (λ x. (x, d)) (sym (append-nil xs))
  split_faces-Identified (f ∷ fs) xs d (named, apart, rest) =
      let left = values.of_dict (without sealed_face_fields f) in
      let more = insert (face_id values f) (values.of_dict (only sealed_face_fields f)) d in
      ap (λ o. split_faces values (faces_of fs) (split_face values o (xs, d)))
        (values.as_dict-of_dict f)
      ∙ (ap (λ b. split_faces values (faces_of fs) (if b then (xs, d) else (xs ++ left ∷ [], more)))
            named
          ∙ (split_faces-Identified fs (xs ++ left ∷ []) more rest
              ∙ ap (λ x. (x, details_of fs more))
                  (append_assoc xs (left ∷ []) (readable_faces fs))))

  details_of-other :
      (i : String) (fs : List (Dict Json)) (d : Dict Json)
      → among (ids fs) i ≡ false
      → lookup i (details_of fs d) ≡ lookup i d
  unfolding details_of among
  details_of-other i [] d apart = refl
  details_of-other i (f ∷ fs) d apart =
      let detail = values.of_dict (only sealed_face_fields f) in
      ground (
        arith,
        apart,
        details_of-other i fs (insert (face_id values f) detail d),
        lookup-insert (face_id values f) i detail d,
      )

  -- The details hold those of each face under its identifier.
  Found : Dict Json → List (Dict Json) → Type 0
  Found d [] = Unit
  Found d (f ∷ fs) =
      (lookup (face_id values f) d ≡ some (values.of_dict (only sealed_face_fields f))) × Found d fs

  details_of-Found :
      (fs : List (Dict Json)) (d : Dict Json) → Identified fs → Found (details_of fs d) fs
  unfolding Identified details_of Found
  details_of-Found [] d named = tt
  details_of-Found (f ∷ fs) d (named, apart, rest) =
      let i = face_id values f in
      let detail = values.of_dict (only sealed_face_fields f) in
      (
        details_of-other i fs (insert i detail d) apart
            ∙ (lookup-insert i i detail d ∙ rw (eq_refl i) refl),
        details_of-Found fs (insert i detail d) rest,
      )

  face_id-without :
      (f : Dict Json) → face_id values (without sealed_face_fields f) ≡ face_id values f
  unfolding among
  face_id-without f = ground (arith, lookup-without "face_id" sealed_face_fields f)

  merge_face_step :
      (d f : Dict Json) (rest : List Json)
      → lookup (face_id values f) d ≡ some (values.of_dict (only sealed_face_fields f))
      → merge_face values d (values.as_dict (values.of_dict (without sealed_face_fields f))) rest
        ≡ values.of_dict (update (without sealed_face_fields f) (only sealed_face_fields f)) ∷ rest
  merge_face_step d f rest found = ground (
    arith,
    values.as_dict-of_dict (without sealed_face_fields f),
    values.as_dict-of_dict (only sealed_face_fields f),
    face_id-without f,
    found,
  )

  merge_faces-Found :
      (d : Dict Json) (fs : List (Dict Json))
      → Found d fs
      → SameFaces (merge_faces values d (readable_faces fs)) fs
  unfolding Found readable_faces SameFaces
  merge_faces-Found d [] found = tt
  merge_faces-Found d (f ∷ fs) (found, rest) =
      let joined = update (without sealed_face_fields f) (only sealed_face_fields f) in
      let onward = merge_faces values d (readable_faces fs) in
      rw (merge_face_step d f onward found) (
        (joined, values.as_dict-of_dict joined, update-only-without sealed_face_fields f),
        merge_faces-Found d fs rest,
      )

  module _ (r : Dict Json) (fs : List (Dict Json))
      (listed : lookup "faces" r ≡ some (values.of_list (faces_of fs)))
      (named : Identified fs) where
    halves :
        split_faces values (raw_faces values r) ([], []) ≡ (readable_faces fs, details_of fs [])
    halves =
        let there : raw_faces values r ≡ faces_of fs =
          ground (arith, listed, values.as_list-of_list (faces_of fs)) in
        ap (λ x. split_faces values x ([], [])) there ∙ split_faces-Identified fs [] [] named

    abbrev kept : Dict Json
    kept = without (sealed_record_fields ++ (derived_record_fields ++ ("faces" ∷ []))) r

    abbrev sealed : Dict Json
    sealed =
        update (("faces", values.of_dict (details_of fs [])) ∷ []) (only sealed_record_fields r)

    split_record-halves :
        split_record values r ≡ (insert "faces" (values.of_list (readable_faces fs)) kept, sealed)
    unfolding split_record
    split_record-halves = rw halves refl

    abbrev readable : Dict Json
    readable = insert "faces" (values.of_list (readable_faces fs)) kept

    abbrev merged : Dict Json
    merged = update readable (only sealed_record_fields sealed)

    merge-halves :
        merge_record values readable (some sealed)
        ≡ insert "faces"
            (values.of_list (merge_faces values (details_of fs []) (readable_faces fs)))
            merged
    unfolding merge_record lookup among
    merge-halves =
        let details =
          lookup-update-only "faces" sealed_record_fields r
            (("faces", values.of_dict (details_of fs [])) ∷ []) in
        let faces = lookup-update-only "faces" sealed_record_fields sealed readable in
        ground (
          arith,
          details,
          faces,
          lookup-insert "faces" "faces" (values.of_list (readable_faces fs)) kept,
          values.as_dict-of_dict (details_of fs []),
          values.as_list-of_list (readable_faces fs),
        )

    lookup-merged :
        (k : String)
        → among ("faces" ∷ derived_record_fields) k ≡ false
        → lookup k merged ≡ lookup k r
    unfolding lookup among
    lookup-merged k plain = ground (
      arith,
      plain,
      eq_iff "active_face_id" k,
      lookup-update-only k sealed_record_fields sealed readable,
      lookup-update-only k sealed_record_fields r
          (("faces", values.of_dict (details_of fs [])) ∷ []),
      lookup-insert "faces" k (values.of_list (readable_faces fs)) kept,
      lookup-without k (sealed_record_fields ++ (derived_record_fields ++ ("faces" ∷ []))) r,
    )

    -- A record with a list of faces, each of which has an identifier of its own, has the same value
    -- under every key after it is split and joined again, but for the two keys that are derived from the
    -- faces, and the same faces in the same order, each with the same values.
    pub merge_record-split_record :
        let joined =
          merge_record values (split_record values r).0 (some (split_record values r).1) in
        ((k : String)
          → among ("faces" ∷ derived_record_fields) k ≡ false
          → lookup k joined ≡ lookup k r)
        × (js : List Json) × (lookup "faces" joined ≡ some (values.of_list js))
        × SameFaces js fs
    merge_record-split_record =
        let js = merge_faces values (details_of fs []) (readable_faces fs) in
        rw split_record-halves (
          rw merge-halves (
            λ k plain.
                lookup-insert "faces" k (values.of_list js) merged
                ∙ rw (not_faces k plain) (lookup-merged k plain),
            js,
            lookup-insert "faces" "faces" (values.of_list js) merged,
            merge_faces-Found (details_of fs []) fs (details_of-Found fs [] named),
          ))
