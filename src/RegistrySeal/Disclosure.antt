-- ===== src/RegistrySeal/Disclosure.antt =====
-- What the readable half of a record leaves out.
use phantasm.Base.{
  eq_iff, ◌≡◌, refl, String, Bool, true, false, ◌&&◌, Option, Option-cases, none, some, List, [],
  ◌∷◌, ◌++◌, str_eq, if◌then◌else◌, arith, inl, inr, Bool-cases,
}
use phantasm.Base.Dict.{Dict, lookup, insert, contains, lookup-insert}
use phantasm.RegistrySeal.{
  Values, among, without, only, has_any, sealed_face_fields, sealed_record_fields,
  derived_record_fields, split_face, split_faces, split_record, raw_faces, any_carries, face_id,
  record_carries_sealed_fields,
}

abbrev all_among : List String → List String → Bool
all_among ks [] = true
all_among ks (j ∷ js) = among ks j && all_among ks js

module _ {V : Type 0} where
  pub lookup-without :
      (k : String) (ks : List String) (d : Dict V)
      → lookup k (without ks d) ≡ (if among ks k then none else lookup k d)
  unfolding lookup without
  lookup-without k ks [] = ground arith
  lookup-without k ks ((j, v) ∷ d) = ground (arith, lookup-without k ks d, eq_iff j k)

  pub lookup-only :
      (k : String) (ks : List String) (d : Dict V)
      → lookup k (only ks d) ≡ (if among ks k then lookup k d else none)
  unfolding only among lookup
  lookup-only k [] d = refl
  lookup-only k (j ∷ ks) d = elim (Option-cases (lookup j d)) [
    | inl absent ↦ ground (arith, absent, lookup-only k ks d, eq_iff j k)
    | inr (v, there) ↦ ground (arith, there, lookup-only k ks d, eq_iff j k)
  ]

  has_any-without :
      (ks js : List String) (d : Dict V)
      → all_among ks js ≡ true
      → has_any js (without ks d) ≡ false
  unfolding has_any contains
  has_any-without ks [] d within = refl
  has_any-without ks (j ∷ js) d within =
      ground (arith, within, lookup-without j ks d, has_any-without ks js d)

module _ {Json : Type 0} (values : Values Json) where
  any_carries-append :
      (xs ys : List Json)
      → any_carries values xs ≡ false
      → any_carries values ys ≡ false
      → any_carries values (xs ++ ys) ≡ false
  any_carries-append [] ys a b = b
  any_carries-append (x ∷ xs) ys a b = ground (arith, a, b, any_carries-append xs ys)

  readable_free :
      (face : Dict Json)
      → any_carries values (values.of_dict (without sealed_face_fields face) ∷ []) ≡ false
  unfolding among
  readable_free face = ground (
    arith,
    values.as_dict-of_dict (without sealed_face_fields face),
    has_any-without sealed_face_fields sealed_face_fields face refl,
  )

  split_face_free :
      (face : Option (Dict Json)) (readable : List Json) (details : Dict Json)
      → any_carries values readable ≡ false
      → any_carries values (split_face values face (readable, details)).0 ≡ false
  split_face_free none readable details free = free
  split_face_free (some face) readable details free =
      elim (Bool-cases (str_eq (face_id values face) "")) [
        | inl nameless ↦ rw nameless free
        | inr named ↦ rw named (
            any_carries-append readable (values.of_dict (without sealed_face_fields face) ∷ []) free
              (readable_free face))
      ]

  split_faces_free :
      (faces readable : List Json) (details : Dict Json)
      → any_carries values readable ≡ false
      → any_carries values (split_faces values faces (readable, details)).0 ≡ false
  split_faces_free [] readable details free = free
  split_faces_free (face ∷ faces) readable details free =
      let (onward, more) = split_face values (values.as_dict face) (readable, details) in
      split_faces_free faces onward more
        (split_face_free (values.as_dict face) readable details free)

  -- The readable half of a record carries no sealed field, whatever the record is: the test that finds
  -- the records that are still to be sealed does not find it.
  pub split_record_carries :
      (r : Dict Json)
      → record_carries_sealed_fields values (values.of_dict (split_record values r).0) ≡ false
  unfolding record_carries_sealed_fields split_record has_any contains among
  split_record_carries r =
      let halves = split_faces values (raw_faces values r) ([], []) in
      let left = without (sealed_record_fields ++ (derived_record_fields ++ ("faces" ∷ []))) r in
      let readable = values.of_list halves.0 in
      ground (
        arith,
        values.as_dict-of_dict (insert "faces" readable left),
        lookup-insert "faces" "active_face_id" readable left,
        lookup-insert "faces" "faces" readable left,
        lookup-without "active_face_id"
            (sealed_record_fields ++ (derived_record_fields ++ ("faces" ∷ []))) r,
        values.as_list-of_list halves.0,
        split_faces_free (raw_faces values r) [] [] refl,
      )
