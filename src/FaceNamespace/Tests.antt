-- ===== src/FaceNamespace/Tests.antt =====
-- A namespace of one old file with a later name, and a new one.
use phantasm.Base.{
  ◌≡◌, ◌⊎◌, inl, inr, refl, sym, ap, String, true, none, some, List, [], ◌∷◌, str_eq, arith,
  Bool-cases,
}
use phantasm.Base.Dict.{Dict, lookup, insert}
use phantasm.Base.Int.{pos}
use phantasm.Base.Except.{ok}
use phantasm.RegistrySeal.{Codec}
use phantasm.RegistrySeal.Sample.{Json, json}
use phantasm.FaceNamespace.{
  FaceFileRecord, empty_namespace, manual_entry, choose, file_data, text_at, str_ltb, files_of,
  namespace_file_records, sorted, place,
}
use phantasm.FaceNamespace.Ranking.{new_files}
use phantasm.FaceNamespace.Latest.{choose_stored_last}
use phantasm.FaceNamespace.Sample.{scalars}

abbrev old_item : Dict Json
old_item =
    ("data_b64", scalars.of_text "")
    ∷ ("size", scalars.of_int (pos 0))
    ∷ ("added_at", scalars.of_text "2026-01-01")
    ∷ []

abbrev old_files : Dict Json
old_files = ("zebra.txt", json.of_dict old_item) ∷ []

abbrev old_namespace : Dict Json
old_namespace = empty_namespace json scalars

abbrev listing : List FaceFileRecord
listing =
    record { name = "apple.txt"; size = pos 1; added_at = "2026-01-01" }
    ∷ record { name = "zebra.txt"; size = pos 0; added_at = "2026-01-01" }
    ∷ []

old_time :
    (k : String) (v : Json) (it : Dict Json)
    → lookup k old_files ≡ some v
    → json.as_dict v ≡ some it
    → (str_ltb (text_at json scalars "added_at" it) "2026-01-01" ≡ true)
      ⊎ (text_at json scalars "added_at" it ≡ "2026-01-01")
unfolding lookup
old_time k v it h is = elim (Bool-cases (str_eq "zebra.txt" k)) [
  | inl t ↦
      let same : old_item ≡ it = ground (arith, t, h, is) in
      inr (ap (text_at json scalars "added_at") (sym same))
  | inr t ↦ absurd (ground (arith, t, h))
]

choose_stored_last_example :
    (r : FaceFileRecord) × (choose json scalars none none
        (new_files json scalars "apple.txt" (5 ∷ []) "2026-01-01" old_files)
        listing
      ≡ ok r)
    × (r.name ≡ "apple.txt")
    × (file_data json scalars (new_files json scalars "apple.txt" (5 ∷ []) "2026-01-01" old_files) r
        ≡ ok (5 ∷ []))
unfolding lookup insert sorted place files_of namespace_file_records manual_entry str_ltb
choose_stored_last_example =
    choose_stored_last json scalars "apple.txt" (5 ∷ []) "2026-01-01" old_namespace old_files
      listing (refl, tt) old_time refl

abbrev codec : Codec json
codec = record { dumps = λ v. 1 ∷ []; loads = λ b. some (json.of_dict old_namespace) }
