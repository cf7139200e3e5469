-- ===== src/RegistrySeal/Tests.antt =====
-- A record of one face, of values that are texts, lists and dicts.
use phantasm.Base.{◌≡◌, refl, String, false, some, List, [], ◌∷◌}
use phantasm.Base.Dict.{Dict, lookup}
use phantasm.RegistrySeal.Sample.{Json, leaf, json}
use phantasm.RegistrySeal.{
  among, split_record, merge_record, record_carries_sealed_fields, derived_record_fields,
}
use phantasm.RegistrySeal.Disclosure.{split_record_carries}
use phantasm.RegistrySeal.Rejoin.{faces_of, SameFaces, Identified, merge_record-split_record}

abbrev faces : List (Dict Json)
faces =
    (("face_id", leaf "face-1") ∷ ("label", leaf "holiday") ∷ ("selector", leaf "a") ∷ [])
    ∷ (("face_id", leaf "face-2") ∷ ("status", leaf "open") ∷ [])
    ∷ []

abbrev stored : Dict Json
stored =
    ("path", leaf "/vessel")
    ∷ ("active_face_id", leaf "face-2")
    ∷ ("faces", json.of_list (faces_of json faces))
    ∷ []

split_record_carries_example :
    record_carries_sealed_fields json (json.of_dict (split_record json stored).0) ≡ false
split_record_carries_example = split_record_carries json stored

merge_record-split_record_example :
    let joined =
      merge_record json (split_record json stored).0 (some (split_record json stored).1) in
    ((k : String)
      → among ("faces" ∷ derived_record_fields) k ≡ false
      → lookup k joined ≡ lookup k stored)
    × (js : List Json) × (lookup "faces" joined ≡ some (json.of_list js))
    × SameFaces json js faces
unfolding lookup Identified among
merge_record-split_record_example =
    merge_record-split_record json stored faces refl (refl, refl, (refl, refl, tt))
