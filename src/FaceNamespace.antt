-- ===== src/FaceNamespace.antt =====
-- services/vessel_workflow_service.py: the files that a face of a vessel holds, as one JSON document that is
-- stored in the slot of the face, and the file that a retrieval chooses among them. The values of the
-- document, `int` and `str` of them, the JSON codec and base64 are those of the interpreter.
mod Document
pub mod Entries
mod Tests
pub mod Listing
pub mod Latest
pub mod Ranking
pub mod Sample
unfoldable pub use Document.*
use phantasm.Base.{
  ℕ, suc, max, ◌≡◌, String, Bool, true, false, not, ◌&&◌, ◌||◌, Option, none, some, List, [], ◌∷◌,
  Bytes, length, str_eq, ltb, ◌==◌, if◌then◌else◌,
}
use phantasm.Base.Dict.{Dict, lookup, insert, erase}
use phantasm.Base.Int.{ℤ, pos, pos_part, ◌+ℤ◌, ltb_ℤ}
use phantasm.Base.Find.{find_first, filter}
use phantasm.Base.Except.{Result, ok, err}
use phantasm.RegistrySeal.{Values, Codec}
use Prim.Native.Char.{code}
use Prim.Native.String

module _ {Json : Type 0} (values : Values Json) (scalars : Scalars values) where
  -- The key of `_store_order`
  abbrev pub Order : Type 0
  Order = String × ℤ × String

  abbrev pub entry_at : Dict Json → String → Option (Dict Json)
  entry_at files name = elim (lookup name files) [ none ↦ none | some v ↦ values.as_dict v ]

  abbrev pub order_seq : Option (Dict Json) → ℤ
  order_seq none = pos 0
  order_seq (some item) = store_seq values scalars item

  unfoldable pub store_order : Dict Json → FaceFileRecord → Order
  store_order files r = (r.added_at, order_seq (entry_at files r.name), r.name)

  unfoldable pub order_ltb : Order → Order → Bool
  order_ltb (s, m, x) (t, n, y) =
      if str_eq s t
      then (if ltb_ℤ m n then true else if ltb_ℤ n m then false else str_ltb x y)
      else str_ltb s t

  -- `max(records values scalars, key=_store_order)`: the first of the greatest
  abbrev pub latest : Dict Json → FaceFileRecord → List FaceFileRecord → FaceFileRecord
  latest files best [] = best
  latest files best (r ∷ rs) =
      latest files (if order_ltb (store_order files best) (store_order files r) then r else best) rs

  -- `raw_files[name].get("origin") == …`: the value itself, not its text
  abbrev pub has_generated_origin : Dict Json → FaceFileRecord → Bool
  has_generated_origin files r = elim (entry_at files r.name) [
    | none ↦ false
    | some item ↦ elim (lookup "origin" item) [
      | none ↦ false
      | some v ↦ elim (scalars.as_text v) [
        | none ↦ false
        | some s ↦ str_eq s generated_plausibility_origin
      ]
    ]
  ]

  -- `[…] or files`
  abbrev pub if_empty : List FaceFileRecord → List FaceFileRecord → List FaceFileRecord
  if_empty [] rs = rs
  if_empty (x ∷ xs) rs = x ∷ xs

  unfoldable pub operator_files : Dict Json → List FaceFileRecord → List FaceFileRecord
  operator_files files rs = if_empty (filter (λ r. not (has_generated_origin files r)) rs) rs

  abbrev pub chosen_of : Dict Json → List FaceFileRecord → Option FaceFileRecord
  chosen_of files [] = none
  chosen_of files (r ∷ rs) = some (latest files r rs)

  -- The name that is asked for, the name of the output file, and the latest file
  abbrev pub wanted :
      Option String
      → Option String
      → List FaceFileRecord
      → FaceFileRecord
      → Result Raised FaceFileRecord
  wanted (some name) output rs r = elim (find_first (is_called name) rs) [
    | none ↦ err (file_not_found "no stored file named")
    | some m ↦ ok m
  ]
  wanted none none rs r = ok r
  wanted none (some output) rs r = elim (find_first (is_called output) rs) [
    | none ↦ ok r
    | some m ↦ ok m
  ]

  -- The file that `retrieve_file` hands back; an empty name asks for none.
  unfoldable pub choose :
      Option String → Option String → Dict Json → List FaceFileRecord → Result Raised FaceFileRecord
  unfolding operator_files
  choose filename output files rs = elim (chosen_of files (operator_files files rs)) [
    | none ↦ err (file_not_found "no file is stored in the selected face")
    | some r ↦ wanted (truthy filename) output rs r
  ]

  abbrev decoded_data : Option Bytes → Result Raised Bytes
  decoded_data none = err (value_error "Incorrect padding")
  decoded_data (some b) = ok b

  unfoldable pub file_data : Dict Json → FaceFileRecord → Result Raised Bytes
  file_data files r = elim (lookup r.name files) [
    | none ↦ err (file_not_found "stored file could not be resolved")
    | some v ↦ elim (values.as_dict v) [
      | none ↦ err (value_error "stored file metadata is invalid")
      | some item ↦ decoded_data (scalars.b64decode (text_at values scalars "data_b64" item))
    ]
  ]
