-- ===== src/FaceNamespace/Latest.antt =====
-- services/vessel_workflow_service.py: without a name, the file that was stored last is the one that is retrieved.
use phantasm.Base.{
  ℕ, ◌≡◌, refl, sym, ap, ◌∙◌, ◌⊎◌, inl, inr, String, true, false, not, none, some, List, [], ◌∷◌,
  Bytes, arith, eq_iff, eq_refl, Bool-cases, if◌then◌else◌,
}
use mathlib.Core.Path.{subst}
use phantasm.Base.Dict.{Dict, lookup, lookup-insert}
use phantasm.Base.Int.{pos}
use phantasm.Base.Find.{find_first, filter}
use phantasm.Base.Except.{ok}
use phantasm.RegistrySeal.{Values}
use phantasm.FaceNamespace.{
  Scalars, FaceFileRecord, str_ltb, text_at, next_store_seq, manual_entry, store_order, order_ltb,
  Order, latest, operator_files, if_empty, has_generated_origin, is_called, choose,
  namespace_file_records, chosen_of, with_files, file_data,
}
use phantasm.FaceNamespace.Entries.{file_data-manual_entry, files_of-with_files}
use phantasm.FaceNamespace.Listing.{listed_records, listed-IsThere}
use phantasm.FaceNamespace.Ranking.{
  Every, Every-sorted, Every-filter, filter_found, IsDict, insert-IsDict, IsEntry, records-IsEntry,
  new_files, new_key, IsRanked, manual_item, entry_key, entries-IsRanked,
}

module _ {Json : Type 0} (values : Values Json) (scalars : Scalars values) where
  abbrev better : Dict Json → FaceFileRecord → FaceFileRecord → FaceFileRecord
  better files best r =
      if order_ltb values scalars (store_order values scalars files best)
        (store_order values scalars files r)
      then r
      else best

  -- Once the new record is the best, it stays so.
  latest_kept :
      (files : Dict Json) (key : Order values scalars) (best : FaceFileRecord)
      (rs : List FaceFileRecord)
      → store_order values scalars files best ≡ key
      → Every (IsRanked values scalars files key) rs
      → store_order values scalars files (latest values scalars files best rs) ≡ key
  latest_kept files key best [] h hs = h
  latest_kept files key best (r ∷ rs) h (inl is, hs) =
      latest_kept files key (better files best r) rs
        (elim (order_ltb values scalars (store_order values scalars files best)
            (store_order values scalars files r))
          as (λ b. store_order values scalars files (if b then r else best) ≡ key) [
            | true ↦ is
            | false ↦ h
          ])
        hs
  latest_kept files key best (r ∷ rs) h (inr (_, back), hs) =
      latest_kept files key (better files best r) rs
        (ground (
          arith,
          h,
          subst (λ k. order_ltb values scalars k (store_order values scalars files r) ≡ false)
              (sym h) back,
        ))
        hs

  -- The new record is among them.
  abbrev HasNewest : Dict Json → Order values scalars → List FaceFileRecord → Type 0
  HasNewest files key [] = ⊥
  HasNewest files key (r ∷ rs) = (store_order values scalars files r ≡ key) ⊎ HasNewest files key rs

  -- and it becomes the best where it is there.
  latest_found :
      (files : Dict Json) (key : Order values scalars) (best : FaceFileRecord)
      (rs : List FaceFileRecord)
      → IsRanked values scalars files key best
      → Every (IsRanked values scalars files key) rs
      → HasNewest files key rs
      → store_order values scalars files (latest values scalars files best rs) ≡ key
  latest_found files key best [] ranked hs there = absurd there
  latest_found files key best (x ∷ rs) (inl is) hs there = latest_kept files key best (x ∷ rs) is hs
  latest_found files key best (x ∷ rs) (inr (low, back)) (h, hs) (inl is) =
      latest_kept files key (better files best x) rs
        (ground (
          arith,
          is,
          subst (λ k. order_ltb values scalars (store_order values scalars files best) k ≡ true)
              (sym is) low,
        ))
        hs
  latest_found files key best (x ∷ rs) (inr low) (h, hs) (inr there) =
      latest_found files key (better files best x) rs
        (elim (order_ltb values scalars (store_order values scalars files best)
            (store_order values scalars files x))
          as (λ b. IsRanked values scalars files key (if b then x else best)) [
            | true ↦ h
            | false ↦ inr low
          ])
        hs there

  newest_there :
      (files : Dict Json) (key : Order values scalars) (name : String) (rs : List FaceFileRecord)
      (r : FaceFileRecord)
      → find_first (is_called name) rs ≡ some r
      → store_order values scalars files r ≡ key
      → HasNewest files key rs
  unfolding find_first
  newest_there files key name [] r found is = absurd (cc found)
  newest_there files key name (x ∷ rs) r found is = elim (Bool-cases (is_called name x)) [
    | inl t ↦
        inl (subst (λ y. store_order values scalars files y ≡ key) (ground (arith, t, found)) is)
    | inr t ↦ inr (newest_there files key name rs r (ground (arith, t, found)) is)
  ]

  own_origin :
      (whole : Dict Json) (r : FaceFileRecord) (v : Json) (it : Dict Json) (o : Json)
      → lookup r.name whole ≡ some v
      → values.as_dict v ≡ some it
      → lookup "origin" it ≡ some o
      → scalars.as_text o ≡ some "manual"
      → not (has_generated_origin values scalars whole r) ≡ true
  own_origin whole r v it o h k l m = ground (arith, h, k, l, m)

  -- What an operator stored is no filler.
  manual_origin :
      (name : String) (payload : Bytes) (now : String) (files : Dict Json) (r : FaceFileRecord)
      → is_called name r ≡ true
      → not
          (has_generated_origin values scalars (new_files values scalars name payload now files) r)
        ≡ true
  unfolding manual_entry lookup
  manual_origin name payload now files r h =
      let n = next_store_seq values scalars files in
      let at = lookup-insert name r.name (manual_entry values scalars payload now n) files in
      own_origin (new_files values scalars name payload now files) r
        (manual_entry values scalars payload now n) (manual_item values scalars payload now n)
        (scalars.of_text "manual") (ground (arith, at, h, eq_iff r.name name, eq_iff name r.name))
        (values.as_dict-of_dict (manual_item values scalars payload now n)) refl
        (scalars.as_text-of_text "manual")

  newest_of :
      (files : Dict Json) (key : Order values scalars) (y : FaceFileRecord)
      (ys : List FaceFileRecord)
      → Every (IsRanked values scalars files key) (y ∷ ys)
      → HasNewest files key (y ∷ ys)
      → store_order values scalars files (latest values scalars files y ys) ≡ key
  newest_of files key y ys (h, hs) (inl is) = latest_kept files key y ys is hs
  newest_of files key y ys (h, hs) (inr there) = latest_found files key y ys h hs there

  -- A file is chosen from a list that has the new one.
  chosen_newest :
      (files : Dict Json) (key : Order values scalars) (rs all_records : List FaceFileRecord)
      → Every (IsRanked values scalars files key) rs
      → HasNewest files key rs
      → (r : FaceFileRecord) × (chosen_of values scalars files
            (if_empty values scalars rs all_records)
          ≡ some r)
        × (store_order values scalars files r ≡ key)
  chosen_newest files key [] all_records ranked there = absurd there
  chosen_newest files key (y ∷ ys) all_records ranked there =
      (latest values scalars files y ys, refl, newest_of files key y ys ranked there)

  name_of_key :
      (whole : Dict Json) (r : FaceFileRecord) (now name : String) (n : ℕ)
      → store_order values scalars whole r ≡ (now, pos n, name)
      → r.name ≡ name
  unfolding store_order
  name_of_key whole r now name n h = ap (λ (k : Order values scalars). k.2) h

  manual_is :
      (payload : Bytes) (now : String) (seq : ℕ)
      → values.as_dict (manual_entry values scalars payload now seq)
        ≡ some (manual_item values scalars payload now seq)
  unfolding manual_entry
  manual_is payload now seq = values.as_dict-of_dict (manual_item values scalars payload now seq)

  -- A record of the new name has the new key.
  named_key :
      (name : String) (payload : Bytes) (now : String) (files : Dict Json)
      (rs : List FaceFileRecord) (r : FaceFileRecord)
      → Every (IsEntry values scalars (new_files values scalars name payload now files)) rs
      → find_first (is_called name) rs ≡ some r
      → store_order values scalars (new_files values scalars name payload now files) r
        ≡ new_key values scalars name now files
  unfolding find_first
  named_key name payload now files [] r es found = absurd (cc found)
  named_key name payload now files (x ∷ rs) r ((v, it, at, is, added), es) found =
      elim (Bool-cases (is_called name x)) [
        | inr t ↦ named_key name payload now files rs r es (ground (arith, t, found))
        | inl t ↦
            subst
              (λ y.
                store_order values scalars (new_files values scalars name payload now files) y
                ≡ new_key values scalars name now files)
              (ground (arith, t, found))
              (entry_key values scalars name payload now files x v it at is added
                (ground (arith, t, eq_iff name x.name, eq_iff x.name name)))
      ]

  -- Where no key is twice in the files and no other file of the face has a later time, the file that was stored last is the one that is chosen when no file is asked
  -- for, whatever the other files are called and however much filler there is.
  pub choose_stored_last :
      (name : String) (payload : Bytes) (now : String) (namespace files : Dict Json)
      (listing : List FaceFileRecord)
      → IsDict files
      → ((k : String) (v : Json) (it : Dict Json)
          → lookup k files ≡ some v
          → values.as_dict v ≡ some it
          → (str_ltb (text_at values scalars "added_at" it) now ≡ true)
            ⊎ (text_at values scalars "added_at" it ≡ now))
      → namespace_file_records values scalars
          (with_files values scalars (new_files values scalars name payload now files) namespace)
        ≡ ok listing
      → (r : FaceFileRecord) × (choose values scalars none none
            (new_files values scalars name payload now files)
            listing
          ≡ ok r)
        × (r.name ≡ name)
        × (file_data values scalars (new_files values scalars name payload now files) r
            ≡ ok payload)
  unfolding choose operator_files
  choose_stored_last name payload now namespace files listing unique earlier listed =
      let n = next_store_seq values scalars files in
      let entries = new_files values scalars name payload now files in
      let key = new_key values scalars name now files in
      let raw = files_of-with_files values scalars entries namespace in
      let (unsorted, read, same) =
        listed_records values scalars (with_files values scalars entries namespace) entries listing
          raw listed in
      let entered : Every (IsEntry values scalars entries) listing =
        subst (Every (IsEntry values scalars entries)) (sym same) (
          Every-sorted (IsEntry values scalars entries) unsorted (
            records-IsEntry values scalars entries entries unsorted
              (insert-IsDict name (manual_entry values scalars payload now n) files unique)
              (λ j w h. h) read)) in
      let ranked = entries-IsRanked values scalars name payload now files listing earlier entered in
      let there =
        lookup-insert name name (manual_entry values scalars payload now n) files
        ∙ ground (arith, eq_refl name) in
      let (r, found) =
        listed-IsThere values scalars (with_files values scalars entries namespace) entries listing
          name (manual_entry values scalars payload now n)
          (manual_item values scalars payload now n) raw listed there (manual_is payload now n) in
      let is_newest : store_order values scalars entries r ≡ key =
        named_key name payload now files listing r entered found in
      let kept = filter (λ x. not (has_generated_origin values scalars entries x)) listing in
      let (chosen, is, last) =
        chosen_newest entries key kept listing
          (Every-filter (IsRanked values scalars entries key) _ listing ranked)
          (newest_there entries key name kept r
            (filter_found (is_called name) _ (manual_origin name payload now files) listing ∙ found)
            is_newest) in
      let named = name_of_key entries chosen now name n last in
      (
        chosen,
        ground (arith, is),
        named,
        file_data-manual_entry values scalars entries chosen payload now n (
            subst (λ k. lookup k entries ≡ some (manual_entry values scalars payload now n))
              (sym named) there),
      )
