-- ===== src/FaceNamespace/Ranking.antt =====
-- services/vessel_workflow_service.py: the order of the files of a face in which one has just been stored.
use phantasm.Base.{
  ℕ, ◌<◌, ◌≡◌, refl, sym, ap, ◌∙◌, ◌⊎◌, false≢true, inl, inr, String, Bool, true, false, none, some,
  List, [], ◌∷◌, Bytes, length, str_eq, arith, eq_iff, eq_refl, Bool-cases, Option-cases,
  if◌then◌else◌,
}
use mathlib.Core.Path.{subst}
use phantasm.Base.Dict.{Dict, lookup, insert, lookup-insert}
use phantasm.Base.Int.{ℤ, pos, pos_part}
use phantasm.Base.Find.{find_first, filter}
use phantasm.Base.Except.{ok}
use phantasm.RegistrySeal.{Values}
use phantasm.FaceNamespace.{
  Scalars, FaceFileRecord, records, place, sorted, str_ltb, text_at, store_seq, next_store_seq,
  manual_entry, store_order, order_ltb, Order,
}
use phantasm.FaceNamespace.Entries.{store_seq-lt-next_store_seq}
use phantasm.FaceNamespace.Listing.{records_step}

-- Every item has a property.
abbrev pub Every : (FaceFileRecord → Type 0) → List FaceFileRecord → Type 0
Every P [] = Unit {0}
Every P (r ∷ rs) = P r × Every P rs

pub Every-place :
    (P : FaceFileRecord → Type 0) (x : FaceFileRecord) (rs : List FaceFileRecord)
    → P x
    → Every P rs
    → Every P (place x rs)
unfolding place
Every-place P x [] h k = (h, tt)
Every-place P x (y ∷ rs) h (k, ks) =
    elim (str_ltb y.name x.name) as (λ b. Every P (if b then y ∷ place x rs else x ∷ y ∷ rs)) [
      | true ↦ (k, Every-place P x rs h ks)
      | false ↦ (h, (k, ks))
    ]

pub Every-sorted :
    (P : FaceFileRecord → Type 0) (rs : List FaceFileRecord) → Every P rs → Every P (sorted rs)
unfolding sorted
Every-sorted P [] h = tt
Every-sorted P (x ∷ rs) (h, hs) = Every-place P x (sorted rs) h (Every-sorted P rs hs)

pub Every-filter :
    (P : FaceFileRecord → Type 0) (p : FaceFileRecord → Bool) (rs : List FaceFileRecord)
    → Every P rs
    → Every P (filter p rs)
unfolding filter
Every-filter P p [] h = tt
Every-filter P p (x ∷ rs) (h, hs) =
    elim (p x) as (λ b. Every P (if b then x ∷ filter p rs else filter p rs)) [
      | true ↦ (h, Every-filter P p rs hs)
      | false ↦ Every-filter P p rs hs
    ]

pub str_ltb_irrefl : (x : String) → str_ltb x x ≡ false
unfolding str_ltb
str_ltb_irrefl String.[] = refl
str_ltb_irrefl (String.◌∷◌ c x) = ground (arith, str_ltb_irrefl x)

pub str_ltb_asym : (x y : String) → str_ltb x y ≡ true → str_ltb y x ≡ false
unfolding str_ltb
str_ltb_asym String.[] String.[] h = refl
str_ltb_asym String.[] (String.◌∷◌ d y) h = refl
str_ltb_asym (String.◌∷◌ c x) String.[] h = absurd (cc h)
str_ltb_asym (String.◌∷◌ c x) (String.◌∷◌ d y) h = ground (arith, h, str_ltb_asym x y)

pub filter_found :
    (p q : FaceFileRecord → Bool)
    → ((x : FaceFileRecord) → p x ≡ true → q x ≡ true)
    → (rs : List FaceFileRecord) → find_first p (filter q rs) ≡ find_first p rs
unfolding find_first filter
filter_found p q pass [] = refl
filter_found p q pass (x ∷ rs) = elim (Bool-cases (p x)) [
  | inl t ↦ ground (arith, t, pass x t)
  | inr t ↦ ground (arith, t, filter_found p q pass rs)
]

pub before_self : (x y : String) → str_ltb x y ≡ true → x ≡ y → ⊥
before_self x y h e = false≢true (sym (str_ltb_irrefl x) ∙ (ap (str_ltb x) e ∙ h))

module _ {V : Type 0} where
  -- No key is there twice.
  abbrev pub IsDict : Dict V → Type 0
  IsDict [] = Unit {0}
  IsDict ((k, v) ∷ d) = (lookup k d ≡ none) × IsDict d

  pub insert-IsDict : (k : String) (v : V) (d : Dict V) → IsDict d → IsDict (insert k v d)
  unfolding insert lookup
  insert-IsDict k v [] h = (refl, tt)
  insert-IsDict k v ((j, w) ∷ d) (absent, h) =
      elim (str_eq j k)
          as (λ b. str_eq j k ≡ b → IsDict (if b then (j, v) ∷ d else (j, w) ∷ insert k v d)) [
            | true ↦ λ t. (absent, h)
            | false ↦ λ t. (
              lookup-insert k j v d ∙ ground (arith, t, eq_iff j k, eq_iff k j, absent),
              insert-IsDict k v d h,
            )
          ]
        refl

module _ {Json : Type 0} (values : Values Json) (scalars : Scalars values) where
  -- A record of the listing is that of an entry.
  abbrev pub IsEntry : Dict Json → FaceFileRecord → Type 0
  IsEntry whole r =
      (v : Json) × (it : Dict Json) × (lookup r.name whole ≡ some v)
      × (values.as_dict v ≡ some it)
      × (r.added_at ≡ text_at values scalars "added_at" it)

  pub deeper :
      (whole : Dict Json) (k : String) (v : Json) (d : Dict Json)
      → lookup k d ≡ none
      → ((j : String) (w : Json) → lookup j ((k, v) ∷ d) ≡ some w → lookup j whole ≡ some w)
      → (j : String) (w : Json) → lookup j d ≡ some w
      → lookup j whole ≡ some w
  unfolding lookup
  deeper whole k v d absent within j w h = elim (Bool-cases (str_eq k j)) [
    | inl t ↦ absurd (ground (arith, t, absent, h, eq_iff k j))
    | inr t ↦ within j w (ground (arith, t, h))
  ]

  pub records-IsEntry :
      (whole d : Dict Json) (rs : List FaceFileRecord)
      → IsDict d
      → ((j : String) (w : Json) → lookup j d ≡ some w → lookup j whole ≡ some w)
      → records values scalars d ≡ ok rs
      → Every (IsEntry whole) rs
  unfolding lookup
  records-IsEntry whole [] rs h within k =
      subst (Every (IsEntry whole)) {x = []} {y = rs} (ground (arith, k)) tt
  records-IsEntry whole ((i, w) ∷ d) rs (absent, h) within k =
      elim (Option-cases (values.as_dict w)) [
        | inl t ↦
            records-IsEntry whole d rs h (deeper whole i w d absent within) (ground (arith, k, t))
        | inr (it, t) ↦
            let (size, rest, _, below, is) = records_step values scalars i w it d rs t k in
            subst (Every (IsEntry whole)) (sym is) (
              (w, it, within i w (ground (arith, eq_refl i)), t, refl),
              records-IsEntry whole d rest h (deeper whole i w d absent within) below,
            )
      ]

  -- The file that is stored now
  abbrev pub new_files : String → Bytes → String → Dict Json → Dict Json
  new_files name payload now files =
      insert name (manual_entry values scalars payload now (next_store_seq values scalars files))
        files

  abbrev pub new_key : String → String → Dict Json → Order values scalars
  new_key name now files = (now, pos (next_store_seq values scalars files), name)

  -- A record is the new one, or is before it.
  abbrev pub IsRanked : Dict Json → Order values scalars → FaceFileRecord → Type 0
  IsRanked files key r =
      (store_order values scalars files r ≡ key)
      ⊎ ((order_ltb values scalars (store_order values scalars files r) key ≡ true)
          × (order_ltb values scalars key (store_order values scalars files r) ≡ false))

  pub order_before :
      (s now x name : String) (seq : ℤ) (n : ℕ)
      → pos_part seq < n
      → (str_ltb s now ≡ true) ⊎ (s ≡ now)
      → (order_ltb values scalars (s, seq, x) (now, pos n, name) ≡ true)
        × (order_ltb values scalars (now, pos n, name) (s, seq, x) ≡ false)
  unfolding order_ltb
  order_before s now x name seq n h (inl t) =
      let back = str_ltb_asym s now t in
      let here = str_ltb_irrefl s in
      let apart : str_eq s now ≡ false = elim (Bool-cases (str_eq s now)) [
        | inr u ↦ u
        | inl u ↦ absurd (before_self s now t ((eq_iff s now).0 u))
      ] in
      (ground (arith, apart, t), ground (arith, apart, back, eq_iff s now, eq_iff now s))
  order_before s now x name seq n h (inr e) =
      (ground (arith, (eq_iff s now).1 e, h), ground (arith, (eq_iff now s).1 (sym e), h))

  abbrev pub manual_item : Bytes → String → ℕ → Dict Json
  manual_item payload now seq =
      ("data_b64", scalars.of_text (scalars.b64encode payload))
      ∷ ("size", scalars.of_int (pos (length payload)))
      ∷ ("added_at", scalars.of_text now)
      ∷ ("origin", scalars.of_text "manual")
      ∷ ("store_seq", scalars.of_int (pos seq))
      ∷ []

  pub manual_item_time :
      (payload : Bytes) (now : String) (seq : ℕ)
      → text_at values scalars "added_at" (manual_item payload now seq) ≡ now
  unfolding lookup
  manual_item_time payload now seq = scalars.str-of_text now

  pub manual_item_seq :
      (payload : Bytes) (now : String) (seq : ℕ)
      → store_seq values scalars (manual_item payload now seq) ≡ pos seq
  unfolding lookup
  manual_item_seq payload now seq = ground (arith, scalars.int-of_int (pos seq))

  -- The item of an entry that `add_payload` wrote
  pub item_is :
      (payload : Bytes) (now : String) (seq : ℕ) (v : Json) (it : Dict Json)
      → manual_entry values scalars payload now seq ≡ v
      → values.as_dict v ≡ some it
      → it ≡ manual_item payload now seq
  unfolding manual_entry
  item_is payload now seq v it h k =
      ground (arith, h, k, values.as_dict-of_dict (manual_item payload now seq))

  pub order_is :
      (whole : Dict Json) (r : FaceFileRecord) (v : Json) (it : Dict Json)
      → lookup r.name whole ≡ some v
      → values.as_dict v ≡ some it
      → r.added_at ≡ text_at values scalars "added_at" it
      → store_order values scalars whole r
        ≡ (text_at values scalars "added_at" it, store_seq values scalars it, r.name)
  unfolding store_order
  order_is whole r v it h k added = ground (arith, h, k, added)

  pub entry_key :
      (name : String) (payload : Bytes) (now : String) (files : Dict Json) (r : FaceFileRecord)
      (v : Json) (it : Dict Json)
      → lookup r.name (new_files name payload now files) ≡ some v
      → values.as_dict v ≡ some it
      → r.added_at ≡ text_at values scalars "added_at" it
      → str_eq name r.name ≡ true
      → store_order values scalars (new_files name payload now files) r ≡ new_key name now files
  entry_key name payload now files r v it found is added t =
      let n = next_store_seq values scalars files in
      let at = lookup-insert name r.name (manual_entry values scalars payload now n) files in
      let item = item_is payload now n v it (ground (arith, at, found, t)) is in
      order_is (new_files name payload now files) r v it found is added
      ∙ ground (
        arith,
        item,
        manual_item_time payload now n,
        manual_item_seq payload now n,
        eq_iff name r.name,
        t,
      )

  pub entry-IsRanked :
      (name : String) (payload : Bytes) (now : String) (files : Dict Json) (r : FaceFileRecord)
      → ((k : String) (v : Json) (it : Dict Json)
          → lookup k files ≡ some v
          → values.as_dict v ≡ some it
          → (str_ltb (text_at values scalars "added_at" it) now ≡ true)
            ⊎ (text_at values scalars "added_at" it ≡ now))
      → IsEntry (new_files name payload now files) r
      → IsRanked (new_files name payload now files) (new_key name now files) r
  entry-IsRanked name payload now files r earlier (v, it, found, is, added) =
      let n = next_store_seq values scalars files in
      let at = lookup-insert name r.name (manual_entry values scalars payload now n) files in
      let order = order_is (new_files name payload now files) r v it found is added in
      elim (Bool-cases (str_eq name r.name)) [
        | inl t ↦ inl (entry_key name payload now files r v it found is added t)
        | inr t ↦
            let old : lookup r.name files ≡ some v = ground (arith, at, found, t) in
            inr (
              subst
                (λ k.
                  (order_ltb values scalars k (new_key name now files) ≡ true)
                  × (order_ltb values scalars (new_key name now files) k ≡ false))
                (sym order)
                (order_before (text_at values scalars "added_at" it) now r.name name
                  (store_seq values scalars it) n
                  (store_seq-lt-next_store_seq values scalars files r.name v it old is)
                  (earlier r.name v it old is)))
      ]

  pub entries-IsRanked :
      (name : String) (payload : Bytes) (now : String) (files : Dict Json)
      (rs : List FaceFileRecord)
      → ((k : String) (v : Json) (it : Dict Json)
          → lookup k files ≡ some v
          → values.as_dict v ≡ some it
          → (str_ltb (text_at values scalars "added_at" it) now ≡ true)
            ⊎ (text_at values scalars "added_at" it ≡ now))
      → Every (IsEntry (new_files name payload now files)) rs
      → Every (IsRanked (new_files name payload now files) (new_key name now files)) rs
  entries-IsRanked name payload now files [] earlier h = tt
  entries-IsRanked name payload now files (r ∷ rs) earlier (h, hs) = (
    entry-IsRanked name payload now files r earlier h,
    entries-IsRanked name payload now files rs earlier hs,
  )
