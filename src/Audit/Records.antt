-- ===== src/Audit/Records.antt =====
-- The record that `audit_event` makes: what its fields are, and that it is checked without an error.
use phantasm.Base.{
  eq_iff, eq_refl, ℕ, ◌≡◌, refl, sym, ◌∙◌, ap, String, Bool, true, false, none, some, [], ◌∷◌,
  Bytes, codes, bytes_eq_refl, str_eq, arith, inl, inr, Bool-cases,
}
use phantasm.Base.Dict.{Dict, lookup, insert, erase, lookup-insert, update, lookup-update}
use phantasm.Base.Except.{ok}
use phantasm.Audit.{
  is_ascii, Codec, Config, Value, integer, text, nonnegative, record_errors, record_hmac,
  entry_hash, sanitize_field, sanitize_from, sanitize_fields, sealed, base_record, event_record,
  Event,
}

-- No field's name is one of those that the chain is checked by.
unfoldable pub Plain : Dict Value → Type 0
Plain d =
    (lookup "version" d ≡ none) × (lookup "sequence" d ≡ none) × (lookup "previous_hash" d ≡ none)

erase-insert : (k : String) (v : Value) (d : Dict Value) → erase k (insert k v d) ≡ erase k d
unfolding erase insert
erase-insert k v [] = ground (arith, eq_refl k)
erase-insert k v ((j, w) ∷ d) = ground (arith, erase-insert k v d)

erase-insert_other :
    (k j : String) (v : Value) (d : Dict Value)
    → str_eq k j ≡ false
    → erase j (insert k v d) ≡ insert k v (erase j d)
unfolding erase insert
erase-insert_other k j v [] other = ground (arith, other)
erase-insert_other k j v ((i, w) ∷ d) other =
    ground (arith, other, erase-insert_other k j v d other, eq_iff i k, eq_iff i j, eq_refl k)

module _ {Text : Type 0} (codec : Codec Text) where
  lookup-sanitize_field :
      (k j : String) (hash_filenames : Bool) (v : Value) (d : Dict Value)
      → str_eq "entry" k ≡ false
      → str_eq "filename_present" k ≡ false
      → str_eq "filename_hash" k ≡ false
      → str_eq j k ≡ false
      → lookup k (sanitize_field codec hash_filenames j v d) ≡ lookup k d
  lookup-sanitize_field k j hash_filenames v d a b c other =
      let yes = text (codes "yes") in
      let hashed = text (codec.sha256_hex (codec.basename (codec.str v))) in
      ground (
        arith,
        a,
        b,
        c,
        other,
        lookup-insert j k v d,
        lookup-insert "entry" k (text (codes "local_entry")) d,
        lookup-insert "filename_present" k (text (codes "no")) d,
        lookup-insert "filename_present" k yes d,
        lookup-insert "filename_hash" k hashed (insert "filename_present" yes d),
      )

  lookup-sanitize_from :
      (k : String) (hash_filenames : Bool) (d fields : Dict Value)
      → str_eq "entry" k ≡ false
      → str_eq "filename_present" k ≡ false
      → str_eq "filename_hash" k ≡ false
      → lookup k fields ≡ none
      → lookup k (sanitize_from codec hash_filenames d fields) ≡ lookup k d
  unfolding lookup
  lookup-sanitize_from k hash_filenames d [] a b c absent = refl
  lookup-sanitize_from k hash_filenames d ((j, v) ∷ fields) a b c absent =
      elim (Bool-cases (str_eq j k)) [
        | inl same ↦ absurd (cc (rw same at absent))
        | inr other ↦
            lookup-sanitize_from k hash_filenames (sanitize_field codec hash_filenames j v d) fields
              a b c (rw other at absent)
            ∙ lookup-sanitize_field k j hash_filenames v d a b c other
      ]

  abbrev pub record_of : Config → Event codec → ℕ → Bytes → Bytes → Dict Value
  record_of config e sequence previous key =
      event_record codec config e (nonnegative sequence) previous key

  lookup-sealed :
      (k : String) (d : Dict Value) (key : Bytes)
      → str_eq "entry_hash" k ≡ false
      → str_eq "hmac_sha256" k ≡ false
      → lookup k (sealed codec d key) ≡ lookup k d
  lookup-sealed k d key a b =
      let hashed = insert "entry_hash" (text (entry_hash codec d)) d in
      lookup-insert "hmac_sha256" k (text (record_hmac codec hashed key)) hashed
      ∙ (rw b refl ∙ (lookup-insert "entry_hash" k (text (entry_hash codec d)) d ∙ rw a refl))

  entry_hash-sealed :
      (d : Dict Value) (key : Bytes) → entry_hash codec (sealed codec d key) ≡ entry_hash codec d
  unfolding entry_hash record_hmac
  entry_hash-sealed d key =
      let hashed = insert "entry_hash" (text (entry_hash codec d)) d in
      let v = text (record_hmac codec hashed key) in
      rw (erase-insert_other "hmac_sha256" "entry_hash" v hashed refl) (
        rw (erase-insert "hmac_sha256" v (erase "entry_hash" hashed))
          (rw (erase-insert "entry_hash" (text (entry_hash codec d)) d) refl))

  record_hmac-sealed :
      (d : Dict Value) (key : Bytes)
      → lookup "hmac_sha256" (sealed codec d key)
        ≡ some (text (record_hmac codec (sealed codec d key) key))
  unfolding record_hmac
  record_hmac-sealed d key =
      let hashed = insert "entry_hash" (text (entry_hash codec d)) d in
      let v = text (record_hmac codec hashed key) in
      lookup-insert "hmac_sha256" "hmac_sha256" v hashed
      ∙ ap (λ e. some (text (codec.hmac_hex key (codec.canonical_json e))))
          (sym (erase-insert "hmac_sha256" v hashed))

  entry_hash_shown :
      (d : Dict Value) (key : Bytes)
      → lookup "entry_hash" (sealed codec d key)
        ≡ some (text (entry_hash codec (sealed codec d key)))
  entry_hash_shown d key =
      let hashed = insert "entry_hash" (text (entry_hash codec d)) d in
      lookup-insert "hmac_sha256" "entry_hash" (text (record_hmac codec hashed key)) hashed
      ∙ (lookup-insert "entry_hash" "entry_hash" (text (entry_hash codec d)) d
          ∙ ap (λ h. some (text h)) (sym (entry_hash-sealed d key)))

  lookup-record_of :
      (k : String) (config : Config) (e : Event codec) (sequence : ℕ) (previous key : Bytes)
      → str_eq "entry_hash" k ≡ false
      → str_eq "hmac_sha256" k ≡ false
      → str_eq "entry" k ≡ false
      → str_eq "filename_present" k ≡ false
      → str_eq "filename_hash" k ≡ false
      → lookup k e.given ≡ none
      → lookup k (record_of config e sequence previous key)
        ≡ lookup k (base_record codec e (nonnegative sequence) previous)
  unfolding sanitize_fields lookup
  lookup-record_of k config e sequence previous key a b c f g absent =
      let base = base_record codec e (nonnegative sequence) previous in
      let fields = sanitize_fields codec config.hash_filenames e.given in
      let free = lookup-sanitize_from k config.hash_filenames [] e.given c f g absent in
      lookup-sealed k (update base fields) key a b ∙ lookup-update k base fields free

  pub record_errors_clean :
      (r : Dict Value) (number sequence : ℕ) (previous key : Bytes)
      → lookup "version" r ≡ some (text (codes "2.0"))
      → lookup "sequence" r ≡ some (integer (nonnegative sequence))
      → lookup "previous_hash" r ≡ some (text previous)
      → lookup "entry_hash" r ≡ some (text (entry_hash codec r))
      → lookup "hmac_sha256" r ≡ some (text (record_hmac codec r key))
      → is_ascii (record_hmac codec r key) ≡ true
      → record_errors codec key number sequence previous r ≡ ok []
  unfolding record_errors
  record_errors_clean r number sequence previous key a b c d h ascii =
      let version = codec.same_text (codes "2.0") in
      let number_ = codec.same_integer (nonnegative sequence) in
      let chained = codec.same_text previous in
      let hashed = codec.same_text (entry_hash codec r) in
      let shown = codec.str_text (record_hmac codec r key) in
      let equal = bytes_eq_refl (record_hmac codec r key) in
      ground (arith, a, b, c, d, h, ascii, version, number_, chained, hashed, shown, equal)

  abbrev pub Written : Config → Event codec → ℕ → Bytes → Bytes → Type 0
  Written config e sequence previous key =
      let r = record_of config e sequence previous key in
      (lookup "version" r ≡ some (text (codes "2.0")))
      × (lookup "sequence" r ≡ some (integer (nonnegative sequence)))
      × (lookup "previous_hash" r ≡ some (text previous))
      × (lookup "entry_hash" r ≡ some (text (entry_hash codec r)))
      × (lookup "hmac_sha256" r ≡ some (text (record_hmac codec r key)))

  pub record_of-Written :
      (config : Config) (e : Event codec) (sequence : ℕ) (previous key : Bytes)
      → Plain e.given
      → Written config e sequence previous key
  unfolding Plain lookup
  record_of-Written config e sequence previous key (version, seq, prev) =
      let base =
        update (base_record codec e (nonnegative sequence) previous)
          (sanitize_fields codec config.hash_filenames e.given) in
      (
        lookup-record_of "version" config e sequence previous key refl refl refl refl refl version,
        lookup-record_of "sequence" config e sequence previous key refl refl refl refl refl seq,
        lookup-record_of "previous_hash" config e sequence previous key refl refl refl refl refl
            prev,
        entry_hash_shown base key,
        record_hmac-sealed base key,
      )
