-- ===== src/RecordCipher/RoundTrip.antt =====
-- `decrypt_record` after `encrypt_record`.
use phantasm.Base.{
  ℕ, suc, ◌+◌, ◌-◌, ◌^◌, ◌≤◌, ◌<◌, ◌≡◌, refl, ◌∙◌, String, false, Option, none, some, [], ◌∷◌, ◌++◌,
  Bytes, length, take, drop, codes, bytes_eq_refl, length-append, take-append, drop-append,
  drop-drop, lt→ltb, arith,
}
use phantasm.Base.Except.{Result, ok, err}
use phantasm.Storage.{value_error, World, Error}
use phantasm.Container.{ContainerLayout, get_plaintext_capacity}
use phantasm.Platform.{Platform, metadata, object, Document}
use phantasm.RecordCipher.Names.{has_slash, has_slash-basename, basename-plain}
use phantasm.RecordCipher.{
  basename_from, basename, four_bytes, pack, unpack, or_default, record_aad, Sealed, read_fields,
  read_record, encrypt_record, decrypt_record, record_plaintext,
}

-- A length that fits is read back from its four bytes.
pub unpack-pack : (n : ℕ) {b : Bytes} → pack n ≡ ok b → (unpack b ≡ n) × (length b ≡ 4)
unfolding pack unpack
unpack-pack n h = ground arith

pub pack_fits : (n : ℕ) → n < 2 ^ 32 → (b : Bytes) × (pack n ≡ ok b)
unfolding pack
pack_fits n h = (four_bytes n, rw (lt→ltb _ _ h) refl)

read_fields_lem :
    (decrypted : Bytes) (meta_len : ℕ) (role : String) (name : Bytes) (payload_len created_at : ℕ)
    → 4 + meta_len + payload_len ≤ length decrypted
    → read_fields decrypted meta_len role (object (metadata role name payload_len created_at))
      ≡ ok (record {
        payload = take payload_len (drop (4 + meta_len) decrypted);
        filename = basename (or_default (some name));
        fields = metadata role name payload_len created_at;
      })
unfolding read_fields
read_fields_lem decrypted meta_len role name payload_len created_at h =
    ground (arith, bytes_eq_refl (codes "jes-v3"), bytes_eq_refl (codes role))

-- What decrypt_record reads of a plaintext that encrypt_record laid out.
read_record_lem :
    (loads : Bytes → Result Error Document) (role : String) (len meta payload padding name : Bytes)
    (created_at : ℕ)
    → pack (length meta) ≡ ok len
    → loads meta ≡ ok (object (metadata role name (length payload) created_at))
    → read_record loads role (len ++ (meta ++ (payload ++ padding)))
      ≡ ok (record {
        payload = payload;
        filename = basename (or_default (some name));
        fields = metadata role name (length payload) created_at;
      })
unfolding read_record
read_record_lem loads role len meta payload padding name created_at packed parsed =
    let (number, four) = unpack-pack (length meta) packed in
    let rest = meta ++ (payload ++ padding) in
    let head : take 4 (len ++ rest) ≡ len = rw four at (take-append len rest) in
    let tail : drop 4 (len ++ rest) ≡ rest = rw four at (drop-append len rest) in
    let body : take (length payload) (drop (4 + length meta) (len ++ rest)) ≡ payload =
      rw (← drop-drop 4 (length meta) (len ++ rest))
        (rw (tail, drop-append meta (payload ++ padding)) (take-append payload padding)) in
    ground (
      arith,
      head,
      tail,
      body,
      number,
      take-append meta (payload ++ padding),
      length-append {0} len rest,
      length-append {0} meta (payload ++ padding),
      length-append {0} payload padding,
      read_fields_lem (len ++ rest) (length meta) role name (length payload) created_at,
    )

-- The name that a record gives back for the name that it was stored under.
abbrev pub recovered_name : Option Bytes → Bytes
recovered_name filename = or_default (some (basename (or_default filename)))

basename-recovered_name :
    (filename : Option Bytes) → basename (recovered_name filename) ≡ recovered_name filename
basename-recovered_name filename =
    elim (basename (or_default filename))
        as (λ b. has_slash b ≡ false → basename (or_default (some b)) ≡ or_default (some b)) [
          | [] ↦ λ _. unfold basename basename_from in refl
          | c ∷ b ↦ λ h. basename-plain (c ∷ b) h
        ]
      (has_slash-basename (or_default filename))

module _ (env : Platform) (l : ContainerLayout) where
  -- How `encrypt_record` succeeds, with all that it drew.
  pub record Encrypts (plaintext key : Bytes) (mode role : String) (filename : Option Bytes)
      (created_at : ℕ) (sealed : Sealed) : Type 0 where
    pub len : Bytes
    pub padding : Bytes
    pub capacity : ℕ
    pub packed :
        pack (
          length (
            env.dumps
              (metadata role (basename (or_default filename)) (length plaintext) created_at)))
        ≡ ok len
    pub room : get_plaintext_capacity l mode role ≡ ok capacity
    pub fits :
        4
          + length (
              env.dumps
                (metadata role (basename (or_default filename)) (length plaintext) created_at))
          + length plaintext
          + length padding
        ≡ capacity
    pub sealed_as :
        sealed.ciphertext
        ≡ env.encrypt key sealed.nonce
            (record_plaintext env l len
              (env.dumps
                (metadata role (basename (or_default filename)) (length plaintext) created_at))
              plaintext
              padding)
            (record_aad l mode role)

  decrypt_record_of_plaintext :
      (ciphertext key nonce : Bytes) (mode role : String) {plaintext : Bytes}
      → env.decrypt key nonce ciphertext (record_aad l mode role) ≡ some plaintext
      → decrypt_record env l ciphertext key nonce mode role ≡ read_record env.loads role plaintext
  unfolding decrypt_record
  decrypt_record_of_plaintext ciphertext key nonce mode role e = rw (e, decrypt_record)

  pub decrypt_record-Encrypts :
      (plaintext key : Bytes) (mode role : String) (filename : Option Bytes) (created_at : ℕ)
      {sealed : Sealed}
      → Encrypts plaintext key mode role filename created_at sealed
      → decrypt_record env l sealed.ciphertext key sealed.nonce mode role
        ≡ ok (record {
          payload = plaintext;
          filename = recovered_name filename;
          fields = metadata role (basename (or_default filename)) (length plaintext) created_at;
        })
  decrypt_record-Encrypts plaintext key mode role filename created_at {sealed} e =
      let name = basename (or_default filename) in
      let meta = env.dumps (metadata role name (length plaintext) created_at) in
      decrypt_record_of_plaintext sealed.ciphertext key sealed.nonce mode role (
        rw e.sealed_as (
          env.decrypt-encrypt key sealed.nonce
            (record_plaintext env l e.len meta plaintext e.padding) (record_aad l mode role)))
      ∙ (read_record_lem env.loads role e.len meta plaintext e.padding name created_at e.packed
            (env.loads-dumps role name (length plaintext) created_at)
          ∙ rw (basename-recovered_name filename))

  -- The metadata that a call at `created_at` writes.
  abbrev pub written_metadata : Bytes → String → Option Bytes → ℕ → Bytes
  written_metadata plaintext role filename created_at =
      env.dumps (metadata role (basename (or_default filename)) (length plaintext) created_at)

  -- The record fits its slot, and its metadata the four bytes of their length.
  pub record Fits (plaintext : Bytes) (mode role : String) (filename : Option Bytes)
      (created_at : ℕ) : Type 0 where
    pub capacity : ℕ
    pub room : get_plaintext_capacity l mode role ≡ ok capacity
    pub enough :
        4 + length (written_metadata plaintext role filename created_at) + length plaintext
        ≤ capacity
    pub short : length (written_metadata plaintext role filename created_at) < 2 ^ 32

  -- The record at which the bytes of the salt, the nonce and the padding stand.
  sealed_record :
      Bytes → Bytes → String → String → Option Bytes → Bytes → World → Bytes → ℕ → Sealed
  sealed_record plaintext key mode role filename salt s len capacity =
      let meta = written_metadata plaintext role filename s.clock in
      let nonce = env.rng.urandom s.draws 12 in
      let padding =
        env.rng.urandom (suc s.draws) (capacity - (4 + length meta + length plaintext)) in
      record {
        salt = salt;
        nonce = nonce;
        ciphertext =
            env.encrypt key nonce (record_plaintext env l len meta plaintext padding)
              (record_aad l mode role);
      }

  pub encrypt_record_ok :
      (plaintext key : Bytes) (mode role : String) (filename : Option Bytes) (salt : Bytes)
      (s : World)
      → (f : Fits plaintext mode role filename s.clock)
      → (sealed : Sealed) × (encrypt_record env l plaintext key mode role filename none none
            (some salt)
            s
          ≡ (ok sealed, record s { draws = suc (suc s.draws) }))
        × (sealed.salt ≡ salt)
        × (length sealed.nonce ≡ 12)
        × (length sealed.ciphertext ≡ f.capacity + 16)
        × Encrypts plaintext key mode role filename s.clock sealed
  unfolding encrypt_record sealed_record
  encrypt_record_ok plaintext key mode role filename salt s f =
      let meta = written_metadata plaintext role filename s.clock in
      let (len, packed) = pack_fits (length meta) f.short in
      let (number, four) = unpack-pack (length meta) packed in
      let padding =
        env.rng.urandom (suc s.draws) (f.capacity - (4 + length meta + length plaintext)) in
      let padded =
        env.rng.length-urandom (suc s.draws) (f.capacity - (4 + length meta + length plaintext)) in
      let sealed = sealed_record plaintext key mode role filename salt s len f.capacity in
      (
        sealed,
        ground (arith, f.room, packed, f.enough),
        refl,
        env.rng.length-urandom s.draws 12,
        omega (
          arith,
          env.length-encrypt key sealed.nonce (record_plaintext env l len meta plaintext padding)
              (record_aad l mode role),
          length-append {0} len (meta ++ (plaintext ++ padding)),
          length-append {0} meta (plaintext ++ padding),
          length-append {0} plaintext padding,
          padded,
          f.enough,
        ),
        record {
          len = len;
          padding = padding;
          capacity = f.capacity;
          packed = packed;
          room = f.room;
          fits = omega (arith, padded, f.enough);
          sealed_as = refl;
        },
      )

  -- A record that fits its slot is encrypted, its ciphertext fills the slot behind the salt and the
  -- nonce, and decrypting it under the same key, mode and role gives back the payload and the name
  -- without its directories.
  pub decrypt_record-encrypt_record :
      (plaintext key : Bytes) (mode role : String) (filename : Option Bytes) (salt : Bytes)
      (s : World)
      → (f : Fits plaintext mode role filename s.clock)
      → (sealed : Sealed) × (encrypt_record env l plaintext key mode role filename none none
            (some salt)
            s
          ≡ (ok sealed, record s { draws = suc (suc s.draws) }))
        × (sealed.salt ≡ salt)
        × (length sealed.nonce ≡ 12)
        × (length sealed.ciphertext ≡ f.capacity + 16)
        × (decrypt_record env l sealed.ciphertext key sealed.nonce mode role
            ≡ ok (record {
              payload = plaintext;
              filename = recovered_name filename;
              fields = metadata role (basename (or_default filename)) (length plaintext) s.clock;
            }))
  decrypt_record-encrypt_record plaintext key mode role filename salt s f =
      let (sealed, call, same, n, c, e) =
        encrypt_record_ok plaintext key mode role filename salt s f in
      (sealed, call, same, n, c, decrypt_record-Encrypts plaintext key mode role filename s.clock e)

  -- A record that does not fit is refused: the nonce was drawn, and nothing else has changed.
  pub encrypt_record_too_large :
      (plaintext key : Bytes) (mode role : String) (filename : Option Bytes) (salt : Bytes)
      (s : World) {capacity : ℕ}
      → get_plaintext_capacity l mode role ≡ ok capacity
      → capacity < 4 + length (written_metadata plaintext role filename s.clock) + length plaintext
      → encrypt_record env l plaintext key mode role filename none none (some salt) s ≡ (
        err (value_error "encrypted payload does not fit in the container"),
        record s { draws = suc s.draws },
      )
  unfolding encrypt_record
  encrypt_record_too_large plaintext key mode role filename salt s room h = ground arith
