-- ===== src/Vault/Slots.antt =====
-- One slot: what `write_slot` leaves in the container, and what `retrieve_slot` finds there.
use phantasm.Base.{
  ℕ, suc, ◌+◌, ◌-◌, ◌≤◌, ◌<◌, ◌≡◌, refl, ap, ◌∙◌, String, Option, some, List, [], ◌++◌, Bytes,
  length, drop, take-drop-take, drop-drop, length-append, append_assoc, append-nil, take-append,
  drop-append, arith,
}
use native.Mathlib.Nat.{add-zero}
use phantasm.Base.Except.{ok, err}
use phantasm.Storage.{value_error, World, write_at, read_at, read_at-write_at_self}
use phantasm.Container.{ContainerLayout, Span, get_slot_span, get_plaintext_capacity}
use phantasm.Platform.{Platform, metadata}
use phantasm.RecordCipher.{Sealed, Opened, basename, or_default, decrypt_record}
use phantasm.RecordCipher.RoundTrip.{
  Fits, recovered_name, written_metadata, encrypt_record_too_large, decrypt_record-encrypt_record,
}
use phantasm.KdfEngine.Keys.{slot_key, IsUsable, derive_key_create, derive_key_found}
use phantasm.Vault.{read_container, recover, open_record, read_slot, retrieve_slot, write_slot}

-- The part of a file that begins `i` bytes into a span, where the span is known.
read_part :
    (start m i n : ℕ) (file before part after : Bytes)
    → read_at start m file ≡ before ++ (part ++ after)
    → length before ≡ i
    → length part ≡ n
    → i + n ≤ m
    → read_at (start + i) n file ≡ part
unfolding read_at
read_part start m i n file before part after whole b p h =
    rw (← drop-drop start i file, ← take-drop-take i n m (drop start file) h, whole, ← b, ← p)
      (rw (drop-append before (part ++ after)) (take-append part after))

-- The capacity of a slot leaves room for the salt, the nonce and the tag.
pub capacity_of_span :
    (l : ContainerLayout) (mode role : String) {span : Span} {capacity : ℕ}
    → get_slot_span l mode role ≡ ok span
    → get_plaintext_capacity l mode role ≡ ok capacity
    → capacity + 44 ≡ span.1
unfolding get_plaintext_capacity
capacity_of_span l mode role p q = ground arith

module _ (env : Platform) (l : ContainerLayout) where
  -- The slot of a mode and a role holds a record that opens under a password.
  pub record Holds (password : Bytes) (gestures : List Bytes) (mode role : String)
      (payload name : Bytes) (s : World) : Type 0 where
    pub file : Bytes
    pub key : Bytes
    pub span : Span
    pub sealed : Sealed
    pub opened : Opened
    pub container_at : s.container ≡ some file
    pub key_at : s.access_key ≡ some key
    pub key_size : length key ≡ 32
    pub span_at : get_slot_span l mode role ≡ ok span
    pub stored : read_at span.0 span.1 file ≡ sealed.salt ++ (sealed.nonce ++ sealed.ciphertext)
    pub salt_length : length sealed.salt ≡ 16
    pub nonce_length : length sealed.nonce ≡ 12
    pub ciphertext_length : 16 + (12 + length sealed.ciphertext) ≡ span.1
    pub opens :
        decrypt_record env l sealed.ciphertext
          (slot_key env (some key) password gestures mode sealed.salt role)
          sealed.nonce
          mode
          role
        ≡ ok opened
    pub payload_is : opened.payload ≡ payload
    pub name_is : opened.filename ≡ name

  -- What a slot holds is what `retrieve_slot` gives, and it changes nothing.
  pub retrieve_slot-Holds :
      (password : Bytes) (gestures : List Bytes) (mode role : String) {payload name : Bytes}
      (s : World)
      → Holds password gestures mode role payload name s
      → retrieve_slot env l password gestures mode role s ≡ (ok (some (payload, name)), s)
  unfolding retrieve_slot read_container read_slot recover open_record
  retrieve_slot-Holds password gestures mode role {payload} {name} s h =
      let (start, span_len) = h.span in
      let n = length h.sealed.ciphertext in
      let at_salt : read_at start 16 h.file ≡ h.sealed.salt = rw add-zero at (
        read_part start span_len 0 16 h.file [] h.sealed.salt
          (h.sealed.nonce ++ h.sealed.ciphertext) h.stored refl h.salt_length
          (omega (arith, h.ciphertext_length))) in
      let at_nonce : read_at (start + 16) 12 h.file ≡ h.sealed.nonce =
        read_part start span_len 16 12 h.file h.sealed.salt h.sealed.nonce h.sealed.ciphertext
          h.stored h.salt_length h.nonce_length (omega (arith, h.ciphertext_length)) in
      let at_text : read_at (start + 28) n h.file ≡ h.sealed.ciphertext =
        read_part start span_len 28 n h.file (h.sealed.salt ++ h.sealed.nonce) h.sealed.ciphertext
          []
          (rw (append_assoc h.sealed.salt h.sealed.nonce, append-nil h.sealed.ciphertext) h.stored)
          (rw (length-append h.sealed.salt h.sealed.nonce, h.salt_length, h.nonce_length) refl) refl
          (omega (arith, h.ciphertext_length)) in
      let n_is : span_len - 16 - 12 ≡ n = omega (arith, h.ciphertext_length) in
      let from : start + 16 + 12 ≡ start + 28 = omega arith in
      ground (
        arith,
        at_salt,
        at_nonce,
        at_text,
        n_is,
        from,
        derive_key_found env password gestures mode h.sealed.salt role s h.key_at h.key_size,
      )

  -- What `write_slot` did to a container: it wrote the slot's span, and may have made the access key.
  pub record Writes (password : Bytes) (gestures : List Bytes) (mode role : String)
      (payload name : Bytes) (span : Span) (s t : World) : Type 0 where
    pub key : Bytes
    pub bytes : Bytes
    pub old : Bytes
    pub draws : ℕ
    pub was : s.container ≡ some old
    pub fills : length bytes ≡ span.1
    pub kept : (k : Bytes) → s.access_key ≡ some k → key ≡ k
    pub state : t ≡ record s {
      container = some (write_at span.0 bytes old);
      access_key = some key;
      draws = draws;
    }
    pub holds : Holds password gestures mode role payload name t

  -- A record that fits is written, and its slot then holds it.
  pub write_slot-Writes :
      (password payload : Bytes) (gestures : List Bytes) (filename : Option Bytes)
      (mode role : String) (s : World) {file : Bytes} {span : Span}
      → s.container ≡ some file
      → IsUsable env s.access_key
      → get_slot_span l mode role ≡ ok span
      → Fits env l payload mode role filename s.clock
      → (t : World) × (write_slot env l password payload gestures filename mode role s ≡ (ok tt, t))
        × Writes password gestures mode role payload (recovered_name filename) span s t
  unfolding write_slot
  write_slot-Writes password payload gestures filename mode role s {file} {span} at usable p f =
      let salt = env.rng.urandom s.draws 16 in
      let salted = env.rng.length-urandom s.draws 16 in
      let s1 = record s { draws = suc s.draws } in
      let (key, draws, size, kept, derived) =
        derive_key_create env password gestures mode salt role s1 usable in
      let s2 = record s1 { access_key = some key; draws = draws } in
      let slot = slot_key env (some key) password gestures mode salt role in
      let (sealed, encrypted, same, n, c, opens) =
        decrypt_record-encrypt_record env l payload slot mode role filename salt s2 f in
      let bytes = sealed.salt ++ (sealed.nonce ++ sealed.ciphertext) in
      let capacity = capacity_of_span l mode role p f.room in
      let salt_size : length sealed.salt ≡ 16 = rw same salted in
      let fills : length bytes ≡ span.1 = omega (
        arith,
        length-append {0} sealed.salt (sealed.nonce ++ sealed.ciphertext),
        length-append {0} sealed.nonce sealed.ciphertext,
        n,
        c,
        salt_size,
        capacity,
      ) in
      let t = record s2 {
        container = some (write_at span.0 bytes file);
        draws = suc (suc draws);
      } in
      (
        t,
        ground (arith, at, p, derived, encrypted, fills),
        record {
          key = key;
          bytes = bytes;
          old = file;
          draws = suc (suc draws);
          was = at;
          fills = fills;
          kept = kept;
          state = refl;
          holds = record {
            file = write_at span.0 bytes file;
            key = key;
            span = span;
            sealed = sealed;
            opened = record {
              payload = payload;
              filename = recovered_name filename;
              fields = metadata role (basename (or_default filename)) (length payload) s.clock;
            };
            container_at = refl;
            key_at = refl;
            key_size = size;
            span_at = p;
            stored = rw fills at (read_at-write_at_self span.0 bytes file);
            salt_length = salt_size;
            nonce_length = n;
            ciphertext_length = omega (arith, c, capacity);
            opens = rw same opens;
            payload_is = refl;
            name_is = refl;
          };
        },
      )

  -- A record that does not fit is not written; the access key stays if there was one.
  pub write_slot_too_large :
      (password payload : Bytes) (gestures : List Bytes) (filename : Option Bytes)
      (mode role : String) (s : World) {span : Span} {capacity : ℕ}
      → IsUsable env s.access_key
      → get_slot_span l mode role ≡ ok span
      → get_plaintext_capacity l mode role ≡ ok capacity
      → capacity
        < 4 + length (written_metadata env l payload role filename s.clock) + length payload
      → (t : World) × (write_slot env l password payload gestures filename mode role s
          ≡ (err (value_error "encrypted payload does not fit in the container"), t))
        × (t.container ≡ s.container)
        × ((k : Bytes) → s.access_key ≡ some k → t.access_key ≡ some k)
  unfolding write_slot
  write_slot_too_large password payload gestures filename mode role s usable p room over =
      let salt = env.rng.urandom s.draws 16 in
      let s1 = record s { draws = suc s.draws } in
      let (key, draws, size, kept, derived) =
        derive_key_create env password gestures mode salt role s1 usable in
      let s2 = record s1 { access_key = some key; draws = draws } in
      let refused =
        encrypt_record_too_large env l payload
          (slot_key env (some key) password gestures mode salt role) mode role filename salt s2 room
          over in
      (
        record s2 { draws = suc draws },
        ground (arith, p, derived, refused),
        refl,
        λ k e. ap some (kept k e),
      )

  -- A slot keeps what it holds while its bytes and the access key stay.
  pub Holds-keep :
      (password : Bytes) (gestures : List Bytes) (mode role : String) {payload name : Bytes}
      {s t : World} {new : Bytes}
      → (h : Holds password gestures mode role payload name s) → t.container ≡ some new
      → t.access_key ≡ some h.key
      → read_at h.span.0 h.span.1 new ≡ read_at h.span.0 h.span.1 h.file
      → Holds password gestures mode role payload name t
  Holds-keep password gestures mode role {new} h at key same = record {
    file = new;
    container_at = at;
    key_at = key;
    stored = same ∙ h.stored;
    key = h.key;
    span = h.span;
    sealed = h.sealed;
    opened = h.opened;
    key_size = h.key_size;
    span_at = h.span_at;
    salt_length = h.salt_length;
    nonce_length = h.nonce_length;
    ciphertext_length = h.ciphertext_length;
    opens = h.opens;
    payload_is = h.payload_is;
    name_is = h.name_is;
  }
