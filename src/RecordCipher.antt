-- ===== src/RecordCipher.antt =====
-- record_cypher.py: one record of the vault. Its plaintext is the length of the metadata in four
-- bytes, the metadata as JSON, the payload, and random padding up to the slot's capacity.
pub mod Names
mod Tests
pub mod RoundTrip
use phantasm.Base.{
  ℕ, zero, suc, ◌+◌, ◌-◌, ◌*◌, ◌/◌, ◌%◌, ◌^◌, String, Bool, true, false, not, ◌&&◌, ◌||◌, Option,
  none, some, List, [], ◌∷◌, ◌++◌, Bytes, length, take, drop, codes, decimal, bytes_eq, ltb, leb,
  ◌==◌, if◌then◌else◌,
}
use phantasm.Base.Dict.{Dict, lookup}
use phantasm.Base.Except.{Result, ok, err, pure, raise, lift, gets, require, ◌>>=◌, ◌>>◌}
use phantasm.Storage.{
  World, Vault, Error, value_error, invalid_tag, type_error, attribute_error, struct_error, random,
}
use phantasm.Container.{ContainerLayout, get_plaintext_capacity}
use phantasm.Platform.{
  Platform, Value, null, boolean, integer, negative, float, text, inner, Document, object,
  not_object, metadata,
}

-- os.path.basename: what stands behind the last slash
basename_from : Bytes → Bytes → Bytes
basename_from keep [] = keep
basename_from keep (c ∷ rest) = basename_from (if c == b'/' then rest else keep) rest

unfoldable pub basename : Bytes → Bytes
unfolding basename_from
basename path = basename_from path path

-- struct.pack(">I", n) and struct.unpack(">I", b)
abbrev four_bytes : ℕ → Bytes
four_bytes n = (n / 2 ^ 24) ∷ (n / 2 ^ 16 % 256) ∷ (n / 2 ^ 8 % 256) ∷ (n % 256) ∷ []

unfoldable pub pack : ℕ → Result Error Bytes
pack n = if ltb n (2 ^ 32) then ok (four_bytes n) else err struct_error

unfoldable pub unpack : Bytes → ℕ
unpack (a ∷ b ∷ c ∷ d ∷ []) = a * 2 ^ 24 + b * 2 ^ 16 + c * 2 ^ 8 + d
unpack _ = 0

-- `filename or "payload.bin"`
abbrev pub or_default : Option Bytes → Bytes
or_default none = codes "payload.bin"
or_default (some []) = codes "payload.bin"
or_default (some (c ∷ name)) = c ∷ name

abbrev get_or {ℓ} : {A : Type ℓ} → Option A → A → A
get_or none a = a
get_or (some b) a = b

-- f"phasmid-record-v3:{mode}:{password_role}:{self.container_size}"
unfoldable pub record_aad : ContainerLayout → String → String → Bytes
record_aad l mode role =
    codes "phasmid-record-v3:"
    ++ (codes mode ++ (codes ":" ++ (codes role ++ (codes ":" ++ decimal l.container_size))))

pub record Sealed : Type 0 where
  pub salt : Bytes
  pub nonce : Bytes
  pub ciphertext : Bytes

module _ (env : Platform) (l : ContainerLayout) where
  -- `salt` is drawn if none is given
  choose_salt : Option Bytes → Vault Bytes
  choose_salt none = random env.rng 16
  choose_salt (some salt) = pure salt

  abbrev record_plaintext : Bytes → Bytes → Bytes → Bytes → Bytes
  record_plaintext len metadata_bytes plaintext padding =
      len ++ (metadata_bytes ++ (plaintext ++ padding))

  unfoldable pub encrypt_record :
      Bytes
      → Bytes
      → String
      → String
      → Option Bytes
      → Option ℕ
      → Option ℕ
      → Option Bytes
      → Vault Sealed
  unfolding choose_salt random
  encrypt_record plaintext key mode role filename payload_len created_at salt = do
    now ← gets (λ s. s.clock)
    salt ← choose_salt salt
    nonce ← random env.rng 12
    let metadata_bytes = env.dumps (
        metadata role (basename (or_default filename)) (get_or payload_len (length plaintext))
          (get_or created_at now))
    let required_len = 4 + length metadata_bytes + length plaintext
    capacity ← lift (get_plaintext_capacity l mode role)
    require (leb required_len capacity)
        (value_error "encrypted payload does not fit in the container")
    padding ← random env.rng (capacity - required_len)
    len ← lift (pack (length metadata_bytes))
    pure (record {
      salt = salt;
      nonce = nonce;
      ciphertext =
          env.encrypt key nonce (record_plaintext len metadata_bytes plaintext padding)
            (record_aad l mode role);
    })

-- `v == t` for a text and `v == n` for an int; Python's True is 1 and a float may be whole
equals_text : Option Value → Bytes → Bool
equals_text (some (text t)) b = bytes_eq t b
equals_text _ b = false

equals_integer : Option Value → ℕ → Bool
equals_integer (some (integer n)) m = n == m
equals_integer (some (boolean true)) m = m == 1
equals_integer (some (boolean false)) m = m == 0
equals_integer (some (float false num den)) m = ltb 0 den && num == m * den
equals_integer _ m = false

-- `isinstance(payload_len, int)` and not negative
payload_length : Option Value → Result Error ℕ
payload_length (some (integer n)) = ok n
payload_length (some (boolean true)) = ok 1
payload_length (some (boolean false)) = ok 0
payload_length _ = err (value_error "invalid payload length")

-- `os.path.basename(metadata.get("filename") or "payload.bin")`
stored_name : Option Value → Result Error Bytes
unfolding basename
stored_name (some (text name)) = ok (basename (or_default (some name)))
stored_name none = ok (codes "payload.bin")
stored_name (some null) = ok (codes "payload.bin")
stored_name (some (boolean false)) = ok (codes "payload.bin")
stored_name (some (integer zero)) = ok (codes "payload.bin")
stored_name (some (float _ zero _)) = ok (codes "payload.bin")
stored_name (some (inner false)) = ok (codes "payload.bin")
stored_name _ = err type_error

pub record Opened : Type 0 where
  pub payload : Bytes
  pub filename : Bytes
  pub fields : Dict Value

-- the checks on the parsed metadata, and the cut of the payload behind it
read_fields : Bytes → ℕ → String → Document → Result Error Opened
unfolding equals_text equals_integer payload_length stored_name lookup bytes_eq
read_fields decrypted meta_len role not_object = err attribute_error
read_fields decrypted meta_len role (object fields) =
    if not (equals_text (lookup "format" fields) (codes "jes-v3"))
      || not (equals_integer (lookup "version" fields) 3)
    then err (value_error "invalid record format or version")
    else if not (equals_text (lookup "password_role" fields) (codes role))
    then err (value_error "password role mismatch")
    else elim (payload_length (lookup "payload_len" fields)) [
      | err e ↦ err e
      | ok payload_len ↦
          if ltb (length decrypted) (4 + meta_len + payload_len)
          then err (value_error "payload length exceeds decrypted data")
          else elim (stored_name (lookup "filename" fields)) [
            | err e ↦ err e
            | ok name ↦ ok (record {
              payload = take payload_len (drop (4 + meta_len) decrypted);
              filename = name;
              fields = fields;
            })
          ]
    ]

-- what follows the decryption
read_record : (Bytes → Result Error Document) → String → Bytes → Result Error Opened
unfolding read_fields unpack
read_record loads role decrypted =
    if ltb (length decrypted) 4
    then err (value_error "decrypted record too short")
    else let meta_len = unpack (take 4 decrypted) in
      if ltb (length decrypted - 4) meta_len
      then err (value_error "invalid metadata length")
      else elim (loads (take meta_len (drop 4 decrypted))) [
        | err e ↦ err e
        | ok document ↦ read_fields decrypted meta_len role document
      ]

module _ (env : Platform) (l : ContainerLayout) where
  unfoldable pub decrypt_record : Bytes → Bytes → Bytes → String → String → Result Error Opened
  unfolding read_record
  decrypt_record ciphertext key nonce mode role =
      elim (env.decrypt key nonce ciphertext (record_aad l mode role)) [
        | none ↦ err invalid_tag
        | some decrypted ↦ read_record env.loads role decrypted
      ]
