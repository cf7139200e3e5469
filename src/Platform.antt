-- ===== src/Platform.antt =====
-- What the vault uses of code that is not in the repository: AES-GCM and Argon2id of the package
-- `cryptography`, the JSON codec, os.urandom, and the secrets that the providers of kdf_providers.py
-- read from outside.
pub mod Sample
use phantasm.Base.{
  ℕ, ◌+◌, ◌≡◌, String, Bool, true, false, Option, none, some, List, [], ◌∷◌, Bytes, length, codes,
}
use phantasm.Base.Dict.{Dict}
use phantasm.Base.Except.{Result, ok}
use phantasm.Storage.{Entropy, Error}

-- A value of a parsed JSON object, as far as the code looks at it. A text is its UTF-8 bytes;
-- `negative n` is -(n + 1); `float` has a sign, a numerator and a denominator; of an inner array or
-- object only its truth value is looked at.
pub data Value : Type 0 where
  null : Value
  boolean : Bool → Value
  integer : ℕ → Value
  negative : ℕ → Value
  float : Bool → ℕ → ℕ → Value
  text : Bytes → Value
  inner : Bool → Value

-- A parsed JSON document: an object, or anything else.
pub data Document : Type 0 where
  object : Dict Value → Document
  not_object : Document

abbrev pub metadata_of : Bytes → Bytes → ℕ → ℕ → Dict Value
metadata_of password_role filename payload_len created_at =
    ("format", text (codes "jes-v3"))
    ∷ ("version", integer 3)
    ∷ ("password_role", text password_role)
    ∷ ("filename", text filename)
    ∷ ("payload_len", integer payload_len)
    ∷ ("created_at", integer created_at)
    ∷ ("kdf", text (codes "argon2id"))
    ∷ []

-- The `metadata` of `encrypt_record`.
abbrev pub metadata : String → Bytes → ℕ → ℕ → Dict Value
metadata password_role = metadata_of (codes password_role)

pub record Platform : Type 0 where
  pub rng : Entropy
  -- AESGCM(key).encrypt(nonce, plaintext, aad), and decrypt, `none` for InvalidTag
  pub encrypt : Bytes → Bytes → Bytes → Bytes → Bytes
  pub decrypt : Bytes → Bytes → Bytes → Bytes → Option Bytes
  pub decrypt-encrypt :
      (key nonce plaintext aad : Bytes)
      → decrypt key nonce (encrypt key nonce plaintext aad) aad ≡ some plaintext
  -- the tag takes 16 bytes
  pub length-encrypt :
      (key nonce plaintext aad : Bytes)
      → length (encrypt key nonce plaintext aad) ≡ length plaintext + 16
  -- Argon2id at the parameters of crypto_params.py: salt, secret, password
  pub argon2id : Bytes → Bytes → Bytes → Bytes
  -- json.dumps(…).encode("utf-8"), and json.loads(….decode("utf-8"))
  pub dumps : Dict Value → Bytes
  pub loads : Bytes → Result Error Document
  pub loads-dumps :
      (role : String) (filename : Bytes) (payload_len created_at : ℕ)
      → loads (dumps (metadata role filename payload_len created_at))
        ≡ ok (object (metadata role filename payload_len created_at))
  -- what each provider's get_secret() returns
  pub secrets : List (Option Bytes)
