-- ===== src/Storage/Machine.antt =====
-- What the vault classes change or ask of the machine: the container file, the access key file,
-- os.urandom and the clock. A file that is not there is `none`. A disk that fails in the middle of
-- an operation is not modelled.
use phantasm.Base.{ℕ, suc, String, ◌≡◌, Option, Bytes, length}
use phantasm.Base.Except.{ok, Method}

-- The exceptions, with the fixed part of their message where the code gives one.
pub data Error : Type 0 where
  file_not_found : Error
  os_error : Error
  value_error : String → Error
  invalid_tag : Error
  json_decode_error : Error
  unicode_decode_error : Error
  key_error : Error
  struct_error : Error
  type_error : Error
  attribute_error : Error

pub record World : Type 0 where
  pub container : Option Bytes
  pub access_key : Option Bytes
  pub draws : ℕ  -- how often os.urandom was called
  pub clock : ℕ  -- int(time.time())

abbrev pub Vault : Type 0 → Type 0
Vault A = Method World Error A

-- os.urandom: the bytes of the k-th call, as many as were asked for.
pub record Entropy : Type 0 where
  pub urandom : ℕ → ℕ → Bytes
  pub length-urandom : (k size : ℕ) → length (urandom k size) ≡ size

module _ (rng : Entropy) where
  unfoldable pub random : ℕ → Vault Bytes
  random size s = (ok (rng.urandom s.draws size), record s { draws = suc s.draws })
