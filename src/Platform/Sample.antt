-- ===== src/Platform/Sample.antt =====
-- A concrete platform for the tests: the key is the tag, the metadata are counted fields, and the key
-- derivation keeps the end of its input.
use phantasm.Base.{
  ℕ, ◌+◌, ◌-◌, ◌≡◌, refl, String, Option, none, some, [], ◌∷◌, ◌++◌, Bytes, length, take, drop,
  replicate, codes, bytes_eq, bytes_eq_refl, if◌then◌else◌, length-append, length-take, take-append,
  drop-append, arith,
}
use phantasm.Base.Dict.{Dict, lookup}
use phantasm.Base.Except.{Result, ok, err}
use phantasm.Storage.{Error, json_decode_error}
use phantasm.Storage.Sample.{counting}
use phantasm.Platform.{Platform, Value, text, integer, Document, object, metadata, metadata_of}

abbrev tag : Bytes → Bytes
tag key = take 16 (key ++ replicate 16 0)

length-tag : (key : Bytes) → length (tag key) ≡ 16
length-tag key =
    omega
      (arith, length-take {0} 16 (key ++ replicate 16 0), length-append {0} key (replicate 16 0))

abbrev pub seal : Bytes → Bytes → Bytes → Bytes → Bytes
seal key nonce plaintext aad = plaintext ++ tag key

abbrev pub unseal : Bytes → Bytes → Bytes → Bytes → Option Bytes
unseal key nonce ciphertext aad =
    let n = length ciphertext - 16 in
    if bytes_eq (drop n ciphertext) (tag key) then some (take n ciphertext) else none

pub unseal-seal :
    (key nonce plaintext aad : Bytes)
    → unseal key nonce (seal key nonce plaintext aad) aad ≡ some plaintext
unseal-seal key nonce plaintext aad =
    let n : length (plaintext ++ tag key) - 16 ≡ length plaintext =
      omega (arith, length-append {0} plaintext (tag key), length-tag key) in
    rw
      (n, drop-append plaintext (tag key), bytes_eq_refl (tag key), take-append plaintext (tag key))
      refl

pub length-seal :
    (key nonce plaintext aad : Bytes)
    → length (seal key nonce plaintext aad) ≡ length plaintext + 16
length-seal key nonce plaintext aad =
    omega (arith, length-append {0} plaintext (tag key), length-tag key)

abbrev text_of : Option Value → Bytes
text_of (some (text t)) = t
text_of _ = []

abbrev number_of : Option Value → ℕ
number_of (some (integer n)) = n
number_of _ = 0

abbrev encode : Bytes → Bytes → ℕ → ℕ → Bytes
encode role name n t = length role ∷ (role ++ (length name ∷ (name ++ (n ∷ t ∷ []))))

abbrev pub write_json : Dict Value → Bytes
unfolding lookup
write_json d =
    encode (text_of (lookup "password_role" d)) (text_of (lookup "filename" d))
      (number_of (lookup "payload_len" d)) (number_of (lookup "created_at" d))

abbrev read_numbers : Bytes → Bytes → Bytes → Result Error Document
read_numbers role name (n ∷ t ∷ []) = ok (object (metadata_of role name n t))
read_numbers role name _ = err json_decode_error

abbrev read_name : Bytes → Bytes → Result Error Document
read_name role [] = err json_decode_error
read_name role (k ∷ rest) = read_numbers role (take k rest) (drop k rest)

abbrev pub read_json : Bytes → Result Error Document
read_json [] = err json_decode_error
read_json (k ∷ rest) = read_name (take k rest) (drop k rest)

pub read_json-write_json :
    (role : String) (name : Bytes) (n t : ℕ)
    → read_json (write_json (metadata role name n t)) ≡ ok (object (metadata role name n t))
unfolding lookup
read_json-write_json role name n t =
    let rest = length name ∷ (name ++ (n ∷ t ∷ [])) in
    rw (take-append (codes role) rest, drop-append (codes role) rest)
      (rw (take-append name (n ∷ t ∷ []), drop-append name (n ∷ t ∷ [])) refl)

abbrev pub simple : Platform
unfolding lookup
simple = record {
  rng = counting;
  encrypt = seal;
  decrypt = unseal;
  decrypt-encrypt = unseal-seal;
  length-encrypt = length-seal;
  argon2id = λ salt secret context. take 16 context;
  dumps = write_json;
  loads = read_json;
  loads-dumps = read_json-write_json;
  secrets = none ∷ [];
}
