-- ===== src/FaceNamespace/Sample.antt =====
-- For the tests: base64 is a text of as many `a` as each byte says, with a `b` behind them.
use phantasm.Base.{
  ℕ, zero, suc, ◌≡◌, refl, String, Option, none, some, [], ◌∷◌, Bytes, ◌==◌, ◌+◌, arith,
  if◌then◌else◌,
}
use phantasm.Base.Except.{ok, err}
use phantasm.FaceNamespace.{type_error, Scalars}
use phantasm.RegistrySeal.Sample.{leaf, number, json}
use Prim.Native.Char.{code}

abbrev unary : ℕ → String → String
unary zero s = String.◌∷◌ "b" s
unary (suc n) s = String.◌∷◌ "a" (unary n s)

abbrev pub encode_text : Bytes → String
encode_text [] = ""
encode_text (x ∷ xs) = unary x (encode_text xs)

abbrev byte_before : ℕ → Option Bytes → Option Bytes
byte_before n none = none
byte_before n (some xs) = some (n ∷ xs)

abbrev decode_from : ℕ → String → Option Bytes
decode_from n String.[] = some []
decode_from n (String.◌∷◌ c s) =
    let more = decode_from (suc n) s in
    let next = decode_from 0 s in if code c == 97 then more else byte_before n next

decode-unary :
    (n k : ℕ) (s : String) (xs : Bytes)
    → decode_from 0 s ≡ some xs
    → decode_from n (unary k s) ≡ some ((k + n) ∷ xs)
decode-unary n zero s xs h = ground (arith, h)
decode-unary n (suc k) s xs h = ground (arith, decode-unary (suc n) k s xs h)

pub decode-encode_text : (xs : Bytes) → decode_from 0 (encode_text xs) ≡ some xs
decode-encode_text [] = refl
decode-encode_text (x ∷ xs) =
    ground (arith, decode-unary 0 x (encode_text xs) xs (decode-encode_text xs))

abbrev pub scalars : Scalars json
scalars = record {
  of_text = leaf;
  of_int = number;
  as_text = λ v. elim v [ leaf s ↦ some s | _ ↦ none ];
  int = λ v. elim v [ number n ↦ ok n | _ ↦ err type_error ];
  b64encode = encode_text;
  b64decode = decode_from 0;
  as_text-of_text = λ s. refl;
  str-of_text = λ s. refl;
  int-of_int = λ n. refl;
  b64decode-b64encode = decode-encode_text;
}
