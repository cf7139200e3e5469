-- ===== src/Base/Text.antt =====
-- A Python `str` that the code cuts or joins is the list of its UTF-8 bytes, and `bytes` is a list
-- of numbers below 256. A `str` that is only compared is a native `String`.
use Prim.Native.Nat.{ℕ, zero, suc, ◌+◌, ◌/◌, ◌%◌}
use Prim.Native.Char.{code}
use Prim.Native.String.{String}
use mathlib.Core.Path.{◌≡◌, refl}
use mathlib.Core.Bool.{Bool, true, false, ◌&&◌}
use mathlib.Core.List.{List, [], ◌∷◌}
use native.Mathlib.Omega.{arith}
use text.Mathlib.Text.{◌==◌ as text_eq}
use phantasm.Base.Tests.{◌==◌, ltb, if◌then◌else◌}

abbrev pub Bytes : Type 0
Bytes = List ℕ

-- The bytes of an ASCII text.
abbrev pub codes : String → Bytes
codes String.[] = []
codes (String.◌∷◌ c s) = code c ∷ codes s

-- `==` on two values of type `str`
abbrev pub str_eq : String → String → Bool
str_eq = text_eq

-- `==` on two values of type `bytes`
unfoldable pub bytes_eq : Bytes → Bytes → Bool
bytes_eq [] [] = true
bytes_eq [] (y ∷ ys) = false
bytes_eq (x ∷ xs) [] = false
bytes_eq (x ∷ xs) (y ∷ ys) = x == y && bytes_eq xs ys

pub bytes_eq_sound : (xs ys : Bytes) → bytes_eq xs ys ≡ true → xs ≡ ys
unfolding bytes_eq
bytes_eq_sound [] [] h = refl
bytes_eq_sound [] (y ∷ ys) h = cc
bytes_eq_sound (x ∷ xs) [] h = cc
bytes_eq_sound (x ∷ xs) (y ∷ ys) h = ground (arith, bytes_eq_sound xs ys)

pub bytes_eq_refl : (xs : Bytes) → bytes_eq xs xs ≡ true
unfolding bytes_eq
bytes_eq_refl [] = refl
bytes_eq_refl (x ∷ xs) = ground (arith, bytes_eq_refl xs)

-- `str(n)` for n ≥ 0, on fuel; the digits of n are no more than n + 1
decimal_from : ℕ → ℕ → Bytes → Bytes
decimal_from zero n acc = acc
decimal_from (suc f) n acc =
    let rest = decimal_from f (n / 10) ((48 + n % 10) ∷ acc) in
    if ltb n 10 then (48 + n) ∷ acc else rest

unfoldable pub decimal : ℕ → Bytes
unfolding decimal_from
decimal n = decimal_from (suc n) n []

decimal_1024 : decimal 1024 ≡ codes "1024"
unfolding decimal
decimal_1024 = refl
