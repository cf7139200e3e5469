-- ===== src/Storage/File.antt =====
-- One file as its bytes. A write past the end fills the gap with zeros, as POSIX says; writing
-- nothing changes nothing. Reading past the end gives what there is.
use native.Mathlib.Nat.{add-zero}
use phantasm.Base.{
  ℕ, zero, suc, ◌+◌, ◌≤◌, ◌≡◌, refl, sym, ap, ◌∙◌, [], ◌∷◌, ◌++◌, Bytes, length, take, drop,
  append-nil, drop-nil, arith,
}

-- `f.seek(start); f.write(payload)`
unfoldable pub write_at : ℕ → Bytes → Bytes → Bytes
write_at start [] file = file
write_at zero (b ∷ payload) [] = b ∷ write_at zero payload []
write_at zero (b ∷ payload) (x ∷ file) = b ∷ write_at zero payload file
write_at (suc start) (b ∷ payload) [] = 0 ∷ write_at start (b ∷ payload) []
write_at (suc start) (b ∷ payload) (x ∷ file) = x ∷ write_at start (b ∷ payload) file

-- `f.seek(start); f.read(size)`
unfoldable pub read_at : ℕ → ℕ → Bytes → Bytes
read_at start size file = take size (drop start file)

-- A write inside the file keeps its length.
pub length-write_at :
    (start : ℕ) (payload file : Bytes)
    → start + length payload ≤ length file
    → length (write_at start payload file) ≡ length file
unfolding write_at
length-write_at start [] file h = refl
length-write_at zero (b ∷ payload) [] h = absurd (omega arith)
length-write_at zero (b ∷ payload) (x ∷ file) h =
    ap suc (length-write_at zero payload file (omega arith))
length-write_at (suc start) (b ∷ payload) [] h = absurd (omega arith)
length-write_at (suc start) (b ∷ payload) (x ∷ file) h =
    ap suc (length-write_at start (b ∷ payload) file (omega arith))

-- What was written is read back.
pub read_at-write_at_self :
    (start : ℕ) (payload file : Bytes)
    → read_at start (length payload) (write_at start payload file) ≡ payload
unfolding read_at write_at
read_at-write_at_self start [] file = refl
read_at-write_at_self zero (b ∷ payload) [] = ap (◌∷◌ b) (read_at-write_at_self zero payload [])
read_at-write_at_self zero (b ∷ payload) (x ∷ file) =
    ap (◌∷◌ b) (read_at-write_at_self zero payload file)
read_at-write_at_self (suc start) (b ∷ payload) [] = read_at-write_at_self start (b ∷ payload) []
read_at-write_at_self (suc start) (b ∷ payload) (x ∷ file) =
    read_at-write_at_self start (b ∷ payload) file

-- A write changes nothing before it.
pub read_at-write_at_before :
    (s n start : ℕ) (payload file : Bytes)
    → s + n ≤ start
    → start ≤ length file
    → read_at s n (write_at start payload file) ≡ read_at s n file
unfolding read_at write_at
read_at-write_at_before s n start [] file h k = refl
read_at-write_at_before zero zero start (b ∷ payload) file h k = refl
read_at-write_at_before s n zero (b ∷ payload) file h k = absurd (omega arith)
read_at-write_at_before s n (suc start) (b ∷ payload) [] h k = absurd (omega arith)
read_at-write_at_before zero (suc n) (suc start) (b ∷ payload) (x ∷ file) h k =
    ap (◌∷◌ x) (read_at-write_at_before zero n start (b ∷ payload) file (omega arith) (omega arith))
read_at-write_at_before (suc s) n (suc start) (b ∷ payload) (x ∷ file) h k =
    read_at-write_at_before s n start (b ∷ payload) file (omega arith) (omega arith)

-- Nor anything after it.
pub drop-write_at :
    (s start : ℕ) (payload file : Bytes)
    → start + length payload ≤ s
    → drop s (write_at start payload file) ≡ drop s file
unfolding write_at
drop-write_at s start [] file h = refl
drop-write_at zero start (b ∷ payload) file h = absurd (omega arith)
drop-write_at (suc s) zero (b ∷ payload) [] h =
    rw (drop-write_at s zero payload [] (omega arith), drop-nil s)
drop-write_at (suc s) zero (b ∷ payload) (x ∷ file) h =
    drop-write_at s zero payload file (omega arith)
drop-write_at (suc s) (suc start) (b ∷ payload) [] h =
    rw (drop-write_at s start (b ∷ payload) [] (omega arith), drop-nil s)
drop-write_at (suc s) (suc start) (b ∷ payload) (x ∷ file) h =
    drop-write_at s start (b ∷ payload) file (omega arith)

pub read_at-write_at_after :
    (s n start : ℕ) (payload file : Bytes)
    → start + length payload ≤ s
    → read_at s n (write_at start payload file) ≡ read_at s n file
unfolding read_at
read_at-write_at_after s n start payload file h = ap (take n) (drop-write_at s start payload file h)

-- Two writes, the second where the first ended, are one.
pub write_at-write_at :
    (start end : ℕ) (p q file : Bytes)
    → end ≡ start + length p
    → write_at end q (write_at start p file) ≡ write_at start (p ++ q) file
unfolding write_at
write_at-write_at start end [] q file h = rw h (rw add-zero)
write_at-write_at start end (b ∷ p) [] file h =
    ap (λ (r : Bytes). write_at start r file) (sym (append-nil (b ∷ p)))
write_at-write_at start zero (b ∷ p) (c ∷ q) file h = absurd (omega arith)
write_at-write_at zero (suc end) (b ∷ p) (c ∷ q) [] h =
    ap (◌∷◌ b) (write_at-write_at zero end p (c ∷ q) [] (omega arith))
write_at-write_at zero (suc end) (b ∷ p) (c ∷ q) (x ∷ file) h =
    ap (◌∷◌ b) (write_at-write_at zero end p (c ∷ q) file (omega arith))
write_at-write_at (suc start) (suc end) (b ∷ p) (c ∷ q) [] h =
    ap (◌∷◌ 0) (write_at-write_at start end (b ∷ p) (c ∷ q) [] (omega arith))
write_at-write_at (suc start) (suc end) (b ∷ p) (c ∷ q) (x ∷ file) h =
    ap (◌∷◌ x) (write_at-write_at start end (b ∷ p) (c ∷ q) file (omega arith))

-- A write inside the file, as a cut of it.
pub write_at-eq_cut :
    (start end : ℕ) (payload file : Bytes)
    → end ≡ start + length payload
    → start ≤ length file
    → write_at start payload file ≡ take start file ++ (payload ++ drop end file)
unfolding write_at
write_at-eq_cut zero zero [] file e h = refl
write_at-eq_cut zero (suc end) [] file e h = absurd (omega arith)
write_at-eq_cut zero zero (b ∷ payload) file e h = absurd (omega arith)
write_at-eq_cut zero (suc end) (b ∷ payload) [] e h =
    ap (◌∷◌ b) (write_at-eq_cut zero end payload [] (omega arith) (omega arith) ∙ rw (drop-nil end))
write_at-eq_cut zero (suc end) (b ∷ payload) (x ∷ file) e h =
    ap (◌∷◌ b) (write_at-eq_cut zero end payload file (omega arith) (omega arith))
write_at-eq_cut (suc start) end payload [] e h = absurd (omega arith)
write_at-eq_cut (suc start) zero payload (x ∷ file) e h = absurd (omega arith)
write_at-eq_cut (suc start) (suc end) [] (x ∷ file) e h =
    ap (◌∷◌ x) (rw (← write_at-eq_cut start end [] file (omega arith) (omega arith)))
write_at-eq_cut (suc start) (suc end) (b ∷ payload) (x ∷ file) e h =
    ap (◌∷◌ x) (write_at-eq_cut start end (b ∷ payload) file (omega arith) (omega arith))
