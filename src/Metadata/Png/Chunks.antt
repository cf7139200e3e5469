-- ===== src/Metadata/Png/Chunks.antt =====
-- PNG files as lists of chunks, and what the walk makes of them.
use phantasm.Base.{
  ℕ, zero, suc, ◌+◌, ◌≤◌, ◌<◌, ◌≡◌, refl, sym, ap, ◌∙◌, Bool, true, false, some, List, [], ◌∷◌,
  ◌++◌, append-nil, append_assoc, Bytes, length, take, drop, length-drop, length-take,
  append-take-drop, ltb, if◌then◌else◌, arith, Bool-cases, ◌⊎◌, inl, inr,
}
use phantasm.RecordCipher.{unpack}
use phantasm.Metadata.Png.{signature, is_metadata, is_end, png_loop, scrub_png}

-- The four bytes of the length, the four of the type, and the data with its checksum
pub record Chunk : Type 0 where
  pub size : Bytes
  pub kind : Bytes
  pub body : Bytes

abbrev pub IsChunk : Chunk → Type 0
IsChunk x = (length x.size ≡ 4) × (length x.kind ≡ 4) × (length x.body ≡ unpack x.size + 4)

abbrev pub chunk_bytes : Chunk → Bytes
chunk_bytes x = x.size ++ (x.kind ++ x.body)

abbrev pub bytes_of : List Chunk → Bytes
bytes_of [] = []
bytes_of (x ∷ xs) = chunk_bytes x ++ bytes_of xs

-- The chunks that are no metadata
abbrev pub kept : List Chunk → List Chunk
kept [] = []
kept (x ∷ xs) = if is_metadata x.kind then kept xs else x ∷ kept xs

-- Nothing that is a whole chunk stands at the start: there are fewer than eight bytes, or fewer
-- behind them than the length says.
pub data Cut : Bytes → Type 0 where
  short : {rest : Bytes} → length rest < 8 → Cut rest
  broken :
      (size kind more : Bytes)
      → length size ≡ 4
      → length kind ≡ 4
      → length more < unpack size + 4
      → Cut (size ++ (kind ++ more))

-- The chunks from the start of the bytes to the first that is an end, or up to where no whole one is
pub data Walk : Bytes → List Chunk → Type 0 where
  cut : {rest : Bytes} → Cut rest → Walk rest []
  last :
      (more : Bytes) (x : Chunk)
      → IsChunk x
      → is_end x.kind ≡ true
      → Walk (chunk_bytes x ++ more) (x ∷ [])
  next :
      (more : Bytes) {xs : List Chunk} (x : Chunk)
      → IsChunk x
      → is_end x.kind ≡ false
      → Walk more xs
      → Walk (chunk_bytes x ++ more) (x ∷ xs)

append-kept :
    (drops : Bool) (out : Bytes) (x : Chunk) (xs : List Chunk)
    → (if drops then out else out ++ chunk_bytes x) ++ bytes_of xs
      ≡ out ++ bytes_of (if drops then xs else x ∷ xs)
append-kept true out x xs = refl
append-kept false out x xs = append_assoc out (chunk_bytes x) (bytes_of xs)

abbrev Walked : ℕ → Bytes → Bytes → Type 0
Walked fuel out rest =
    (xs : List Chunk) × (Walk rest xs) × (png_loop fuel out rest ≡ out ++ bytes_of (kept xs))

walked_short : (fuel : ℕ) (out rest : Bytes) → length rest < 8 → png_loop fuel out rest ≡ out
unfolding png_loop
walked_short zero out rest h = refl
walked_short (suc fuel) out [] h = refl
walked_short (suc fuel) out (a ∷ []) h = refl
walked_short (suc fuel) out (a ∷ b ∷ []) h = refl
walked_short (suc fuel) out (a ∷ b ∷ c ∷ []) h = refl
walked_short (suc fuel) out (a ∷ b ∷ c ∷ d ∷ []) h = refl
walked_short (suc fuel) out (a ∷ b ∷ c ∷ d ∷ k ∷ []) h = refl
walked_short (suc fuel) out (a ∷ b ∷ c ∷ d ∷ k ∷ l ∷ []) h = refl
walked_short (suc fuel) out (a ∷ b ∷ c ∷ d ∷ k ∷ l ∷ m ∷ []) h = refl
walked_short (suc fuel) out (a ∷ b ∷ c ∷ d ∷ k ∷ l ∷ m ∷ n ∷ more) h = absurd (omega arith)

-- What a round makes of the eight bytes in front
module _ (fuel : ℕ) (out : Bytes) (a b c d k l m n : ℕ) (more : Bytes) where
  abbrev front : Bytes
  front = a ∷ b ∷ c ∷ d ∷ k ∷ l ∷ m ∷ n ∷ more

  abbrev size : ℕ
  size = unpack (a ∷ b ∷ c ∷ d ∷ []) + 4

  abbrev here : Chunk
  here = record { size = a ∷ b ∷ c ∷ d ∷ []; kind = k ∷ l ∷ m ∷ n ∷ []; body = take size more }

  abbrev written : Bytes
  written = if is_metadata here.kind then out else out ++ chunk_bytes here

  round_cut : length more < size → png_loop (suc fuel) out front ≡ out
  unfolding png_loop
  round_cut h = ground (arith, h)

  round_end : size ≤ length more → is_end here.kind ≡ true → png_loop (suc fuel) out front ≡ written
  unfolding png_loop
  round_end whole ends = ground (arith, whole, ends)

  round_next :
      size ≤ length more
      → is_end here.kind ≡ false
      → png_loop (suc fuel) out front ≡ png_loop fuel written (drop size more)
  unfolding png_loop
  round_next whole goes = ground (arith, whole, goes)

  here-IsChunk : size ≤ length more → IsChunk here
  here-IsChunk whole = (refl, refl, omega (arith, length-take size more, whole))

  here_bytes : chunk_bytes here ++ drop size more ≡ front
  here_bytes = ap (λ x. a ∷ b ∷ c ∷ d ∷ k ∷ l ∷ m ∷ n ∷ x) (append-take-drop size more)

Eight : Bytes → Type 0
Eight rest =
    (a : ℕ) × (b : ℕ) × (c : ℕ) × (d : ℕ) × (k : ℕ) × (l : ℕ) × (m : ℕ) × (n : ℕ) × (more : Bytes)
    × (rest ≡ a ∷ b ∷ c ∷ d ∷ k ∷ l ∷ m ∷ n ∷ more)

first-Eight : (rest : Bytes) → (length rest < 8) ⊎ Eight rest
unfolding Eight
first-Eight [] = inl (omega arith)
first-Eight (a ∷ []) = inl (omega arith)
first-Eight (a ∷ b ∷ []) = inl (omega arith)
first-Eight (a ∷ b ∷ c ∷ []) = inl (omega arith)
first-Eight (a ∷ b ∷ c ∷ d ∷ []) = inl (omega arith)
first-Eight (a ∷ b ∷ c ∷ d ∷ k ∷ []) = inl (omega arith)
first-Eight (a ∷ b ∷ c ∷ d ∷ k ∷ l ∷ []) = inl (omega arith)
first-Eight (a ∷ b ∷ c ∷ d ∷ k ∷ l ∷ m ∷ []) = inl (omega arith)
first-Eight (a ∷ b ∷ c ∷ d ∷ k ∷ l ∷ m ∷ n ∷ more) = inr (a, b, c, d, k, l, m, n, more, refl)

Walked-Cut :
    (fuel : ℕ) (out rest : Bytes) → Cut rest → png_loop fuel out rest ≡ out → Walked fuel out rest
Walked-Cut fuel out rest c done = ([], cut c, done ∙ sym (append-nil out))

Walked-whole :
    (fuel : ℕ) (out : Bytes) (a b c d k l m n : ℕ) (more : Bytes)
    → size fuel out a b c d k l m n more ≤ length more
    → Walked fuel
        (written fuel out a b c d k l m n more)
        (drop (size fuel out a b c d k l m n more) more)
    → Walked (suc fuel) out (front fuel out a b c d k l m n more)
Walked-whole fuel out a b c d k l m n more fits (xs, walk, wrote) =
    let x = here fuel out a b c d k l m n more in
    let left = drop (size fuel out a b c d k l m n more) more in
    let plain = here-IsChunk fuel out a b c d k l m n more fits in
    let bytes = here_bytes fuel out a b c d k l m n more in
    elim (Bool-cases (is_end x.kind)) [
      | inl ends ↦ (
        x ∷ [],
        rw bytes at (last left x plain ends),
        round_end fuel out a b c d k l m n more fits ends
            ∙ (sym (append-nil _) ∙ append-kept (is_metadata x.kind) out x []),
      )
      | inr goes ↦ (
        x ∷ xs,
        rw bytes at (next left x plain goes walk),
        round_next fuel out a b c d k l m n more fits goes
            ∙ (wrote ∙ append-kept (is_metadata x.kind) out x (kept xs)),
      )
    ]

png_loop-Walked : (fuel : ℕ) (out rest : Bytes) → length rest ≤ fuel → Walked fuel out rest
unfolding Eight
png_loop-Walked zero out rest enough =
    Walked-Cut 0 out rest (short (omega (arith, enough)))
      (walked_short 0 out rest (omega (arith, enough)))
png_loop-Walked (suc fuel) out rest enough = elim (first-Eight rest) [
  | inl few ↦ Walked-Cut (suc fuel) out rest (short few) (walked_short (suc fuel) out rest few)
  | inr (a, b, c, d, k, l, m, n, more, is) ↦
      rw is (elim (Bool-cases (ltb (length more) (size fuel out a b c d k l m n more))) [
        | inl lacks ↦
            Walked-Cut (suc fuel) out _
              (broken (a ∷ b ∷ c ∷ d ∷ []) (k ∷ l ∷ m ∷ n ∷ []) more refl refl
                (ground (arith, lacks)))
              (round_cut fuel out a b c d k l m n more (ground (arith, lacks)))
        | inr whole ↦
            let fits : size fuel out a b c d k l m n more ≤ length more = ground (arith, whole) in
            Walked-whole fuel out a b c d k l m n more fits (
              png_loop-Walked fuel (written fuel out a b c d k l m n more)
                (drop (size fuel out a b c d k l m n more) more)
                (omega (
                  arith,
                  length-drop (size fuel out a b c d k l m n more) more,
                  ap length is,
                  enough,
                )))
      ])
]

-- Whatever the bytes are, the walk gives a result within the rounds that there are: the signature,
-- and of the chunks that stand behind the first eight bytes, up to the first end or to where no whole
-- chunk is, those that are no metadata, unchanged and in their order.
pub scrub_png_keeps :
    (bytes : Bytes)
    → (xs : List Chunk) × (Walk (drop 8 bytes) xs)
      × (scrub_png bytes ≡ some (signature ++ bytes_of (kept xs)))
unfolding scrub_png
scrub_png_keeps bytes =
    let (xs, walk, wrote) =
      png_loop-Walked (length bytes) signature (drop 8 bytes)
        (omega (arith, length-drop 8 bytes)) in
    (xs, walk, ap some wrote)
