-- ===== src/Metadata/Png.antt =====
-- metadata.py, `_scrub_png` and `_png_risks`: the walks over the chunks of a PNG file. A loop works
-- on what stands from `pos` on, and a list of eight bytes or more is `pos + 8 <= n`.
pub mod Chunks
use phantasm.Base.{
  ℕ, zero, suc, ◌+◌, ◌-◌, String, Bool, true, false, ◌&&◌, ◌||◌, not, Option, none, some, List, [],
  ◌∷◌, ◌++◌, Bytes, codes, str_eq, bytes_eq, length, take, drop, min, ltb, leb, if◌then◌else◌,
}
use phantasm.RecordCipher.{unpack}

abbrev pub signature : Bytes
signature = 0x89 ∷ 0x50 ∷ 0x4e ∷ 0x47 ∷ 0x0d ∷ 0x0a ∷ 0x1a ∷ 0x0a ∷ []

-- `_PNG_CHUNK_DESCRIPTIONS.get(chunk_type)`
unfoldable pub description : Bytes → Option String
unfolding bytes_eq
description kind =
    if bytes_eq kind (codes "tEXt")
    then some "embedded text metadata"
    else if bytes_eq kind (codes "iTXt")
    then some "embedded international text metadata"
    else if bytes_eq kind (codes "zTXt")
    then some "embedded compressed text metadata"
    else if bytes_eq kind (codes "eXIf")
    then some "embedded EXIF metadata"
    else if bytes_eq kind (codes "tIME")
    then some "image timestamp"
    else none

-- `_PNG_METADATA_CHUNKS`
unfoldable pub is_metadata : Bytes → Bool
is_metadata kind =
    bytes_eq kind (codes "tEXt")
    || (bytes_eq kind (codes "iTXt")
        || (bytes_eq kind (codes "zTXt")
            || (bytes_eq kind (codes "eXIf") || bytes_eq kind (codes "tIME"))))

unfoldable pub is_end : Bytes → Bool
is_end kind = bytes_eq kind (codes "IEND")

-- Behind its length and its type a chunk has as many bytes as the length says, and four of checksum.
unfoldable pub png_loop : ℕ → Bytes → Bytes → Bytes
png_loop zero out rest = out
png_loop (suc fuel) out (a ∷ b ∷ c ∷ d ∷ k ∷ l ∷ m ∷ n ∷ more) =
    let size = unpack (a ∷ b ∷ c ∷ d ∷ []) + 4 in
    let kind = k ∷ l ∷ m ∷ n ∷ [] in
    let copied = out ++ (a ∷ b ∷ c ∷ d ∷ k ∷ l ∷ m ∷ n ∷ take size more) in
    let written = if is_metadata kind then out else copied in
    let next = png_loop fuel written (drop size more) in
    if ltb (length more) size then out else if is_end kind then written else next
png_loop (suc fuel) out _ = out

-- A round takes twelve bytes at least, so the number of bytes is fuel enough.
unfoldable pub scrub_png : Bytes → Option Bytes
scrub_png bytes = some (png_loop (length bytes) signature (drop 8 bytes))

abbrev holds : List String → String → Bool
holds [] r = false
holds (s ∷ ss) r = str_eq s r || holds ss r

abbrev noted : List String → Option String → List String
noted risks none = risks
noted risks (some r) = if holds risks r then risks else risks ++ (r ∷ [])

-- `limit - pos` bytes may begin a chunk; a chunk that ends behind them leaves none.
unfoldable pub risks_loop : ℕ → List String → ℕ → Bytes → List String
risks_loop zero risks left rest = risks
risks_loop (suc fuel) risks left (a ∷ b ∷ c ∷ d ∷ k ∷ l ∷ m ∷ n ∷ more) =
    let size = unpack (a ∷ b ∷ c ∷ d ∷ []) + 4 in
    let kind = k ∷ l ∷ m ∷ n ∷ [] in
    let found = noted risks (description kind) in
    let next = risks_loop fuel found (left - (8 + size)) (drop size more) in
    if ltb left 8 then risks else if is_end kind then found else next
risks_loop (suc fuel) risks left _ = risks

unfoldable pub png_risks : Bytes → List String
png_risks bytes = risks_loop (length bytes) [] (min (length bytes) 262144 - 8) (drop 8 bytes)
