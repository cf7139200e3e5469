-- ===== src/Metadata/Jpeg.antt =====
-- metadata.py, `_scrub_jpeg`: the walk over the segments of a JPEG file. The loop works on what
-- stands from `pos` on, and a list of four bytes or more is `pos + 3 < n`.
pub mod Segments
pub mod Walks
use phantasm.Base.{
  ℕ, zero, suc, ◌+◌, ◌-◌, ◌*◌, Bool, true, false, ◌&&◌, ◌||◌, not, Option, none, some, List, [],
  ◌∷◌, ◌++◌, Bytes, length, take, drop, ltb, leb, ◌==◌, if◌then◌else◌,
}

-- `_JPEG_STRIP_MARKERS`
abbrev pub is_stripped : ℕ → Bool
is_stripped marker = marker == 0xe1 || marker == 0xed

-- RST0 to RST7
abbrev pub is_restart : ℕ → Bool
is_restart marker = leb 0xd0 marker && leb marker 0xd7

-- struct.unpack(">H", …)
abbrev pub two_bytes : ℕ → ℕ → ℕ
two_bytes hi lo = hi * 256 + lo

-- The length at `pos + 2`, which counts its own two bytes, is behind the last byte of `more` if
-- `seg_end > n`.
unfoldable pub jpeg_loop : ℕ → Bytes → Bytes → Option Bytes
jpeg_loop zero out rest = none
jpeg_loop (suc fuel) out (ff ∷ marker ∷ hi ∷ lo ∷ more) =
    let body_len = two_bytes hi lo - 2 in
    let restarted = jpeg_loop fuel (out ++ (0xff ∷ marker ∷ [])) (hi ∷ lo ∷ more) in
    let kept = out ++ (ff ∷ marker ∷ hi ∷ lo ∷ take body_len more) in
    let next = jpeg_loop fuel (if is_stripped marker then out else kept) (drop body_len more) in
    if not (ff == 0xff)
    then none
    else if marker == 0xda
    then some (out ++ (ff ∷ marker ∷ hi ∷ lo ∷ more))
    else if marker == 0xd9
    then some (out ++ (0xff ∷ 0xd9 ∷ []))
    else if is_restart marker
    then restarted
    else if ltb (two_bytes hi lo) 2
    then none
    else if ltb (length more) body_len
    then none
    else next
jpeg_loop (suc fuel) out _ = none

-- A round takes two bytes at least, so the number of bytes is fuel enough.
unfoldable pub scrub_jpeg : Bytes → Option Bytes
scrub_jpeg bytes = jpeg_loop (length bytes) (0xff ∷ 0xd8 ∷ []) (drop 2 bytes)
