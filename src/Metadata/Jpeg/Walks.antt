-- ===== src/Metadata/Jpeg/Walks.antt =====
-- The walk over every list of segments, whatever stands behind its end.
use phantasm.Base.{
  ℕ, zero, suc, ◌≤◌, ◌<◌, ◌≡◌, refl, ap, ◌∙◌, none, some, List, [], ◌∷◌, ◌++◌, append_assoc, Bytes,
  length, length-append, leb, Option, arith, if◌then◌else◌,
}
use phantasm.Metadata.Jpeg.{is_stripped, jpeg_loop, scrub_jpeg}
use phantasm.Metadata.Jpeg.Segments.{
  Segment, restart, block, AllSegments, bytes_of, kept, step_restart, step_block, append-kept,
}

-- The marker that the walk ends at, with all that stands behind it
pub data Ending : Type 0 where
  scan : Bytes → Ending
  end_of_image : Bytes → Ending

abbrev pub ending_bytes : Ending → Bytes
ending_bytes (scan behind) = 0xff ∷ 0xda ∷ behind
ending_bytes (end_of_image behind) = 0xff ∷ 0xd9 ∷ behind

abbrev pub kept_ending : Ending → Bytes
kept_ending (scan behind) = 0xff ∷ 0xda ∷ behind
kept_ending (end_of_image behind) = 0xff ∷ 0xd9 ∷ []

-- How many bytes stand behind the marker
abbrev pub behind : Ending → ℕ
behind (scan more) = length more
behind (end_of_image more) = length more

-- What the walk gives for segments and an ending: nothing where fewer than two bytes stand behind it
abbrev pub walked : Bytes → List Segment → Ending → Option Bytes
walked out ss end =
    if leb 2 (behind end) then some (out ++ bytes_of (kept ss) (kept_ending end)) else none

walk_end :
    (fuel : ℕ) (out : Bytes) (end : Ending)
    → jpeg_loop (suc fuel) out (ending_bytes end) ≡ walked out [] end
unfolding jpeg_loop
walk_end fuel out (scan []) = refl
walk_end fuel out (scan (a ∷ [])) = refl
walk_end fuel out (scan (a ∷ b ∷ more)) = ground arith
walk_end fuel out (end_of_image []) = refl
walk_end fuel out (end_of_image (a ∷ [])) = refl
walk_end fuel out (end_of_image (a ∷ b ∷ more)) = ground arith

bytes_of-ending_long :
    (ss : List Segment) (end : Ending) → 2 ≤ length (bytes_of ss (ending_bytes end))
bytes_of-ending_long [] (scan more) = omega arith
bytes_of-ending_long [] (end_of_image more) = omega arith
bytes_of-ending_long (restart marker ∷ ss) end = omega arith
bytes_of-ending_long (block marker hi lo body ∷ ss) end = omega arith

jpeg_loop-walked :
    (fuel : ℕ) (out : Bytes) (ss : List Segment) (end : Ending)
    → AllSegments ss
    → length ss < fuel
    → jpeg_loop fuel out (bytes_of ss (ending_bytes end)) ≡ walked out ss end
jpeg_loop-walked zero out ss end valid enough = absurd (omega arith)
jpeg_loop-walked (suc fuel) out [] end valid enough = walk_end fuel out end
jpeg_loop-walked (suc fuel) out (restart marker ∷ ss) end valid enough =
    step_restart fuel out marker (bytes_of ss (ending_bytes end)) valid.0
      (bytes_of-ending_long ss end)
    ∙ (jpeg_loop-walked fuel (out ++ (0xff ∷ marker ∷ [])) ss end valid.1 (omega (arith, enough))
        ∙ ap (λ x. if leb 2 (behind end) then some x else none)
            (append_assoc out (0xff ∷ marker ∷ []) _))
jpeg_loop-walked (suc fuel) out (block marker hi lo body ∷ ss) end valid enough =
    step_block fuel out marker hi lo body (bytes_of ss (ending_bytes end)) valid.0
    ∙ (jpeg_loop-walked fuel
          (if is_stripped marker then out else out ++ (0xff ∷ marker ∷ hi ∷ lo ∷ body)) ss end
          valid.1 (omega (arith, enough))
        ∙ ap (λ x. if leb 2 (behind end) then some x else none)
            (append-kept (is_stripped marker) out marker hi lo body (kept ss) (kept_ending end)))

length-bytes_of : (ss : List Segment) (end : Bytes) → length ss ≤ length (bytes_of ss end)
length-bytes_of [] end = omega arith
length-bytes_of (restart marker ∷ ss) end = omega (arith, length-bytes_of ss end)
length-bytes_of (block marker hi lo body ∷ ss) end =
    omega (arith, length-append body (bytes_of ss end), length-bytes_of ss end)

-- Every file that is two bytes, segments, and the marker of a scan or of the end of the image is walked to
-- that marker within the rounds that there are. If at least two bytes stand behind the marker, the result is
-- there: the start of an image, the segments that are no metadata, and the scan as it is, or the end without
-- what stands behind it. If fewer do, there is no result, also where the file is whole and ends with its last
-- marker.
pub scrub_jpeg_walks :
    (a b : ℕ) (ss : List Segment) (end : Ending)
    → AllSegments ss
    → scrub_jpeg (a ∷ b ∷ bytes_of ss (ending_bytes end)) ≡ (
        if leb 2 (behind end)
        then some (0xff ∷ 0xd8 ∷ bytes_of (kept ss) (kept_ending end))
        else none)
unfolding scrub_jpeg
scrub_jpeg_walks a b ss end valid =
    jpeg_loop-walked (length (a ∷ b ∷ bytes_of ss (ending_bytes end))) (0xff ∷ 0xd8 ∷ []) ss end
      valid (omega (arith, length-bytes_of ss (ending_bytes end)))
