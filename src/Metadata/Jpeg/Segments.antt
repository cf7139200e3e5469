-- ===== src/Metadata/Jpeg/Segments.antt =====
-- JPEG files as lists of segments, and what the walk makes of them.
use phantasm.Base.{
  ℕ, zero, suc, ◌+◌, ◌-◌, ◌≤◌, ◌<◌, ◌≡◌, refl, sym, ap, ◌∙◌, Bool, true, false, ◌||◌, none, some,
  List, [], ◌∷◌, ◌++◌, append_assoc, Bytes, length, take, drop, take-append, drop-append,
  length-append, length-take, append-take-drop, ◌==◌, if◌then◌else◌, arith, Bool-cases, inl, inr,
}
use phantasm.Metadata.Jpeg.{is_stripped, is_restart, two_bytes, jpeg_loop, scrub_jpeg}

pub data Segment : Type 0 where
  restart : ℕ → Segment
  -- a marker, the two bytes of the length, and what it counts behind them
  block : ℕ → ℕ → ℕ → Bytes → Segment

-- What ends the walk: the scan, copied as it is, or the end of the image, with what stands behind it
pub data Tail : Type 0 where
  scan : ℕ → ℕ → Bytes → Tail
  finish : ℕ → ℕ → Bytes → Tail

abbrev ends : ℕ → Bool
ends marker = marker == 0xda || (marker == 0xd9 || is_restart marker)

abbrev pub IsSegment : Segment → Type 0
IsSegment (restart marker) = is_restart marker ≡ true
IsSegment (block marker hi lo body) = (ends marker ≡ false) × (two_bytes hi lo ≡ length body + 2)

abbrev pub AllSegments : List Segment → Type 0
AllSegments [] = Unit
AllSegments (s ∷ ss) = IsSegment s × AllSegments ss

abbrev pub segment_bytes : Segment → Bytes
segment_bytes (restart marker) = 0xff ∷ marker ∷ []
segment_bytes (block marker hi lo body) = 0xff ∷ marker ∷ hi ∷ lo ∷ body

abbrev pub bytes_of : List Segment → Bytes → Bytes
bytes_of [] end = end
bytes_of (s ∷ ss) end = segment_bytes s ++ bytes_of ss end

abbrev pub tail_bytes : Tail → Bytes
tail_bytes (scan a b more) = 0xff ∷ 0xda ∷ a ∷ b ∷ more
tail_bytes (finish a b more) = 0xff ∷ 0xd9 ∷ a ∷ b ∷ more

abbrev pub kept_tail : Tail → Bytes
kept_tail (scan a b more) = 0xff ∷ 0xda ∷ a ∷ b ∷ more
kept_tail (finish a b more) = 0xff ∷ 0xd9 ∷ []

abbrev is_metadata : Segment → Bool
is_metadata (restart marker) = false
is_metadata (block marker hi lo body) = is_stripped marker

-- The segments that are no metadata
abbrev pub kept : List Segment → List Segment
kept [] = []
kept (s ∷ ss) = if is_metadata s then kept ss else s ∷ kept ss

pub step_restart :
    (fuel : ℕ) (out : Bytes) (marker : ℕ) (rest : Bytes)
    → is_restart marker ≡ true
    → 2 ≤ length rest
    → jpeg_loop (suc fuel) out (0xff ∷ marker ∷ rest)
      ≡ jpeg_loop fuel (out ++ (0xff ∷ marker ∷ [])) rest
unfolding jpeg_loop
step_restart fuel out marker [] r long = absurd (omega (arith, long))
step_restart fuel out marker (a ∷ []) r long = absurd (omega (arith, long))
step_restart fuel out marker (a ∷ b ∷ more) r long = ground (arith, r)

pub step_block :
    (fuel : ℕ) (out : Bytes) (marker hi lo : ℕ) (body rest : Bytes)
    → IsSegment (block marker hi lo body)
    → jpeg_loop (suc fuel) out (0xff ∷ marker ∷ hi ∷ lo ∷ (body ++ rest))
      ≡ jpeg_loop fuel
          (if is_stripped marker then out else out ++ (0xff ∷ marker ∷ hi ∷ lo ∷ body))
          rest
unfolding jpeg_loop
step_block fuel out marker hi lo body rest (plain, size) =
    let len : two_bytes hi lo - 2 ≡ length body = omega (arith, size) in
    rw (len, take-append body rest, drop-append body rest)
      (ground (arith, plain, size, length-append body rest))

pub append-kept :
    (strip : Bool) (out : Bytes) (marker hi lo : ℕ) (body : Bytes) (ss : List Segment) (end : Bytes)
    → (if strip then out else out ++ (0xff ∷ marker ∷ hi ∷ lo ∷ body)) ++ bytes_of ss end
      ≡ out ++ bytes_of (if strip then ss else block marker hi lo body ∷ ss) end
append-kept true out marker hi lo body ss end = refl
append-kept false out marker hi lo body ss end = append_assoc out (0xff ∷ marker ∷ hi ∷ lo ∷ body) _

-- How `rest` was read, and what came out behind `out`
record Read (out rest result : Bytes) : Type 0 where
  segments : List Segment
  tail : Tail
  valid : AllSegments segments
  read : rest ≡ bytes_of segments (tail_bytes tail)
  wrote : result ≡ out ++ bytes_of (kept segments) (kept_tail tail)

Read-restart :
    (out : Bytes) (marker : ℕ) (rest result : Bytes)
    → is_restart marker ≡ true
    → Read (out ++ (0xff ∷ marker ∷ [])) rest result
    → Read out (0xff ∷ marker ∷ rest) result
Read-restart out marker rest result r found = record {
  segments = restart marker ∷ found.segments;
  tail = found.tail;
  valid = (r, found.valid);
  read = ap (λ x. 0xff ∷ marker ∷ x) found.read;
  wrote = found.wrote ∙ append_assoc out (0xff ∷ marker ∷ []) _;
}

Read-block :
    (out : Bytes) (marker hi lo : ℕ) (body rest result : Bytes)
    → IsSegment (block marker hi lo body)
    → Read (if is_stripped marker then out else out ++ (0xff ∷ marker ∷ hi ∷ lo ∷ body)) rest result
    → Read out (0xff ∷ marker ∷ hi ∷ lo ∷ (body ++ rest)) result
Read-block out marker hi lo body rest result plain found = record {
  segments = block marker hi lo body ∷ found.segments;
  tail = found.tail;
  valid = (plain, found.valid);
  read = ap (λ x. 0xff ∷ marker ∷ hi ∷ lo ∷ (body ++ x)) found.read;
  wrote =
      found.wrote
      ∙ append-kept (is_stripped marker) out marker hi lo body (kept found.segments)
          (kept_tail found.tail);
}

-- A marker that ends the walk
Read-scan :
    (fuel : ℕ) (out : Bytes) (marker hi lo : ℕ) (more result : Bytes)
    → (marker == 0xda) ≡ true
    → jpeg_loop (suc fuel) out (0xff ∷ marker ∷ hi ∷ lo ∷ more) ≡ some result
    → Read out (0xff ∷ marker ∷ hi ∷ lo ∷ more) result
unfolding jpeg_loop
Read-scan fuel out marker hi lo more result is h =
    let same : marker ≡ 0xda = ground (arith, is) in
    let wrote : some (out ++ (0xff ∷ marker ∷ hi ∷ lo ∷ more)) ≡ some result =
      ground (arith, h, is) in
    record {
      segments = [];
      tail = scan hi lo more;
      valid = tt;
      read = ap (λ m. 0xff ∷ m ∷ hi ∷ lo ∷ more) same;
      wrote = cc wrote;
    }

Read-finish :
    (fuel : ℕ) (out : Bytes) (marker hi lo : ℕ) (more result : Bytes)
    → (marker == 0xd9) ≡ true
    → jpeg_loop (suc fuel) out (0xff ∷ marker ∷ hi ∷ lo ∷ more) ≡ some result
    → Read out (0xff ∷ marker ∷ hi ∷ lo ∷ more) result
unfolding jpeg_loop
Read-finish fuel out marker hi lo more result is h =
    let same : marker ≡ 0xd9 = ground (arith, is) in
    let wrote : some (out ++ (0xff ∷ 0xd9 ∷ [])) ≡ some result = ground (arith, h, is) in
    record {
      segments = [];
      tail = finish hi lo more;
      valid = tt;
      read = ap (λ m. 0xff ∷ m ∷ hi ∷ lo ∷ more) same;
      wrote = cc wrote;
    }

-- A marker that stands before a length
sized :
    (fuel : ℕ) (out : Bytes) (marker hi lo : ℕ) (more result : Bytes)
    → ends marker ≡ false
    → jpeg_loop (suc fuel) out (0xff ∷ marker ∷ hi ∷ lo ∷ more) ≡ some result
    → (2 ≤ two_bytes hi lo)
      × (two_bytes hi lo - 2 ≤ length more)
      × (jpeg_loop fuel
            (if is_stripped marker
              then out
              else out ++ (0xff ∷ marker ∷ hi ∷ lo ∷ take (two_bytes hi lo - 2) more))
            (drop (two_bytes hi lo - 2) more)
          ≡ some result)
unfolding jpeg_loop
sized fuel out marker hi lo more result plain h = ground (arith, plain, h)

restarted :
    (fuel : ℕ) (out : Bytes) (marker hi lo : ℕ) (more result : Bytes)
    → (marker == 0xda) ≡ false
    → (marker == 0xd9) ≡ false
    → is_restart marker ≡ true
    → jpeg_loop (suc fuel) out (0xff ∷ marker ∷ hi ∷ lo ∷ more) ≡ some result
    → jpeg_loop fuel (out ++ (0xff ∷ marker ∷ [])) (hi ∷ lo ∷ more) ≡ some result
unfolding jpeg_loop
restarted fuel out marker hi lo more result a b r h = ground (arith, a, b, r, h)

starts :
    (fuel : ℕ) (out : Bytes) (ff marker hi lo : ℕ) (more result : Bytes)
    → jpeg_loop (suc fuel) out (ff ∷ marker ∷ hi ∷ lo ∷ more) ≡ some result
    → ff ≡ 0xff
unfolding jpeg_loop
starts fuel out ff marker hi lo more result h = ground (arith, h)

walked_out : (out rest : Bytes) → jpeg_loop 0 out rest ≡ none
unfolding jpeg_loop
walked_out out rest = refl

pub too_short :
    (fuel : ℕ) (out rest : Bytes) → length rest < 4 → jpeg_loop (suc fuel) out rest ≡ none
unfolding jpeg_loop
too_short fuel out [] short = refl
too_short fuel out (a ∷ []) short = refl
too_short fuel out (a ∷ b ∷ []) short = refl
too_short fuel out (a ∷ b ∷ c ∷ []) short = refl
too_short fuel out (a ∷ b ∷ c ∷ d ∷ more) short = absurd (omega arith)

jpeg_loop-Read :
    (fuel : ℕ) (out rest result : Bytes)
    → jpeg_loop fuel out rest ≡ some result
    → Read out rest result
jpeg_loop-Read zero out rest result h = absurd (cc (h, walked_out out rest))
jpeg_loop-Read (suc fuel) out [] result h = absurd (cc (h, too_short fuel out [] (omega arith)))
jpeg_loop-Read (suc fuel) out (a ∷ []) result h =
    absurd (cc (h, too_short fuel out (a ∷ []) (omega arith)))
jpeg_loop-Read (suc fuel) out (a ∷ b ∷ []) result h =
    absurd (cc (h, too_short fuel out (a ∷ b ∷ []) (omega arith)))
jpeg_loop-Read (suc fuel) out (a ∷ b ∷ c ∷ []) result h =
    absurd (cc (h, too_short fuel out (a ∷ b ∷ c ∷ []) (omega arith)))
jpeg_loop-Read (suc fuel) out (ff ∷ marker ∷ hi ∷ lo ∷ more) result h =
    let is_ff = starts fuel out ff marker hi lo more result h in
    let at = ap (λ f. jpeg_loop (suc fuel) out (f ∷ marker ∷ hi ∷ lo ∷ more)) (sym is_ff) ∙ h in
    rw is_ff (elim (Bool-cases (marker == 0xda)) [
      | inl scans ↦ Read-scan fuel out marker hi lo more result scans at
      | inr no_scan ↦ elim (Bool-cases (marker == 0xd9)) [
        | inl finishes ↦ Read-finish fuel out marker hi lo more result finishes at
        | inr no_finish ↦ elim (Bool-cases (is_restart marker)) [
          | inl restarts ↦ Read-restart out marker (hi ∷ lo ∷ more) result restarts (
              jpeg_loop-Read fuel (out ++ (0xff ∷ marker ∷ [])) (hi ∷ lo ∷ more) result
                (restarted fuel out marker hi lo more result no_scan no_finish restarts at))
          | inr no_restart ↦
              let size = two_bytes hi lo - 2 in
              let plain : ends marker ≡ false = ground (arith, no_scan, no_finish, no_restart) in
              let (two, fits, next) = sized fuel out marker hi lo more result plain at in
              let body_length : two_bytes hi lo ≡ length (take size more) + 2 =
                omega (arith, length-take size more) in
              let found = jpeg_loop-Read fuel _ (drop size more) result next in
              rw (append-take-drop size more) at (
                Read-block out marker hi lo (take size more) (drop size more) result
                  (plain, body_length) found)
        ]
      ]
    ])

-- Whatever the bytes are, if the walk gives a result, then what stands behind the first two bytes
-- was a list of segments and an end, and the result is the start of an image, the segments that
-- are no metadata, unchanged and in their order, and the end.
pub scrub_jpeg_keeps :
    (bytes result : Bytes)
    → scrub_jpeg bytes ≡ some result
    → (ss : List Segment) × (t : Tail) × (AllSegments ss)
      × (drop 2 bytes ≡ bytes_of ss (tail_bytes t))
      × (result ≡ 0xff ∷ 0xd8 ∷ bytes_of (kept ss) (kept_tail t))
unfolding scrub_jpeg
scrub_jpeg_keeps bytes result done =
    let found = jpeg_loop-Read (length bytes) (0xff ∷ 0xd8 ∷ []) (drop 2 bytes) result done in
    (found.segments, found.tail, found.valid, found.read, found.wrote)
