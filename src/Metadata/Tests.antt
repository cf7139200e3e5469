-- ===== src/Metadata/Tests.antt =====
-- The removal on small images.
use phantasm.Base.{◌≡◌, refl, true, false, none, some, List, [], ◌∷◌, ◌++◌, Bytes, codes, drop}
use phantasm.Metadata.{Tools}
use phantasm.Metadata.Jpeg.{scrub_jpeg, jpeg_loop}
use phantasm.Metadata.Jpeg.Segments as Jpeg
use phantasm.Metadata.Jpeg.Segments.{
  Segment, restart, block, Tail, scan, finish, AllSegments, tail_bytes, kept_tail, scrub_jpeg_keeps,
}
use phantasm.Metadata.Jpeg.Walks.{end_of_image, ending_bytes, scrub_jpeg_walks}
use phantasm.Metadata.Png.{signature, scrub_png}
use phantasm.Metadata.Png.Chunks.{Chunk, Walk, scrub_png_keeps}
use phantasm.Metadata.Png.Chunks as Png

-- An EXIF segment and a segment of tables
abbrev segments : List Segment
segments = block 0xe1 0 4 (7 ∷ 8 ∷ []) ∷ block 0xdb 0 3 (9 ∷ []) ∷ []

abbrev image : Bytes
image = 0xff ∷ 0xd8 ∷ Jpeg.bytes_of segments (tail_bytes (scan 1 2 (3 ∷ [])))

abbrev reduced : Bytes
reduced = 0xff ∷ 0xd8 ∷ 0xff ∷ 0xdb ∷ 0 ∷ 3 ∷ 9 ∷ 0xff ∷ 0xda ∷ 1 ∷ 2 ∷ 3 ∷ []

scrub_jpeg_keeps_example :
    (ss : List Segment) × (t : Tail) × (AllSegments ss)
    × (drop 2 image ≡ Jpeg.bytes_of ss (tail_bytes t))
    × (reduced ≡ 0xff ∷ 0xd8 ∷ Jpeg.bytes_of (Jpeg.kept ss) (kept_tail t))
unfolding scrub_jpeg jpeg_loop
scrub_jpeg_keeps_example = scrub_jpeg_keeps image reduced refl

-- An image of segments alone, which ends with its last marker
scrub_jpeg_walks_example :
    scrub_jpeg (0xff ∷ 0xd8 ∷ Jpeg.bytes_of segments (ending_bytes (end_of_image []))) ≡ none
scrub_jpeg_walks_example =
    scrub_jpeg_walks 0xff 0xd8 segments (end_of_image []) ((refl, refl), ((refl, refl), tt))

-- An image with a text, cut in the middle of the next chunk
abbrev picture : Bytes
picture =
    signature
    ++ (0 ∷ 0 ∷ 0 ∷ 1 ∷ (codes "tEXt" ++ (65 ∷ 1 ∷ 2 ∷ 3 ∷ 4 ∷ 0 ∷ 0 ∷ 0 ∷ 9 ∷ codes "IDAT")))

scrub_png_keeps_example :
    (xs : List Chunk) × (Walk (drop 8 picture) xs)
    × (scrub_png picture ≡ some (signature ++ Png.bytes_of (Png.kept xs)))
scrub_png_keeps_example = scrub_png_keeps picture

abbrev tools : Tools
tools = record {
  lower = λ name. name;
  is_utf8 = λ bytes. true;
  decoded = λ bytes. bytes;
  has_path = λ bytes. false;
  has_author = λ bytes. false;
  without_paths = λ bytes. bytes;
  without_authors = λ bytes. bytes;
  read_zip = λ bytes. none;
  write_zip = λ members. none;
  blank_core = λ bytes. bytes;
  blank_app = λ bytes. bytes;
  sorted_set = λ risks. risks;
}
