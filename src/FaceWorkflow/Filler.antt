-- ===== src/FaceWorkflow/Filler.antt =====
-- services/vessel_workflow_service.py: the filler files that a face is given, as names and bytes. The loops run on
-- fuel, which is the number of bytes to make: each round makes one at least.
use phantasm.Base.{
  ℕ, zero, suc, ◌+◌, ◌-◌, ◌*◌, ◌/◌, ◌%◌, min, max, ◌≤◌, ◌≡◌, refl, inl, inr, List, [], ◌∷◌, ◌++◌,
  Bytes, length, map, take, replicate, codes, decimal, ltb, leb, ◌==◌, arith, length-append,
  length-take, length-replicate, Bool-cases, if◌then◌else◌,
}

-- The rounds of a `while` that adds lines until there are enough bytes
abbrev grow : (ℕ → Bytes) → ℕ → ℕ → ℕ → Bytes → Bytes
grow line size zero k content = content
grow line size (suc fuel) k content =
    let more = grow line size fuel (suc k) (content ++ line k) in
    if ltb (length content) size then more else content

abbrev checklist_line : Bytes
checklist_line = codes "Checklist item reviewed and archived.\n"

-- The title is ASCII.
unfoldable pub text_payload : Bytes → ℕ → Bytes
text_payload title approx_size = take approx_size (
    grow (λ k. checklist_line) approx_size approx_size 1
      (title
        ++ codes
            "\nStatus: nominal.\nReference: local working copy.\nPrepared for offline review.\n"))

-- f"{n:03d}", and f"{n:02d}"
abbrev padded : ℕ → ℕ → Bytes
padded width n = replicate (width - length (decimal n)) 48 ++ decimal n

abbrev csv_row : ℕ → Bytes
csv_row idx =
    decimal idx
    ++ (codes ",item_" ++ (padded 3 idx ++ (codes ",active," ++ (decimal (idx * 7) ++ (10 ∷ [])))))

unfoldable pub csv_payload : ℕ → Bytes
csv_payload approx_size =
    take approx_size (grow csv_row approx_size approx_size 1 (codes "id,name,status,value\n"))

abbrev bracket : ℕ → ℕ
bracket c = if c == 40 then 91 else if c == 41 then 93 else c

abbrev pdf_content : Bytes → Bytes
pdf_content title =
    let text = map bracket (title ++ codes " local review copy") in
    let stream = codes "BT /F1 12 Tf 36 96 Td (" ++ (text ++ codes ") Tj ET") in
    codes
      "%PDF-1.1\n1 0 obj<</Type/Catalog/Pages 2 0 R>>endobj\n2 0 obj<</Type/Pages/Count 1/Kids[3 0 R]>>endobj\n3 0 obj<</Type/Page/Parent 2 0 R/MediaBox[0 0 300 144]/Contents 4 0 R/Resources<</Font<</F1 5 0 R>>>>>>endobj\n4 0 obj<</Length "
    ++ (decimal (length stream)
        ++ (codes ">>stream\n"
            ++ (stream
                ++ codes
                    "\nendstream endobj\n5 0 obj<</Type/Font/Subtype/Type1/BaseFont/Helvetica>>endobj\nxref\n0 6\n0000000000 65535 f \ntrailer<</Root 1 0 R/Size 6>>\nstartxref\n0\n%%EOF\n")))

abbrev fitted : Bytes → ℕ → Bytes
fitted content approx_size =
    if leb approx_size (length content)
    then take approx_size content
    else content ++ (10 ∷ replicate (approx_size - length content - 1) 37)

unfoldable pub pdf_payload : Bytes → ℕ → Bytes
pdf_payload title approx_size = fitted (pdf_content title) approx_size

abbrev jpg_header : Bytes
jpg_header =
    255 ∷ 216 ∷ 255 ∷ 224 ∷ 0 ∷ 16 ∷ 74 ∷ 70 ∷ 73 ∷ 70 ∷ 0 ∷ 1 ∷ 1 ∷ 0 ∷ 0 ∷ 1 ∷ 0 ∷ 1 ∷ 0 ∷ 0 ∷ []

unfoldable pub jpg_payload : ℕ → Bytes
jpg_payload approx_size =
    take approx_size (jpg_header ++ (replicate (approx_size - 20 - 2) 0 ++ (255 ∷ 217 ∷ [])))

-- The payload and the extension of the file of a number
abbrev generated_payload : ℕ → ℕ → ℕ → Bytes × Bytes
generated_payload zero idx size = (text_payload (codes "Notes " ++ decimal idx) size, codes "txt")
generated_payload (suc zero) idx size =
    (text_payload (codes "# Summary " ++ decimal idx) size, codes "md")
generated_payload (suc (suc zero)) idx size =
    (pdf_payload (codes "Report " ++ decimal idx) size, codes "pdf")
generated_payload (suc (suc (suc zero))) idx size = (csv_payload size, codes "csv")
generated_payload (suc (suc (suc (suc n)))) idx size = (jpg_payload size, codes "jpg")

abbrev pub Specs : Type 0
Specs = List (Bytes × Bytes)

abbrev size_of : ℕ → ℕ → ℕ → ℕ
size_of target total idx = min (max 192 (target / (8 + idx))) (max 192 (target - total))

abbrev more_specs : ℕ → ℕ → ℕ → ℕ → Specs
more_specs target zero idx total = []
more_specs target (suc fuel) idx total =
    let (payload, ext) = generated_payload ((idx - 2) % 5) idx (size_of target total idx) in
    let rest = more_specs target fuel (suc idx) (total + length payload) in
    if ltb total target
    then (codes "generated_" ++ (padded 2 idx ++ (codes "." ++ ext)), payload) ∷ rest
    else []

abbrev first_specs : ℕ → Specs
first_specs target =
    (codes "field_notes_01.txt", text_payload (codes "Field Notes") (max 256 (target / 10)))
    ∷ (codes "briefing_01.md", text_payload (codes "# Briefing") (max 320 (target / 12)))
    ∷ (codes "report_01.pdf", pdf_payload (codes "Operational Report") (max 768 (target / 8)))
    ∷ (codes "logsheet_01.csv", csv_payload (max 256 (target / 12)))
    ∷ (codes "site_photo_01.jpg", jpg_payload (max 512 (target / 10)))
    ∷ []

abbrev pub specs_size : Specs → ℕ
specs_size [] = 0
specs_size ((name, payload) ∷ specs) = length payload + specs_size specs

unfoldable pub build_generated_file_specs : ℕ → Specs
unfolding text_payload csv_payload pdf_payload jpg_payload
build_generated_file_specs zero = []
build_generated_file_specs (suc n) =
    let first = first_specs (suc n) in first ++ more_specs (suc n) (suc n) 2 (specs_size first)

grow_enough :
    (line : ℕ → Bytes)
    → ((k : ℕ) → 1 ≤ length (line k))
    → (size fuel k : ℕ) (content : Bytes) → size ≤ length content + fuel
    → size ≤ length (grow line size fuel k content)
grow_enough line full size zero k content h = omega (arith, h)
grow_enough line full size (suc fuel) k content h = elim (Bool-cases (ltb (length content) size)) [
  | inr t ↦ ground (arith, t)
  | inl t ↦ ground (
    arith,
    t,
    grow_enough line full size fuel (suc k) (content ++ line k)
        (omega (arith, h, length-append content (line k), full k)),
  )
]

cut : (n : ℕ) (xs : Bytes) → n ≤ length xs → length (take n xs) ≡ n
cut n xs h = omega (arith, length-take n xs, h)

-- A filler file has the size that was asked for, to the byte.
pub length-text_payload : (title : Bytes) (n : ℕ) → length (text_payload title n) ≡ n
unfolding text_payload
length-text_payload title n = cut n _ (grow_enough _ (λ k. omega arith) n n 1 _ (omega arith))

csv_row_full : (k : ℕ) → 1 ≤ length (csv_row k)
csv_row_full k = omega (
  arith,
  length-append (decimal k)
      (codes ",item_" ++ (padded 3 k ++ (codes ",active," ++ (decimal (k * 7) ++ (10 ∷ []))))),
)

pub length-csv_payload : (n : ℕ) → length (csv_payload n) ≡ n
unfolding csv_payload
length-csv_payload n = cut n _ (grow_enough csv_row csv_row_full n n 1 _ (omega arith))

length-fitted : (content : Bytes) (n : ℕ) → length (fitted content n) ≡ n
length-fitted content n = elim (Bool-cases (leb n (length content))) [
  | inl t ↦ ground (arith, t, length-take n content)
  | inr t ↦ ground (
    arith,
    t,
    length-append content (10 ∷ replicate (n - length content - 1) 37),
    length-replicate {A = ℕ} (n - length content - 1) 37,
  )
]

pub length-pdf_payload : (title : Bytes) (n : ℕ) → length (pdf_payload title n) ≡ n
unfolding pdf_payload
length-pdf_payload title n = length-fitted (pdf_content title) n

pub length-jpg_payload : (n : ℕ) → length (jpg_payload n) ≡ min n (22 + (n - 22))
unfolding jpg_payload
length-jpg_payload n = omega (
  arith,
  length-take n (jpg_header ++ (replicate (n - 20 - 2) 0 ++ (255 ∷ 217 ∷ []))),
  length-append {A = ℕ} (replicate (n - 20 - 2) 0) (255 ∷ 217 ∷ []),
  length-replicate {A = ℕ} (n - 20 - 2) 0,
)

length-generated : (k idx n : ℕ) → 22 ≤ n → length (generated_payload k idx n).0 ≡ n
length-generated zero idx n h = length-text_payload _ n
length-generated (suc zero) idx n h = length-text_payload _ n
length-generated (suc (suc zero)) idx n h = length-pdf_payload _ n
length-generated (suc (suc (suc zero))) idx n h = length-csv_payload n
length-generated (suc (suc (suc (suc k)))) idx n h = omega (arith, length-jpg_payload n, h)

specs_size-append : (xs ys : Specs) → specs_size (xs ++ ys) ≡ specs_size xs + specs_size ys
specs_size-append [] ys = omega arith
specs_size-append ((name, payload) ∷ xs) ys = omega (arith, specs_size-append xs ys)

more_specs_enough :
    (target fuel idx total : ℕ)
    → target ≤ total + fuel
    → target ≤ total + specs_size (more_specs target fuel idx total)
more_specs_enough target zero idx total h = omega (arith, h)
more_specs_enough target (suc fuel) idx total h = elim (Bool-cases (ltb total target)) [
  | inr t ↦ ground (arith, t)
  | inl t ↦
      let payload = (generated_payload ((idx - 2) % 5) idx (size_of target total idx)).0 in
      let size = length-generated ((idx - 2) % 5) idx (size_of target total idx) (omega arith) in
      let rest =
        more_specs_enough target fuel (suc idx) (total + length payload) (omega (arith, h, size)) in
      ground (arith, t, rest)
]

-- The files that are made have as many bytes as were asked for at least: the loop ends, and not because its fuel
-- ran out.
pub build_generated_file_specs_enough :
    (target : ℕ) → target ≤ specs_size (build_generated_file_specs target)
unfolding build_generated_file_specs
build_generated_file_specs_enough zero = omega arith
build_generated_file_specs_enough (suc n) = omega (
  arith,
  specs_size-append (first_specs (suc n))
      (more_specs (suc n) (suc n) 2 (specs_size (first_specs (suc n)))),
  more_specs_enough (suc n) (suc n) 2 (specs_size (first_specs (suc n))) (omega arith),
)

text_payload_start : text_payload (codes "T") 3 ≡ 84 ∷ 10 ∷ 83 ∷ []
unfolding text_payload
text_payload_start = refl

csv_payload_start : csv_payload 40 ≡ codes "id,name,status,value\n1,item_001,active,7"
unfolding csv_payload decimal
csv_payload_start = refl
