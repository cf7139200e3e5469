-- ===== src/Metadata.antt =====
-- metadata.py: what a file gives away, and the removal of it. The texts' regular expressions, the zip
-- archives and `str.lower` are the interpreter's: they are the fields of `Tools`. A file's name is its
-- UTF-8 bytes.
pub mod Jpeg
pub mod Png
pub mod Support
mod Tests
use phantasm.Base.{
  ℕ, ◌+◌, ◌-◌, String, Bool, true, false, not, ◌&&◌, ◌||◌, Option, none, some, List, [], ◌∷◌, ◌++◌,
  map, Bytes, codes, bytes_eq, length, take, drop, leb, if◌then◌else◌,
}
use phantasm.RecordCipher.{basename}
use phantasm.Metadata.Jpeg.{scrub_jpeg}
use phantasm.Metadata.Png.{signature, scrub_png, png_risks}

pub record Tools : Type 0 where
  pub lower : Bytes → Bytes
  -- does `bytes.decode("utf-8")` return?
  pub is_utf8 : Bytes → Bool
  -- `decode("utf-8", errors="ignore")`, encoded again
  pub decoded : Bytes → Bytes
  -- the searches and substitutions of the two patterns, for paths and for author lines
  pub has_path : Bytes → Bool
  pub has_author : Bytes → Bool
  pub without_paths : Bytes → Bytes
  pub without_authors : Bytes → Bytes
  -- the members of a zip archive with what `read` gives for their names, none where zipfile raises, and the archive of some members
  pub read_zip : Bytes → Option (List (Bytes × Bytes))
  pub write_zip : List (Bytes × Bytes) → Option Bytes
  -- `_CORE_FIELDS_RE.sub` and `_APP_FIELDS_RE.sub`
  pub blank_core : Bytes → Bytes
  pub blank_app : Bytes → Bytes
  -- sorted(set(…))
  pub sorted_set : List String → List String

unfoldable pub starts_with : Bytes → Bytes → Bool
starts_with bytes [] = true
starts_with [] (p ∷ prefix) = false
starts_with (b ∷ bytes) (p ∷ prefix) = phantasm.Base.◌==◌ b p && starts_with bytes prefix

abbrev ends_with : Bytes → Bytes → Bool
ends_with bytes suffix =
    leb (length suffix) (length bytes)
    && bytes_eq (drop (length bytes - length suffix) bytes) suffix

abbrev ends_with_one : Bytes → List Bytes → Bool
ends_with_one bytes [] = false
ends_with_one bytes (s ∷ suffixes) = ends_with bytes s || ends_with_one bytes suffixes

-- `token in data`
abbrev pub occurs : Bytes → Bytes → Bool
occurs token [] = starts_with [] token
occurs token (b ∷ bytes) = starts_with (b ∷ bytes) token || occurs token bytes

abbrev has_zero : Bytes → Bool
has_zero [] = false
has_zero (b ∷ bytes) = phantasm.Base.◌==◌ b 0 || has_zero bytes

unfoldable pub looks_like_jpeg : Bytes → Bool
looks_like_jpeg bytes = starts_with bytes (0xff ∷ 0xd8 ∷ [])

unfoldable pub looks_like_zip : Bytes → Bool
looks_like_zip bytes = starts_with bytes (0x50 ∷ 0x4b ∷ 0x03 ∷ 0x04 ∷ [])

unfoldable pub looks_like_png : Bytes → Bool
looks_like_png bytes = starts_with bytes signature

abbrev office_extensions : List Bytes
office_extensions =
    codes ".docx"
    ∷ codes ".xlsx"
    ∷ codes ".pptx"
    ∷ codes ".docm"
    ∷ codes ".xlsm"
    ∷ codes ".pptm"
    ∷ []

abbrev text_extensions : List Bytes
text_extensions = codes ".txt" ∷ codes ".md" ∷ codes ".csv" ∷ codes ".log" ∷ []

-- `os.path.basename(filename or "")`
abbrev base : Option Bytes → Bytes
base none = basename []
base (some filename) = basename filename

-- the first 262144 bytes, and what is said where a token is among them
abbrev scan_ascii_tokens : Bytes → List (Bytes × String) → List String
scan_ascii_tokens bytes [] = []
scan_ascii_tokens bytes ((token, description) ∷ tokens) =
    let rest = scan_ascii_tokens bytes tokens in
    if occurs token (take 262144 bytes) then description ∷ rest else rest

abbrev jpeg_tokens : List (Bytes × String)
jpeg_tokens =
    (codes "GPS", "possible location metadata")
    ∷ (codes "Make", "camera maker metadata")
    ∷ (codes "Model", "camera model metadata")
    ∷ (codes "Serial", "device serial-like metadata")
    ∷ []

abbrev pdf_tokens : List (Bytes × String)
pdf_tokens =
    (codes "/Author", "document author metadata")
    ∷ (codes "/Creator", "creator application metadata")
    ∷ (codes "/Producer", "creator application metadata")
    ∷ (codes "/Title", "document title metadata")
    ∷ (codes "/Subject", "document subject metadata")
    ∷ []

abbrev office_tokens : List (Bytes × String)
office_tokens =
    (codes "creator", "document author metadata")
    ∷ (codes "lastModifiedBy", "modification history metadata")
    ∷ (codes "title", "document title metadata")
    ∷ (codes "subject", "document subject metadata")
    ∷ (codes "Application", "creator application metadata")
    ∷ []

abbrev member_risks : Bytes → List (Bytes × Bytes) → List String
member_risks name [] = []
member_risks name ((m, xml) ∷ members) =
    let rest = member_risks name members in
    if bytes_eq m name then scan_ascii_tokens (take 262144 xml) office_tokens else rest

abbrev has_thumbnail : List (Bytes × Bytes) → Bool
has_thumbnail [] = false
has_thumbnail ((m, xml) ∷ members) =
    starts_with m (codes "docProps/thumbnail") || has_thumbnail members

abbrev when : Bool → String → List String
when b risk = if b then risk ∷ [] else []

pub record Scrubbed : Type 0 where
  pub success : Bool
  pub filename : String
  pub payload : Bytes
  pub message : String

pub record Report : Type 0 where
  pub risk : String
  pub has_warning : Bool
  pub findings : List String
  pub supported : Bool

abbrev pub completed : Bytes → Scrubbed
completed payload = record {
  success = true;
  filename = "metadata_reduced_payload.bin";
  payload = payload;
  message = "Best-effort metadata removal completed.";
}

abbrev pub unsupported : Scrubbed
unsupported = record {
  success = false;
  filename = "";
  payload = [];
  message = "Metadata removal is not supported for this file type.";
}

unfoldable pub risk_level : List String → String
risk_level [] = "low"
risk_level (r ∷ risks) = if leb 3 (length (r ∷ risks)) then "high" else "medium"

module _ (tools : Tools) where
  unfoldable pub looks_like_text : Bytes → Bool
  looks_like_text [] = true
  looks_like_text (b ∷ bytes) =
      let sample = take 4096 (b ∷ bytes) in if has_zero sample then false else tools.is_utf8 sample

  abbrev blank_member : Bytes × Bytes → Bytes × Bytes
  blank_member (name, content) = (
    name,
    if bytes_eq name (codes "docProps/core.xml")
        then tools.blank_core content
        else if bytes_eq name (codes "docProps/app.xml")
        then tools.blank_app content
        else content,
  )

  abbrev write_members : Option (List (Bytes × Bytes)) → Option Bytes
  write_members none = none
  write_members (some members) = tools.write_zip (map blank_member members)

  unfoldable pub scrub_office_zip : Bytes → Option Bytes
  scrub_office_zip bytes = write_members (tools.read_zip bytes)

  unfoldable pub scrub_text : Bytes → Scrubbed
  scrub_text bytes = completed (tools.without_authors (tools.without_paths (tools.decoded bytes)))

  abbrev is_office : Option Bytes → Bytes → Bool
  is_office filename bytes =
      looks_like_zip bytes && ends_with_one (tools.lower (base filename)) office_extensions

  abbrev pub is_text : Option Bytes → Bytes → Bool
  is_text filename bytes =
      looks_like_text bytes && ends_with_one (tools.lower (base filename)) text_extensions

  -- The tests one after the other: one that applies and gives no result goes on to the next.
  abbrev text_step : Option Bytes → Bytes → Scrubbed
  text_step filename bytes = if is_text filename bytes then scrub_text bytes else unsupported

  abbrev or_else : Option Bytes → Scrubbed → Scrubbed
  or_else none next = next
  or_else (some payload) next = completed payload

  abbrev office_step : Option Bytes → Bytes → Scrubbed
  office_step filename bytes =
      let next = text_step filename bytes in
      if is_office filename bytes then or_else (scrub_office_zip bytes) next else next

  abbrev png_step : Option Bytes → Bytes → Scrubbed
  png_step filename bytes =
      let next = office_step filename bytes in
      if looks_like_png bytes then or_else (scrub_png bytes) next else next

  unfoldable pub scrub_metadata : Option Bytes → Bytes → Scrubbed
  scrub_metadata filename bytes =
      let next = png_step filename bytes in
      if looks_like_jpeg bytes then or_else (scrub_jpeg bytes) next else next

  unfoldable pub scrub_supported : Option Bytes → Bytes → Bool
  scrub_supported filename bytes =
      looks_like_jpeg bytes
      || (looks_like_png bytes || (is_office filename bytes || is_text filename bytes))

  abbrev zip_risks : Option (List (Bytes × Bytes)) → List String
  zip_risks none = []
  zip_risks (some members) =
      member_risks (codes "docProps/core.xml") members
      ++ (member_risks (codes "docProps/app.xml") members
          ++ when (has_thumbnail members) "embedded thumbnail")

  unfoldable pub office_zip_risks : Bytes → List String
  office_zip_risks bytes = zip_risks (tools.read_zip bytes)

  abbrev jpeg_risks : Bytes → List String
  jpeg_risks bytes =
      when (occurs (0x45 ∷ 0x78 ∷ 0x69 ∷ 0x66 ∷ 0 ∷ 0 ∷ []) bytes) "embedded image metadata"
      ++ scan_ascii_tokens bytes jpeg_tokens

  abbrev text_risks : Bytes → Bytes → List String
  text_risks name bytes =
      let text = tools.decoded (take 65536 bytes) in
      when (tools.has_path text) "local path leakage"
      ++ (when (tools.has_author text) "author or modification metadata"
          ++ when (not (bytes_eq name [])) "original filename may reveal context")

  abbrev all_risks : Option Bytes → Bytes → List String
  all_risks filename bytes =
      let name = base filename in
      (if looks_like_jpeg bytes then jpeg_risks bytes else [])
      ++ ((if ends_with (tools.lower name) (codes ".pdf") || starts_with bytes (codes "%PDF")
            then scan_ascii_tokens bytes pdf_tokens
            else [])
          ++ ((if looks_like_png bytes then png_risks bytes else [])
              ++ ((if looks_like_zip bytes then office_zip_risks bytes else [])
                  ++ (if looks_like_text bytes then text_risks name bytes else []))))

  abbrev nonempty : List String → Bool
  nonempty [] = false
  nonempty (r ∷ risks) = true

  unfoldable pub metadata_risk_report : Option Bytes → Bytes → Report
  metadata_risk_report filename bytes =
      let unique_risks = tools.sorted_set (all_risks filename bytes) in
      record {
        risk = risk_level unique_risks;
        has_warning = nonempty unique_risks;
        findings = unique_risks;
        supported = scrub_supported filename bytes;
      }
