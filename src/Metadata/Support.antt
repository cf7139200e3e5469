-- ===== src/Metadata/Support.antt =====
-- Which files are scrubbed.
use phantasm.Base.{◌≡◌, true, false, ◌||◌, Option, Bytes, arith}
use phantasm.Metadata.Png.{scrub_png}
use phantasm.Metadata.{
  Tools, unsupported, looks_like_png, is_text, scrub_text, scrub_metadata, scrub_supported,
  metadata_risk_report,
}

module _ (tools : Tools) (filename : Option Bytes) (bytes : Bytes) where
  -- A removal succeeds only for a file whose report says that it is supported, and it succeeds
  -- for every file that looks like a PNG, or like a text with one of the text extensions; where it
  -- does not succeed, no bytes are given.
  pub scrub_metadata_supported :
      ((scrub_metadata tools filename bytes).success ≡ true
        → (metadata_risk_report tools filename bytes).supported ≡ true)
      × ((looks_like_png bytes || is_text tools filename bytes) ≡ true
          → (scrub_metadata tools filename bytes).success ≡ true)
      × ((scrub_metadata tools filename bytes).success ≡ false
          → scrub_metadata tools filename bytes ≡ unsupported)
  unfolding scrub_metadata scrub_supported metadata_risk_report scrub_text scrub_png
  scrub_metadata_supported =
      (λ done. ground (arith, done), λ h. ground (arith, h), λ h. ground (arith, h))
