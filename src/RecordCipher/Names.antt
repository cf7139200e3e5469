-- ===== src/RecordCipher/Names.antt =====
-- `os.path.basename` and the names of stored files.
use phantasm.Base.{
  ℕ, ◌≡◌, refl, Bool, false, ◌||◌, inl, inr, [], ◌∷◌, ◌++◌, Bytes, append_assoc, append-nil, ◌==◌,
  Bool-cases, arith,
}
use phantasm.RecordCipher.{basename_from, basename}

abbrev pub has_slash : Bytes → Bool
has_slash [] = false
has_slash (c ∷ path) = c == b'/' || has_slash path

has_slash-snoc :
    (path : Bytes) (c : ℕ)
    → has_slash path ≡ false
    → (c == b'/') ≡ false
    → has_slash (path ++ c ∷ []) ≡ false
has_slash-snoc [] c h k = ground arith
has_slash-snoc (d ∷ path) c h k = ground (arith, has_slash-snoc path c)

-- `since` is what was read after the last slash
has_slash-basename_from :
    (since path : Bytes)
    → has_slash since ≡ false
    → has_slash (basename_from (since ++ path) path) ≡ false
unfolding basename_from
has_slash-basename_from since [] h = rw append-nil h
has_slash-basename_from since (c ∷ path) h = elim (Bool-cases (c == b'/')) [
  | inl slash ↦ rw slash (has_slash-basename_from [] path refl)
  | inr plain ↦ rw plain (
      rw (append_assoc since (c ∷ []) path) at
        (has_slash-basename_from (since ++ c ∷ []) path (has_slash-snoc since c h plain)))
]

-- `os.path.basename` leaves no slash.
pub has_slash-basename : (path : Bytes) → has_slash (basename path) ≡ false
unfolding basename
has_slash-basename path = has_slash-basename_from [] path refl

basename_from-plain : (keep path : Bytes) → has_slash path ≡ false → basename_from keep path ≡ keep
unfolding basename_from
basename_from-plain keep [] h = refl
basename_from-plain keep (c ∷ path) h = ground (arith, basename_from-plain keep path)

pub basename-basename : (path : Bytes) → basename (basename path) ≡ basename path
basename-basename path =
    unfold basename in basename_from-plain (basename path) (basename path) (has_slash-basename path)

-- A name without a slash is its own base name.
pub basename-plain : (path : Bytes) → has_slash path ≡ false → basename path ≡ path
unfolding basename
basename-plain path h = basename_from-plain path path h
