-- ===== src/PassphrasePolicy.antt =====
-- passphrase_policy.py: what a passphrase must be. A text is the list of its characters' numbers;
-- the messages are kept as what they complain of, with the label.
mod Tests
pub mod Strength
use phantasm.Base.{
  ℕ, suc, String, Bool, true, false, not, ◌||◌, List, [], ◌∷◌, Bytes, length, ltb, leb, ◌==◌,
  bytes_eq, if◌then◌else◌,
}

-- A text is compared as its UTF-8 bytes are.
abbrev pub Text : Type 0
Text = List ℕ

pub data Message : Type 0 where
  fine : Message
  empty : String → Message
  too_short : String → ℕ → Message
  too_repetitive : String → Message
  same : Message

pub record PassphraseCheck : Type 0 where
  pub ok : Bool
  pub message : Message

abbrev pub occurs : ℕ → Text → Bool
occurs c [] = false
occurs c (d ∷ ds) = c == d || occurs c ds

-- `len(set(value))`
unfoldable pub distinct : Text → ℕ
distinct [] = 0
distinct (c ∷ cs) = let rest = distinct cs in if occurs c cs then rest else suc rest

abbrev pub passed : PassphraseCheck
passed = record { ok = true; message = fine }

abbrev pub failed : Message → PassphraseCheck
failed m = record { ok = false; message = m }

-- The first argument is `passphrase_min_length()`.
unfoldable pub check_passphrase : ℕ → Text → String → PassphraseCheck
check_passphrase minimum [] label = failed (empty label)
check_passphrase minimum (c ∷ cs) label =
    if ltb (length (c ∷ cs)) minimum
    then failed (too_short label minimum)
    else if leb (distinct (c ∷ cs)) 2
    then failed (too_repetitive label)
    else passed

abbrev pub restricted : ℕ → Text → Text → PassphraseCheck
restricted minimum access_value [] = passed
restricted minimum access_value (c ∷ cs) =
    if bytes_eq access_value (c ∷ cs)
    then failed same
    else (let restricted_check = check_passphrase minimum (c ∷ cs) "Restricted recovery password" in
        if not restricted_check.ok then restricted_check else passed)

unfoldable pub check_store_passphrases : ℕ → Text → Text → PassphraseCheck
check_store_passphrases minimum access_value restricted_value =
    let access_check = check_passphrase minimum access_value "Access password" in
    if not access_check.ok then access_check else restricted minimum access_value restricted_value
