-- ===== src/PassphrasePolicy/Tests.antt =====
-- Two passphrases of four characters.
use phantasm.Base.{ℕ, ◌≤◌, ◌≡◌, ◌≢◌, ◌⊎◌, refl, true, List, [], ◌∷◌, length}
use phantasm.PassphrasePolicy.{Text, distinct, check_passphrase, check_store_passphrases}
use phantasm.PassphrasePolicy.Strength.{check_store_passphrases_ok}

abbrev access : Text
access = 97 ∷ 98 ∷ 99 ∷ 97 ∷ []

abbrev spare : Text
spare = 97 ∷ 98 ∷ 100 ∷ 97 ∷ []

check_store_passphrases_ok_example :
    (4 ≤ length access)
    × (3 ≤ distinct access)
    × ((spare ≡ []) ⊎ ((4 ≤ length spare) × (3 ≤ distinct spare) × (access ≢ spare)))
unfolding check_store_passphrases check_passphrase distinct phantasm.Base.bytes_eq
check_store_passphrases_ok_example = check_store_passphrases_ok 4 access spare refl
