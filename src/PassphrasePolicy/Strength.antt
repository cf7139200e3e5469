-- ===== src/PassphrasePolicy/Strength.antt =====
-- What passes the policy.
use phantasm.Base.{
  ℕ, ◌≤◌, ◌≡◌, ◌≢◌, ◌⊎◌, inl, inr, refl, sym, ap, ◌∙◌, String, true, [], ◌∷◌, length, bytes_eq_refl,
  arith,
}
use phantasm.PassphrasePolicy.{
  Text, restricted, distinct, check_passphrase, check_store_passphrases,
}

distinct_bounded : (v : Text) → distinct v ≤ length v
unfolding distinct
distinct_bounded [] = omega arith
distinct_bounded (c ∷ cs) = ground (arith, distinct_bounded cs)

check_passphrase_ok :
    (minimum : ℕ) (v : Text) (label : String)
    → (check_passphrase minimum v label).ok ≡ true
    → (minimum ≤ length v) × (3 ≤ distinct v)
unfolding check_passphrase
check_passphrase_ok minimum [] label accepted = ground (arith, accepted)
check_passphrase_ok minimum (c ∷ cs) label accepted = ground (arith, accepted)

different : (minimum c : ℕ) (cs : Text) → (restricted minimum (c ∷ cs) (c ∷ cs)).ok ≡ true → ⊥
different minimum c cs accepted = ground (arith, accepted, bytes_eq_refl (c ∷ cs))

-- Passphrases that pass for a store: the access passphrase has at least the least length and three
-- different characters, and the restricted one is left out, or it has both too and is not the same.
pub check_store_passphrases_ok :
    (minimum : ℕ) (access_value restricted_value : Text)
    → (check_store_passphrases minimum access_value restricted_value).ok ≡ true
    → (minimum ≤ length access_value)
      × (3 ≤ distinct access_value)
      × ((restricted_value ≡ [])
          ⊎ ((minimum ≤ length restricted_value)
              × (3 ≤ distinct restricted_value)
              × (access_value ≢ restricted_value)))
unfolding check_store_passphrases
check_store_passphrases_ok minimum access_value [] accepted =
    let (long, varied) =
      check_passphrase_ok minimum access_value "Access password" (ground (arith, accepted)) in
    (long, varied, inl refl)
check_store_passphrases_ok minimum access_value (c ∷ cs) accepted =
    let (long, varied) =
      check_passphrase_ok minimum access_value "Access password" (ground (arith, accepted)) in
    let (long', varied') =
      check_passphrase_ok minimum (c ∷ cs) "Restricted recovery password"
        (ground (arith, accepted)) in
    (
      long,
      varied,
      inr (
        long',
        varied',
        λ e.
            different minimum c cs
              (sym (ap (λ v. (restricted minimum v (c ∷ cs)).ok) e) ∙ ground (arith, accepted)),
      ),
    )
