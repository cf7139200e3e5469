-- ===== src/Roles/Supervisor.antt =====
-- What `verify_supervisor` says of the supervisor that `configure_supervisor` has stored, and after
-- `clear`.
use phantasm.Base.{
  ◌≡◌, refl, ℕ, suc, String, Bool, true, false, Option, Option-cases, inl, inr, none, some, Bytes,
  length, leb, bytes_eq, arith,
}
use phantasm.Base.Dict.{lookup}
use phantasm.Base.Except.{ok}
use phantasm.Platform.{Platform}
use phantasm.LocalState.{Files, Secrets, urandom}
use phantasm.LocalState.RoundTrip.{files, encrypt_made}
use phantasm.Roles.{
  Codec, RoleVerificationResult, supervisor, refusal, role_cipher, entry, hash, read_supervisor,
  verify_supervisor, configure_supervisor, is_configured, clear,
}

module _ (env : Platform) (secrets : Secrets) (codec : Codec) where
  -- The answer to a passphrase whose hash is, or is not, the stored one
  abbrev pub answer : Bool → RoleVerificationResult
  answer true = record { verified = true; role = some supervisor; reason = "verified" }
  answer false = refusal (some supervisor) "wrong_passphrase"

  -- In these files, every passphrase is checked against this one, under this salt.
  unfoldable pub Checks : String → Bytes → Files → Type 0
  Checks passphrase salt s =
      (candidate : String)
      → verify_supervisor env secrets codec candidate s ≡ (
        ok (
            answer (
              bytes_eq (hash env secrets codec candidate salt)
                (hash env secrets codec passphrase salt))),
        s,
      )

  -- Storing a passphrase that is not empty makes the store check every passphrase against it, under a
  -- fresh salt, whatever files were there, and the check changes no file.
  pub configure_supervisor-Checks :
      (passphrase : String) (o b : Option Bytes) (d : ℕ)
      → leb (length (codec.utf8 passphrase)) 0 ≡ false
      → (s : Files) × (configure_supervisor env secrets codec true passphrase (files o b d)
          ≡ (ok (true, "Supervisor passphrase configured."), s))
        × (is_configured s ≡ true)
        × Checks passphrase (env.rng.urandom d 32) s
  unfolding configure_supervisor is_configured urandom verify_supervisor read_supervisor Checks
      lookup
  configure_supervisor-Checks passphrase o b d given =
      let salt = env.rng.urandom d 32 in
      let digest = hash env secrets codec passphrase salt in
      let plaintext = codec.dumps (entry (codec.hex salt) (codec.hex digest)) in
      let (payload, o', d', sealed, opened) =
        encrypt_made env secrets role_cipher plaintext o b (suc d) in
      (
        files o' (some payload) d',
        ground (arith, given, sealed),
        refl,
        λ candidate. ground (
          arith,
          opened "role state is too short" "role state authentication failed" (some payload) d',
          codec.loads-dumps (codec.hex salt) (codec.hex digest),
          codec.fromhex-hex salt,
          codec.fromhex-hex digest,
        ),
      )

  -- Clearing that the file system allows leaves a store that is not configured and verifies nothing.
  pub clear_forgets :
      (s : Files) (candidate : String)
      → ((clear env secrets codec true true s).0 ≡ ok (true, "Supervisor passphrase cleared."))
        × (is_configured (clear env secrets codec true true s).1 ≡ false)
        × (verify_supervisor env secrets codec candidate (clear env secrets codec true true s).1
            ≡ (ok (refusal none "not_configured"), (clear env secrets codec true true s).1))
  unfolding clear verify_supervisor urandom is_configured
  clear_forgets s candidate = elim (Option-cases s.blob) [
    | inl absent ↦ ground (arith, absent)
    | inr (contents, there) ↦ ground (arith, there)
  ]
