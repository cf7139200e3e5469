-- ===== src/FaceWorkflow/Destroy/Known.antt =====
-- services/vessel_workflow_service.py: what it is to know the destroy passphrase of a face, told by its record and
-- scrypt.
use phantasm.Base.{
  ◌≡◌, refl, ap, String, true, false, inl, inr, Option, Option-cases, none, some, Bytes, length,
  bytes_eq_sound, arith, str_eq,
}
use phantasm.Base.Except.{ok}
use phantasm.VesselRegistry.{Face, get_face_state_record}
use phantasm.FaceWorkflow.{
  Setting, Drive, compared, verify_face_emergency_password, verify_auth, recorded_kdf_value,
  scrypt_destroy_legacy_n, scrypt_destroy_legacy_r, scrypt_destroy_legacy_p,
}

module _ {Json Profile Binding Candidate : Type 0}
    (s : Setting Json Profile Binding Candidate) where
  -- The password gives the digest that the face has, with its salt and the cost that it records.
  pub record KnowsPassword (path id : String) (password : Bytes) (d : Drive Profile Binding)
      : Type 0 where
    pub face : Face Profile Binding
    pub salt : Bytes
    pub stored_digest : Bytes
    pub at : get_face_state_record path id d.registry ≡ some face
    pub has_salt : str_eq face.emergency_auth.salt_b64 "" ≡ false
    pub has_digest : str_eq face.emergency_auth.hash_b64 "" ≡ false
    pub salted : s.scalars.b64decode face.emergency_auth.salt_b64 ≡ some salt
    pub filled : s.scalars.b64decode face.emergency_auth.hash_b64 ≡ some stored_digest
    pub hashes :
        s.services.scrypt password salt
          (recorded_kdf_value face.emergency_auth.kdf_n scrypt_destroy_legacy_n)
          (recorded_kdf_value face.emergency_auth.kdf_r scrypt_destroy_legacy_r)
          (recorded_kdf_value face.emergency_auth.kdf_p scrypt_destroy_legacy_p)
          (length stored_digest)
        ≡ some stored_digest

  no_face :
      (path id : String) (password : Bytes) (d : Drive Profile Binding)
      → get_face_state_record path id d.registry ≡ none
      → (verify_face_emergency_password s path id password d).0 ≡ ok true
      → ⊥
  unfolding verify_face_emergency_password
  no_face path id password d missing verified = ground (arith, missing, verified)

  accepted_for :
      (path id : String) (password : Bytes) (d : Drive Profile Binding) (f : Face Profile Binding)
      → get_face_state_record path id d.registry ≡ some f
      → (verify_face_emergency_password s path id password d).0 ≡ ok true
      → verify_auth s f.emergency_auth password ≡ ok true
  unfolding verify_face_emergency_password
  accepted_for path id password d f at verified = ground (arith, at, verified)

  module _ (f : Face Profile Binding) (password : Bytes)
      (accepted : verify_auth s f.emergency_auth password ≡ ok true) where
    has_both :
        (str_eq f.emergency_auth.salt_b64 "" ≡ false)
        × (str_eq f.emergency_auth.hash_b64 "" ≡ false)
    unfolding verify_auth
    has_both = (ground (arith, accepted), ground (arith, accepted))

    salt_decodes : s.scalars.b64decode f.emergency_auth.salt_b64 ≡ none → ⊥
    unfolding verify_auth
    salt_decodes fails = ground (arith, accepted, fails, has_both.0, has_both.1)

    digest_decodes : s.scalars.b64decode f.emergency_auth.hash_b64 ≡ none → ⊥
    unfolding verify_auth
    digest_decodes fails = ground (arith, accepted, fails, has_both.0, has_both.1)

    hashed_with :
        (salt stored_digest : Bytes) (r : Option Bytes)
        → s.scalars.b64decode f.emergency_auth.salt_b64 ≡ some salt
        → s.scalars.b64decode f.emergency_auth.hash_b64 ≡ some stored_digest
        → s.services.scrypt password salt
            (recorded_kdf_value f.emergency_auth.kdf_n scrypt_destroy_legacy_n)
            (recorded_kdf_value f.emergency_auth.kdf_r scrypt_destroy_legacy_r)
            (recorded_kdf_value f.emergency_auth.kdf_p scrypt_destroy_legacy_p)
            (length stored_digest)
          ≡ r
        → compared s r stored_digest ≡ true
    unfolding verify_auth
    hashed_with salt stored_digest r salted filled is =
        ground (arith, accepted, salted, filled, is, has_both.0, has_both.1)

    compared_sound :
        (r : Option Bytes) (stored_digest : Bytes)
        → compared s r stored_digest ≡ true
        → r ≡ some stored_digest
    compared_sound none stored_digest same = absurd (cc (same))
    compared_sound (some b) stored_digest same = ap some (bytes_eq_sound b stored_digest same)

    decoded :
        (text : String)
        → (s.scalars.b64decode text ≡ none → ⊥)
        → (bytes : Bytes) × (s.scalars.b64decode text ≡ some bytes)
    decoded text is = elim (Option-cases (s.scalars.b64decode text)) [
      | inl fails ↦ absurd (is fails)
      | inr found ↦ found
    ]

    known :
        (path id : String) (d : Drive Profile Binding)
        → get_face_state_record path id d.registry ≡ some f
        → KnowsPassword path id password d
    known path id d at =
        let (salt, salted) = decoded f.emergency_auth.salt_b64 salt_decodes in
        let (stored_digest, filled) = decoded f.emergency_auth.hash_b64 digest_decodes in
        record {
          face = f;
          salt = salt;
          stored_digest = stored_digest;
          at = at;
          has_salt = has_both.0;
          has_digest = has_both.1;
          salted = salted;
          filled = filled;
          hashes =
              compared_sound _ stored_digest (hashed_with salt stored_digest _ salted filled refl);
        }

  pub verify-KnowsPassword :
      (path id : String) (password : Bytes) (d : Drive Profile Binding)
      → (verify_face_emergency_password s path id password d).0 ≡ ok true
      → KnowsPassword path id password d
  verify-KnowsPassword path id password d verified =
      elim (Option-cases (get_face_state_record path id d.registry)) [
        | inl missing ↦ absurd (no_face path id password d missing verified)
        | inr (f, at) ↦
            known f password (accepted_for path id password d f at verified) path id d at
      ]
