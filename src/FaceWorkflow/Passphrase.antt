-- ===== src/FaceWorkflow/Passphrase.antt =====
-- services/vessel_workflow_service.py: the destroy passphrase of a face, as it is set, checked and cleared.
use phantasm.Base.{
  ◌≡◌, inl, inr, refl, ◌∙◌, String, true, false, Option, some, Bytes, length, arith, str_eq,
  eq_refl, bytes_eq_refl, Option-cases,
}
use phantasm.Base.Int.{pos}
use phantasm.Base.Find.{find_first}
use phantasm.Base.Except.{ok}
use phantasm.VesselRegistry.{
  Face, VesselRecord, EmergencyAuth, Access, has_id, record_at, update_face_access,
  get_face_state_record, accessed, touched, get_vessel_record, is_at,
}
use phantasm.VesselRegistry.Operations.{IsSound, update_face_access-IsSound}
use phantasm.VesselRegistry.TouchFace.{
  update_face_access_returns, get_face_state_record-update_face_access,
}
use phantasm.FaceWorkflow.{
  Setting, Drive, set_face_emergency_password, verify_face_emergency_password, verify_auth,
  touch_face, compared, recorded_kdf_value, scrypt_destroy_n, scrypt_destroy_r, scrypt_destroy_p,
  scrypt_destroy_key_length,
}

module _ {Json Profile Binding Candidate : Type 0}
    (s : Setting Json Profile Binding Candidate) where
  -- A face that a vessel has, or gets when it is registered
  abbrev pub HasFace : String → String → Drive Profile Binding → Face Profile Binding → Type 0
  HasFace path id d f =
      find_first (has_id id) (record_at s.defaults s.services.utc_now path d.registry).faces
      ≡ some f

  -- A touch of a face that is there returns, and leaves the face that its arguments make.
  pub touch_face_runs :
      (path id : String) (a : Access Profile Binding) (d : Drive Profile Binding)
      (f : Face Profile Binding)
      → IsSound d.registry
      → HasFace path id d f
      → (r : VesselRecord Profile Binding) × (after : Drive Profile Binding) × (touch_face s path id
            a d
          ≡ (ok r, after))
        × (after.world ≡ d.world)
        × (get_face_state_record path id after.registry
            ≡ some (accessed s.defaults s.services.utc_now a f))
        × IsSound after.registry
  touch_face_runs path id a d f sound found =
      let (r, returns) =
        update_face_access_returns s.defaults s.services.utc_now path id a d.registry f sound
          found in
      (
        r,
        record d {
          registry = (update_face_access s.defaults s.services.utc_now path id a d.registry).1;
        },
        ground (arith, returns),
        refl,
        get_face_state_record-update_face_access s.defaults s.services.utc_now path id id a
              d.registry f f sound found found
            ∙ ground (arith, eq_refl id),
        update_face_access-IsSound s.defaults s.services.utc_now path id a d.registry sound,
      )

  -- A face that is found in the registry is one that the vessel has.
  pub found-HasFace :
      (path id : String) (d : Drive Profile Binding) (f : Face Profile Binding)
      → get_face_state_record path id d.registry ≡ some f
      → HasFace path id d f
  unfolding get_face_state_record get_vessel_record
  found-HasFace path id d f h = elim (Option-cases (find_first (is_at path) d.registry)) [
    | inl t ↦ absurd (ground (arith, h, t))
    | inr (r, t) ↦ ground (arith, h, t)
  ]

  abbrev set_auth : Bytes → EmergencyAuth
  set_auth digest = record {
    salt_b64 = s.scalars.b64encode s.services.salt;
    hash_b64 = s.scalars.b64encode digest;
    updated_at = s.services.current_timestamp;
    kdf_n = pos scrypt_destroy_n;
    kdf_r = pos scrypt_destroy_r;
    kdf_p = pos scrypt_destroy_p;
  }

  -- The hash of a passphrase under the parameters of a new record
  abbrev pub hashed : Bytes → Option Bytes
  hashed password =
      s.services.scrypt password s.services.salt scrypt_destroy_n scrypt_destroy_r scrypt_destroy_p
        scrypt_destroy_key_length

  verify-set_auth :
      (digest guess : Bytes)
      → length digest ≡ scrypt_destroy_key_length
      → str_eq (s.scalars.b64encode s.services.salt) "" ≡ false
      → str_eq (s.scalars.b64encode digest) "" ≡ false
      → verify_auth s (set_auth digest) guess ≡ ok (compared s (hashed guess) digest)
  unfolding verify_auth recorded_kdf_value
  verify-set_auth digest guess size salted filled = ground (
    arith,
    size,
    salted,
    filled,
    s.scalars.b64decode-b64encode s.services.salt,
    s.scalars.b64decode-b64encode digest,
  )

  -- After a destroy passphrase is set for a face of a sound registry, where scrypt gives a digest of the length asked for
  -- and base64 no empty text, a guess is accepted exactly if its hash under the recorded salt and cost is that digest, and
  -- the passphrase itself is accepted.
  pub verify-set_face_emergency_password :
      (path id : String) (password guess digest : Bytes) (d : Drive Profile Binding)
      (f : Face Profile Binding)
      → IsSound d.registry
      → HasFace path id d f
      → hashed password ≡ some digest
      → length digest ≡ scrypt_destroy_key_length
      → str_eq (s.scalars.b64encode s.services.salt) "" ≡ false
      → str_eq (s.scalars.b64encode digest) "" ≡ false
      → (r : VesselRecord Profile Binding) × (after : Drive Profile Binding)
        × (set_face_emergency_password s path id password d ≡ (ok r, after))
        × (verify_face_emergency_password s path id guess after
            ≡ (ok (compared s (hashed guess) digest), after))
        × (verify_face_emergency_password s path id password after ≡ (ok true, after))
  unfolding set_face_emergency_password verify_face_emergency_password
  verify-set_face_emergency_password path id password guess digest d f sound found h size salted
        filled =
      let (r, after, runs, _, kept, _) =
        touch_face_runs path id (record touched { emergency_auth = some (set_auth digest) }) d f
          sound found in
      (
        r,
        after,
        ground (arith, h, runs),
        ground (arith, kept, verify-set_auth digest guess size salted filled),
        ground (
          arith,
          kept,
          h,
          verify-set_auth digest password size salted filled,
          bytes_eq_refl digest,
        ),
      )
