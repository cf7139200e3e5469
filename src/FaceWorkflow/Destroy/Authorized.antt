-- ===== src/FaceWorkflow/Destroy/Authorized.antt =====
-- services/vessel_workflow_service.py: what the calls that destroy a face or a vessel ask for before they touch
-- anything, and what they leave.
use phantasm.Base.{
  ◌≡◌, refl, ap, String, Bool, true, false, ◌⊎◌, inl, inr, Option, none, some, Bytes, arith, str_eq,
  eq_iff,
}
use phantasm.Base.Except.{Result, ok, err, Result-cases}
use phantasm.FaceWorkflow.{
  Failure, Presented, Setting, Drive, resolve_face_id, credentials_initialized,
  verify_face_emergency_password, ensure_object_binding, verify_auth,
}
use phantasm.VesselRegistry.{get_face_state_record}
use phantasm.FaceWorkflow.Destroy.Held.{HoldsObject, require-HoldsObject}
use phantasm.FaceWorkflow.Destroy.Known.{KnowsPassword, verify-KnowsPassword}
use phantasm.FaceWorkflow.Destroy.{require_bound_object, authorize, destroy_face, destroy_vessel}

module _ {Json Profile Binding Candidate : Type 0}
    (s : Setting Json Profile Binding Candidate) where
  -- Matching a presented object changes nothing, unless it is to be registered.
  pub ensure_object_binding_reads :
      (path : String) (selector : Option String) (p : Presented) (d : Drive Profile Binding)
      → (ensure_object_binding s path selector p false d).1 ≡ d
  unfolding ensure_object_binding
  ensure_object_binding_reads path selector p d = ground arith

  require_bound_object_reads :
      (path : String) (selector : Option String) (p : Presented) (d : Drive Profile Binding)
      → (require_bound_object s path selector p d).1 ≡ d
  unfolding require_bound_object
  require_bound_object_reads path selector p d =
      ground (
        arith,
        ensure_object_binding_reads path selector (record p { no_object_binding = false }) d,
      )

  pub authorize_reads :
      (phrase path : String) (password : Bytes) (selector : Option String) (p : Presented)
      (confirmation : String) (d : Drive Profile Binding)
      → (authorize s phrase path password selector p confirmation d).1 ≡ d
  unfolding authorize verify_face_emergency_password
  authorize_reads phrase path password selector p confirmation d =
      ground (arith, require_bound_object_reads path selector p d)

  -- What holds of a call that was let through
  pub record IsAuthorized (phrase path : String) (password : Bytes) (selector : Option String)
      (p : Presented) (confirmation : String) (d : Drive Profile Binding) (id : String)
      : Type 0 where
    pub confirmed : confirmation ≡ phrase
    pub names : resolve_face_id s selector ≡ ok id
    pub initialized : credentials_initialized s path id d ≡ true
    pub holds_object : HoldsObject s path id selector p d
    pub knows_password : KnowsPassword s path id password d

  verify_reads :
      (path id : String) (password : Bytes) (d : Drive Profile Binding)
      → (verify_face_emergency_password s path id password d).1 ≡ d
  unfolding verify_face_emergency_password
  verify_reads path id password d =
      elim (get_face_state_record path id d.registry)
        as (λ o.
          (elim o as (λ _. Result Failure Bool × Drive Profile Binding) [
            | none ↦ (ok false, d)
            | some f ↦ (verify_auth s f.emergency_auth password, d)
          ]).1
          ≡ d) [ none ↦ refl | some f ↦ refl ]

  -- A call goes through only as one that is confirmed, for a face that is set up, with its object in view and its
  -- destroy passphrase.
  module _ (phrase path : String) (password : Bytes) (selector : Option String) (p : Presented)
      (confirmation id : String) (d : Drive Profile Binding)
      (h : (authorize s phrase path password selector p confirmation d).0 ≡ ok id) where
    confirmed_of : str_eq confirmation phrase ≡ true
    unfolding authorize
    confirmed_of = ground (arith, h)

    names_of : resolve_face_id s selector ≡ ok id
    unfolding authorize
    names_of = ground (arith, h)

    initialized_of : credentials_initialized s path id d ≡ true
    unfolding authorize
    initialized_of = ground (arith, h)

    object_of : require_bound_object s path selector p d ≡ (ok tt, d)
    unfolding authorize
    object_of = ground (arith, h, require_bound_object_reads path selector p d)

    password_of : verify_face_emergency_password s path id password d ≡ (ok true, d)
    unfolding authorize
    password_of = ground (arith, h, names_of, object_of, verify_reads path id password d)

    pub authorize-IsAuthorized : IsAuthorized phrase path password selector p confirmation d id
    authorize-IsAuthorized = record {
      confirmed = (eq_iff confirmation phrase).0 confirmed_of;
      names = names_of;
      initialized = initialized_of;
      holds_object = require-HoldsObject s path id selector p d names_of (ap (λ r. r.0) object_of);
      knows_password = verify-KnowsPassword s path id password d (ap (λ r. r.0) password_of);
    }

  refused_face :
      (path : String) (password : Bytes) (selector : Option String) (p : Presented)
      (confirmation : String) (d : Drive Profile Binding) (e : Failure)
      → (authorize s "DESTROY FACE" path password selector p confirmation d).0 ≡ err e
      → destroy_face s path password selector p confirmation d ≡ (err e, d)
  unfolding destroy_face
  refused_face path password selector p confirmation d e h =
      ground (arith, h, authorize_reads "DESTROY FACE" path password selector p confirmation d)

  refused_vessel :
      (path : String) (password : Bytes) (selector : Option String) (p : Presented)
      (confirmation : String) (d : Drive Profile Binding) (e : Failure)
      → (authorize s "DESTROY VESSEL" path password selector p confirmation d).0 ≡ err e
      → destroy_vessel s path password selector p confirmation d ≡ (err e, d)
  unfolding destroy_vessel
  refused_vessel path password selector p confirmation d e h =
      ground (arith, h, authorize_reads "DESTROY VESSEL" path password selector p confirmation d)

  -- A call to destroy a face leaves the vessel, the access key and the registry as they are, unless it is
  -- confirmed by its phrase, for a face with credentials; with a profile, of the image or of the camera, that matches
  -- its binding, which is not a disabled one, or, where it has no binding, with the one object that the camera sees
  -- being that of its mode; and with a password that scrypt, under the salt and the cost of the record of the face,
  -- turns into the digest of the record.
  pub destroy_face-IsAuthorized :
      (path : String) (password : Bytes) (selector : Option String) (p : Presented)
      (confirmation : String) (d : Drive Profile Binding)
      → ((e : Failure) × (destroy_face s path password selector p confirmation d ≡ (err e, d)))
        ⊎ ((id : String) × IsAuthorized "DESTROY FACE" path password selector p confirmation d id)
  destroy_face-IsAuthorized path password selector p confirmation d =
      elim (Result-cases (authorize s "DESTROY FACE" path password selector p confirmation d).0) [
        | inl (id, h) ↦
            inr (
              id,
              authorize-IsAuthorized "DESTROY FACE" path password selector p confirmation id d h,
            )
        | inr (e, h) ↦ inl (e, refused_face path password selector p confirmation d e h)
      ]

  -- A call to destroy the vessel leaves everything as it is, unless it is authorized in the same way by the phrase of
  -- the vessel.
  pub destroy_vessel-IsAuthorized :
      (path : String) (password : Bytes) (selector : Option String) (p : Presented)
      (confirmation : String) (d : Drive Profile Binding)
      → ((e : Failure) × (destroy_vessel s path password selector p confirmation d ≡ (err e, d)))
        ⊎ ((id : String) × IsAuthorized "DESTROY VESSEL" path password selector p confirmation d id)
  destroy_vessel-IsAuthorized path password selector p confirmation d =
      elim (Result-cases (authorize s "DESTROY VESSEL" path password selector p confirmation d).0) [
        | inl (id, h) ↦ inr (
          id,
          authorize-IsAuthorized "DESTROY VESSEL" path password selector p confirmation id d h,
        )
        | inr (e, h) ↦ inl (e, refused_vessel path password selector p confirmation d e h)
      ]
