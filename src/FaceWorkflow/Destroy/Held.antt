-- ===== src/FaceWorkflow/Destroy/Held.antt =====
-- services/vessel_workflow_service.py: what it is to hold the object of a face, told by its binding, the camera and the
-- images.
use phantasm.Base.{
  ◌≡◌, refl, sym, String, true, false, ◌||◌, ◌⊎◌, inl, inr, Option, Option-cases, none, some, List,
  [], ◌∷◌, Bytes, arith, str_eq, Bool-cases, bytes_eq_sound,
}
use phantasm.Base.Except.{Result, ok, err, Result-cases}
use phantasm.FaceWorkflow.{
  Failure, Presented, Setting, Drive, resolve_face_id, resolve_mode, get_face_binding_record,
  binding_registered, candidate_binding_profile, ensure_object_binding, taken, profiled, no_image,
}
use phantasm.FaceWorkflow.Destroy.{require_bound_object, same_sequence, shown}

module _ {Json Profile Binding Candidate : Type 0}
    (s : Setting Json Profile Binding Candidate) where
  -- The profile is that of the image, or of the camera where there is none.
  abbrev pub Pictured : Presented → Candidate → Type 0
  Pictured p c =
      ((image : String) × (p.object_image_path ≡ some image)
        × (s.services.profile_from_image_path image ≡ ok c))
      ⊎ ((p.object_image_path ≡ none) × (s.services.capture_camera_profile ≡ ok c))

  -- A profile of what is presented matches the binding of the face, which is not a disabled one; or the face has no
  -- binding, and the one object that the camera sees is that of the mode.
  pub data HoldsObject (path id : String) (selector : Option String) (p : Presented)
      (d : Drive Profile Binding) : Type 0 where
    matched :
        (b : Binding) (c : Candidate)
        → get_face_binding_record s path id d ≡ some b
        → str_eq (s.services.source_type b) "" ≡ false
        → str_eq (s.services.source_type b) "disabled" ≡ false
        → Pictured p c
        → s.services.matches b c (p.camera_object || no_image s p.object_image_path) ≡ true
        → HoldsObject path id selector p d
    recognized :
        (mode : String) (token : Bytes) (tokens : List Bytes)
        → binding_registered s (get_face_binding_record s path id d) ≡ false
        → resolve_mode s selector ≡ ok mode
        → s.services.auth_sequence ≡ token ∷ tokens
        → s.services.short_sequence_for_mode mode ≡ token ∷ tokens
        → HoldsObject path id selector p d

  same_sequence_sound : (xs ys : List Bytes) → same_sequence s xs ys ≡ true → xs ≡ ys
  same_sequence_sound [] [] same = refl
  same_sequence_sound [] (y ∷ ys) same = cc
  same_sequence_sound (x ∷ xs) [] same = cc
  same_sequence_sound (x ∷ xs) (y ∷ ys) same =
      ground (arith, same, bytes_eq_sound x y, same_sequence_sound xs ys)

  shown_sound :
      (xs ys : List Bytes)
      → shown s xs ys ≡ true
      → (token : Bytes) × (tokens : List Bytes) × (xs ≡ token ∷ tokens) × (ys ≡ token ∷ tokens)
  shown_sound [] ys same = absurd (cc (same))
  shown_sound (x ∷ xs) ys same = (x, xs, refl, sym (same_sequence_sound (x ∷ xs) ys same))

  module _ (path id : String) (selector : Option String) (p : Presented) (d : Drive Profile Binding)
      (names : resolve_face_id s selector ≡ ok id)
      (held : (require_bound_object s path selector p d).0 ≡ ok tt) where
    abbrev asked : Presented
    asked = record p { no_object_binding = false }

    by_profile :
        (b : Binding) (candidate : Option (Binding ⊎ Candidate)) (c : Candidate)
        → get_face_binding_record s path id d ≡ some b
        → str_eq (s.services.source_type b) "" ≡ false
        → candidate_binding_profile s asked ≡ ok candidate
        → taken s candidate ≡ ok (inr c)
        → (str_eq (s.services.source_type b) "disabled" ≡ false)
          × (s.services.matches b c (p.camera_object || no_image s p.object_image_path) ≡ true)
    unfolding require_bound_object ensure_object_binding binding_registered
    by_profile b candidate c at named profile is =
        ground (arith, held, names, at, named, profile, is)

    some_profile :
        (b : Binding) (e : Failure)
        → get_face_binding_record s path id d ≡ some b
        → str_eq (s.services.source_type b) "" ≡ false
        → candidate_binding_profile s asked ≡ err e
        → ⊥
    unfolding require_bound_object ensure_object_binding binding_registered
    some_profile b e at named failed = ground (arith, held, names, at, named, failed)

    camera_sees :
        (b : Binding) (e : Failure)
        → get_face_binding_record s path id d ≡ some b
        → str_eq (s.services.source_type b) "" ≡ false
        → candidate_binding_profile s asked ≡ ok none
        → s.services.capture_camera_profile ≡ err e
        → ⊥
    unfolding require_bound_object ensure_object_binding binding_registered
    camera_sees b e at named profile failed =
        ground (arith, held, names, at, named, profile, failed)

    from_image :
        (image : String) (r : Result Failure Candidate)
        → p.object_image_path ≡ some image
        → s.services.profile_from_image_path image ≡ r
        → candidate_binding_profile s asked ≡ profiled s r
    unfolding candidate_binding_profile
    from_image image r h k = ground (arith, h, k)

    from_camera :
        (r : Result Failure Candidate)
        → p.object_image_path ≡ none
        → p.camera_object ≡ true
        → s.services.capture_camera_profile ≡ r
        → candidate_binding_profile s asked ≡ profiled s r
    unfolding candidate_binding_profile
    from_camera r h k l = ground (arith, h, k, l)

    from_nothing :
        p.object_image_path ≡ none
        → p.camera_object ≡ false
        → candidate_binding_profile s asked ≡ ok none
    unfolding candidate_binding_profile
    from_nothing h k = ground (arith, h, k)

    by_camera :
        (b : Binding)
        → get_face_binding_record s path id d ≡ some b
        → str_eq (s.services.source_type b) "" ≡ false
        → p.object_image_path ≡ none
        → HoldsObject path id selector p d
    by_camera b at named no_path = elim (Result-cases s.services.capture_camera_profile) [
      | inl (c, sees) ↦
          let (enabled, is) =
            elim (Bool-cases p.camera_object)
              as (λ _.
                (str_eq (s.services.source_type b) "disabled" ≡ false)
                × (s.services.matches b c (p.camera_object || no_image s p.object_image_path)
                    ≡ true)) [
                      | inl asks ↦
                          by_profile b (some (inr c)) c at named
                            (from_camera (ok c) no_path asks sees) refl
                      | inr asks ↦
                          by_profile b none c at named (from_nothing no_path asks)
                            (ground (arith, sees))
                    ] in
          matched b c at named enabled (inr (no_path, sees)) is
      | inr (e, fails) ↦ elim (Bool-cases p.camera_object) [
        | inl asks ↦ absurd (some_profile b e at named (from_camera (err e) no_path asks fails))
        | inr asks ↦ absurd (camera_sees b e at named (from_nothing no_path asks) fails)
      ]
    ]

    bound :
        (b : Binding)
        → get_face_binding_record s path id d ≡ some b
        → str_eq (s.services.source_type b) "" ≡ false
        → HoldsObject path id selector p d
    bound b at named = elim (Option-cases p.object_image_path) [
      | inl no_path ↦ by_camera b at named no_path
      | inr (image, there) ↦ elim (Result-cases (s.services.profile_from_image_path image)) [
        | inl (c, sees) ↦
            let (enabled, is) =
              by_profile b (some (inr c)) c at named (from_image image (ok c) there sees) refl in
            matched b c at named enabled (inl (image, there, sees)) is
        | inr (e, fails) ↦ absurd (some_profile b e at named (from_image image (err e) there fails))
      ]
    ]

    unbound_mode :
        (r : Result Failure String)
        → binding_registered s (get_face_binding_record s path id d) ≡ false
        → resolve_mode s selector ≡ r
        → (mode : String) × (resolve_mode s selector ≡ ok mode)
          × (shown s s.services.auth_sequence (s.services.short_sequence_for_mode mode) ≡ true)
    unfolding require_bound_object
    unbound_mode (ok mode) free is = (mode, is, ground (arith, held, names, free, is))
    unbound_mode (err e) free fails = absurd (ground (arith, held, names, free, fails))

    unbound :
        binding_registered s (get_face_binding_record s path id d) ≡ false
        → HoldsObject path id selector p d
    unbound free =
        let (mode, is, same) = unbound_mode (resolve_mode s selector) free refl in
        let (token, tokens, seen, expected) =
          shown_sound s.services.auth_sequence (s.services.short_sequence_for_mode mode) same in
        recognized mode token tokens free is seen expected

    registered_false :
        (b : Binding)
        → get_face_binding_record s path id d ≡ some b
        → str_eq (s.services.source_type b) "" ≡ true
        → binding_registered s (get_face_binding_record s path id d) ≡ false
    unfolding binding_registered
    registered_false b at is = ground (arith, at, is)

    registered_none :
        get_face_binding_record s path id d ≡ none
        → binding_registered s (get_face_binding_record s path id d) ≡ false
    unfolding binding_registered
    registered_none at = ground (arith, at)

    pub require-HoldsObject : HoldsObject path id selector p d
    require-HoldsObject = elim (Option-cases (get_face_binding_record s path id d)) [
      | inl at ↦ unbound (registered_none at)
      | inr (b, at) ↦ elim (Bool-cases (str_eq (s.services.source_type b) "")) [
        | inl unnamed ↦ unbound (registered_false b at unnamed)
        | inr named ↦ bound b at named
      ]
    ]
