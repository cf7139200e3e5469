-- ===== src/VesselRegistry/Accessed.antt =====
-- services/vessel_service.py: what a call of `update_face_access` makes of the face that it is for, argument by argument.
-- The faces are told by their ids, as they are when the registry is stored and merged with its seal again.
use phantasm.Base.{
  ◌≡◌, refl, ap, ◌∙◌, String, false, not, ◌||◌, none, some, List, [], ◌∷◌, arith, str_eq, eq_iff,
  eq_refl, Bool-cases, inl, inr, if◌then◌else◌,
}
use mathlib.Core.List.{Memᴰ}
use mathlib.Core.List.Memᴰ.{head, tail}
use mathlib.Core.Path.{subst}
use phantasm.Base.Int.{pos, ltb_ℤ}
use phantasm.Base.Find.{find_first}
use phantasm.VesselRegistry.{
  Face, Defaults, Access, Registry, has_id, update_face_access, get_face_state_record, record_at,
  given, accessed,
}
use phantasm.VesselRegistry.Operations.{IsSound}
use phantasm.VesselRegistry.TouchFace.{get_face_state_record-update_face_access}

module _ {Profile Binding : Type 0} where
  -- No two faces have one id.
  abbrev pub Distinct : List (Face Profile Binding) → Type 0
  Distinct [] = Unit
  Distinct (f ∷ fs) = (find_first (has_id f.face_id) fs ≡ none) × Distinct fs

  found_later :
      (x f : Face Profile Binding) (fs : List (Face Profile Binding))
      → find_first (has_id x.face_id) fs ≡ none
      → find_first (has_id f.face_id) fs ≡ some f
      → str_eq x.face_id f.face_id ≡ false
  found_later x f fs absent there = elim (Bool-cases (str_eq x.face_id f.face_id)) [
    | inr apart ↦ apart
    | inl same ↦
        let at : find_first (has_id x.face_id) fs ≡ find_first (has_id f.face_id) fs =
          ap (λ id. find_first (has_id id) fs) ((eq_iff x.face_id f.face_id).0 same) in
        cc (at, absent, there)
  ]

  pub find_first-Memᴰ :
      (f : Face Profile Binding) (faces : List (Face Profile Binding))
      → Distinct faces
      → Memᴰ f faces
      → find_first (has_id f.face_id) faces ≡ some f
  unfolding find_first
  find_first-Memᴰ f [] distinct there = elim there [ ]
  find_first-Memᴰ f (x ∷ faces) distinct (head same) =
      subst (λ y. find_first (has_id f.face_id) (y ∷ faces) ≡ some f) {x = f} {y = x} same
        (rw (eq_refl f.face_id) refl)
  find_first-Memᴰ f (x ∷ faces) (absent, distinct) (tail there) =
      let later = find_first-Memᴰ f faces distinct there in
      rw (found_later x f faces absent later) later

  -- What the arguments of a call and the clock make of a face
  pub record IsAccessed (now : String) (a : Access Profile Binding)
      (before after : Face Profile Binding) : Type 0 where
    pub same_id : after.face_id ≡ before.face_id
    pub same_label : after.label ≡ before.label
    pub same_selector : after.selector ≡ before.selector
    pub same_creation : after.created_at ≡ before.created_at
    pub occupancy : after.occupancy ≡ given a.occupancy before.occupancy
    pub file_count : after.file_count ≡ given a.file_count before.file_count
    pub dummy_profile : after.dummy_profile ≡ given a.dummy_profile before.dummy_profile
    pub object_binding : after.object_binding ≡ given a.object_binding before.object_binding
    pub emergency_auth : after.emergency_auth ≡ given a.emergency_auth before.emergency_auth
    pub credentials_initialized :
        after.credentials_initialized
        ≡ given a.credentials_initialized before.credentials_initialized
    pub object_binding_initialized :
        after.object_binding_initialized
        ≡ given a.object_binding_initialized before.object_binding_initialized
    pub status : after.status ≡ (
        if a.opened
        then "open"
        else if ltb_ℤ (pos 0) after.file_count
        then "occupied"
        else "available")
    pub last_accessed :
        after.last_accessed ≡ (if a.opened || not a.closed then now else before.last_accessed)

  accessed-IsAccessed :
      (defaults : Defaults Profile Binding) (now : String) (a : Access Profile Binding)
      (f : Face Profile Binding)
      → IsAccessed now a f (accessed defaults now a f)
  accessed-IsAccessed defaults now a f = record {
    same_id = ground arith;
    same_label = ground arith;
    same_selector = ground arith;
    same_creation = ground arith;
    occupancy = ground arith;
    file_count = ground arith;
    dummy_profile = ground arith;
    object_binding = ground arith;
    emergency_auth = ground arith;
    credentials_initialized = ground arith;
    object_binding_initialized = ground arith;
    status = ground arith;
    last_accessed = ground arith;
  }

  -- In a sound registry where no two faces of a vessel have one id, after a call for one face of the vessel: the
  -- occupancy, the number of files, the profile, the object binding, the destroy passphrase, and the marks that credentials
  -- and a binding are set up, of the face are those of the arguments that were given, and what they were for the others; its id, label, selector and
  -- time of creation are what they were; its status is open where it was opened, and else tells whether it holds files;
  -- its time of access is the clock's, unless the call only closed it; and any other face of the vessel is what it was.
  pub update_face_access-IsAccessed :
      (defaults : Defaults Profile Binding) (now path : String) (a : Access Profile Binding)
      (registry : Registry Profile Binding) (f g : Face Profile Binding)
      → IsSound registry
      → Distinct (record_at defaults now path registry).faces
      → Memᴰ f (record_at defaults now path registry).faces
      → Memᴰ g (record_at defaults now path registry).faces
      → str_eq f.face_id g.face_id ≡ false
      → (h : Face Profile Binding) × (get_face_state_record path f.face_id
            (update_face_access defaults now path f.face_id a registry).1
          ≡ some h)
        × IsAccessed now a f h
        × (get_face_state_record path g.face_id
              (update_face_access defaults now path f.face_id a registry).1
            ≡ some g)
  update_face_access-IsAccessed defaults now path a registry f g sound distinct here there apart =
      let faces = (record_at defaults now path registry).faces in
      let at_f = find_first-Memᴰ f faces distinct here in
      let at_g = find_first-Memᴰ g faces distinct there in
      (
        accessed defaults now a f,
        get_face_state_record-update_face_access defaults now path f.face_id f.face_id a registry f
              f sound at_f at_f
            ∙ ap (λ b. some (if b then accessed defaults now a f else f)) (eq_refl f.face_id),
        accessed-IsAccessed defaults now a f,
        get_face_state_record-update_face_access defaults now path f.face_id g.face_id a registry f
              g sound at_f at_g
            ∙ ap (λ b. some (if b then accessed defaults now a g else g)) apart,
      )
