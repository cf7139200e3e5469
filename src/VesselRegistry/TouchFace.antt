-- ===== src/VesselRegistry/TouchFace.antt =====
-- services/vessel_service.py: what a call of `update_face_access` leaves in the registry, for the face that it
-- is for and for all others.
use phantasm.Base.{
  ◌≡◌, refl, sym, ap, ◌∙◌, String, true, false, Option, none, some, List, [], ◌∷◌, arith, inl, inr,
  eq_iff, eq_refl, str_eq, Option-cases, Bool-cases, if◌then◌else◌,
}
use mathlib.Core.Path.{subst}
use phantasm.Base.Except.{ok}
use phantasm.Base.Find.{
  find_first, change_first, find_first_sound, find_first-append, find_first-append_none,
  find_first-change_first, find_first-change_first_other,
}
use phantasm.VesselRegistry.{
  Face, VesselRecord, Defaults, Change, Access, Registry, has_id, is_at, register_vessel,
  update_registry_record, update_face_access, get_vessel_record, get_face_state_record, changed,
  record_at, new_record, nothing_changed, access_found, access_change, accessed,
}
use phantasm.VesselRegistry.Faces.{
  IsComplete, normalize_faces_id, change_first-IsComplete, find_first-changed,
  default_faces-IsComplete,
}
use phantasm.VesselRegistry.Operations.{
  IsSound, register_vessel_new, register_vessel_known, changed_path, changed_faces_given,
}

module _ {Profile Binding : Type 0} (defaults : Defaults Profile Binding) (now : String) where
  pub find-register :
      (path : String) (registry : Registry Profile Binding)
      → find_first (is_at path) (register_vessel defaults now path registry)
        ≡ some (record_at defaults now path registry)
  unfolding find_first
  find-register path registry = elim (Option-cases (find_first (is_at path) registry)) [
    | inl h ↦ ground (
      arith,
      h,
      register_vessel_new defaults now path registry h,
      find_first-append (is_at path) registry (new_record defaults now path ∷ []) h,
      eq_refl path,
    )
    | inr (r, h) ↦ ground (arith, h, register_vessel_known defaults now path registry r h)
  ]

  -- The record of a path after an update is the changed one.
  pub find-update :
      (path : String) (c : Change Profile Binding) (registry : Registry Profile Binding)
      → find_first (is_at path) (update_registry_record defaults now path c registry).1
        ≡ some (changed defaults now c (record_at defaults now path registry))
  unfolding update_registry_record
  find-update path c registry =
      let found = find-register path registry in
      find_first-change_first (is_at path) (changed defaults now c) _ _ found (
        ap (λ q. str_eq q path) (changed_path defaults now c (record_at defaults now path registry))
        ∙ find_first_sound (is_at path) _ _ found)

  register_other :
      (path other : String) (registry : Registry Profile Binding)
      → str_eq path other ≡ false
      → find_first (is_at other) (register_vessel defaults now path registry)
        ≡ find_first (is_at other) registry
  unfolding find_first
  register_other path other registry apart =
      elim (Option-cases (find_first (is_at path) registry)) [
        | inl h ↦
            ap (find_first (is_at other)) (register_vessel_new defaults now path registry h)
            ∙ find_first-append_none (is_at other) registry _ (ground (arith, apart))
        | inr (r, h) ↦
            ap (find_first (is_at other)) (register_vessel_known defaults now path registry r h)
      ]

  -- and that of another path is what it was.
  pub find-update_other :
      (path other : String) (c : Change Profile Binding) (registry : Registry Profile Binding)
      → str_eq path other ≡ false
      → find_first (is_at other) (update_registry_record defaults now path c registry).1
        ≡ find_first (is_at other) registry
  unfolding update_registry_record
  find-update_other path other c registry apart =
      let elsewhere : (r : VesselRecord Profile Binding)
          → is_at path r ≡ true
          → is_at other r ≡ false =
        λ r h.
          ground (arith, apart, h, eq_iff r.path path, eq_iff r.path other, eq_iff path other) in
      find_first-change_first_other (is_at path) (is_at other) (changed defaults now c) elsewhere
        (λ r h. ap (λ q. str_eq q other) (changed_path defaults now c r) ∙ elsewhere r h) _
      ∙ register_other path other registry apart

  sound_at :
      (path : String) (registry : Registry Profile Binding) (r : VesselRecord Profile Binding)
      → IsSound registry
      → find_first (is_at path) registry ≡ some r
      → IsComplete r.faces
  unfolding find_first
  sound_at path [] r sound h = cc
  sound_at path (x ∷ registry) r (complete, _, sound) h = elim (Bool-cases (is_at path x)) [
    | inl t ↦
        subst (λ (y : VesselRecord Profile Binding). IsComplete y.faces) {x = x} {y = r}
          (ground (arith, t, h)) complete
    | inr t ↦ sound_at path registry r sound (ground (arith, t, h))
  ]

  record_new :
      (path : String) (registry : Registry Profile Binding)
      → find_first (is_at path) registry ≡ none
      → record_at defaults now path registry ≡ new_record defaults now path
  record_new path registry h = ground (arith, h)

  record_known :
      (path : String) (registry : Registry Profile Binding) (r : VesselRecord Profile Binding)
      → find_first (is_at path) registry ≡ some r
      → record_at defaults now path registry ≡ r
  record_known path registry r h = ground (arith, h)

  pub faces_at :
      (path j : String) (registry : Registry Profile Binding) (r : VesselRecord Profile Binding)
      → find_first (is_at path) registry ≡ some r
      → get_face_state_record path j registry ≡ find_first (has_id j) r.faces
  unfolding get_face_state_record get_vessel_record
  faces_at path j registry r h = ground (arith, h)

  access_found_other :
      (path other id : String) (a : Access Profile Binding) (faces : List (Face Profile Binding))
      (found : Option (Face Profile Binding)) (registry : Registry Profile Binding)
      → str_eq path other ≡ false
      → find_first (is_at other) (access_found defaults now path id a faces found registry).1
        ≡ find_first (is_at other) registry
  access_found_other path other id a faces none registry apart = refl
  access_found_other path other id a faces (some f) registry apart =
      find-update_other path other
        (access_change defaults now id a (change_first (has_id id) (accessed defaults now a) faces))
        registry apart

  pub record_at-IsComplete :
      (path : String) (registry : Registry Profile Binding)
      → IsSound registry
      → IsComplete (record_at defaults now path registry).faces
  record_at-IsComplete path registry sound =
      elim (Option-cases (find_first (is_at path) registry)) [
        | inl h ↦
            subst (λ (r : VesselRecord Profile Binding). IsComplete r.faces)
              {y = record_at defaults now path registry} (sym (record_new path registry h))
              (default_faces-IsComplete defaults now)
        | inr (r, h) ↦
            subst (λ (r : VesselRecord Profile Binding). IsComplete r.faces)
              {y = record_at defaults now path registry} (sym (record_known path registry r h))
              (sound_at path registry r sound h)
      ]

  access_change_faces :
      (id : String) (a : Access Profile Binding) (faces : List (Face Profile Binding))
      → (access_change defaults now id a faces).faces ≡ some faces
  access_change_faces id a faces = ground arith

  accessed_id :
      (a : Access Profile Binding) (f : Face Profile Binding)
      → (accessed defaults now a f).face_id ≡ f.face_id
  accessed_id a f = ground arith

  -- The two updates of a call for a face that is there.
  pub update_face_access_runs :
      (path id : String) (a : Access Profile Binding) (registry : Registry Profile Binding)
      (f : Face Profile Binding)
      → IsSound registry
      → find_first (has_id id) (record_at defaults now path registry).faces ≡ some f
      → update_face_access defaults now path id a registry
        ≡ update_registry_record defaults now path
            (access_change defaults now id a (
              change_first
                (has_id id)
                (accessed defaults now a)
                (record_at defaults now path registry).faces))
            (update_registry_record defaults now path nothing_changed registry).1
  unfolding update_face_access update_registry_record
  update_face_access_runs path id a registry f sound found =
      let seen = (update_registry_record defaults now path nothing_changed registry).1 in
      let faces = (record_at defaults now path registry).faces in
      ap (λ fs. access_found defaults now path id a fs (find_first (has_id id) fs) seen)
        (normalize_faces_id defaults now _ (record_at-IsComplete path registry sound))
      ∙ ap (λ o. access_found defaults now path id a faces o seen) found

  pub get_face_state_record-update_face_access :
      (path id j : String) (a : Access Profile Binding) (registry : Registry Profile Binding)
      (f g : Face Profile Binding)
      → IsSound registry
      → find_first (has_id id) (record_at defaults now path registry).faces ≡ some f
      → find_first (has_id j) (record_at defaults now path registry).faces ≡ some g
      → get_face_state_record path j (update_face_access defaults now path id a registry).1
        ≡ some (if str_eq id j then accessed defaults now a g else g)
  get_face_state_record-update_face_access path id j a registry f g sound found other =
      let before = record_at defaults now path registry in
      let faces = change_first (has_id id) (accessed defaults now a) before.faces in
      let c = access_change defaults now id a faces in
      let seen = (update_registry_record defaults now path nothing_changed registry).1 in
      let last = record_at defaults now path seen in
      let at_path : find_first (is_at path) (update_face_access defaults now path id a registry).1
          ≡ some (changed defaults now c last) =
        ap (λ r. find_first (is_at path) r.1)
          (update_face_access_runs path id a registry f sound found)
        ∙ find-update path c seen in
      let all_faces : (changed defaults now c last).faces ≡ faces =
        changed_faces_given defaults now c last faces (access_change_faces id a faces)
        ∙ normalize_faces_id defaults now faces (
            change_first-IsComplete id (accessed defaults now a) (accessed_id a) before.faces
              (record_at-IsComplete path registry sound)) in
      faces_at path j _ (changed defaults now c last) at_path
      ∙ (ap (find_first (has_id j)) all_faces
          ∙ find_first-changed id j (accessed defaults now a) (accessed_id a) before.faces g other)

  -- A call for a face of one vessel leaves the record of every other vessel as it is.
  pub get_vessel_record-update_face_access :
      (path other id : String) (a : Access Profile Binding) (registry : Registry Profile Binding)
      → str_eq path other ≡ false
      → get_vessel_record other (update_face_access defaults now path id a registry).1
        ≡ get_vessel_record other registry
  unfolding get_vessel_record update_face_access
  get_vessel_record-update_face_access path other id a registry apart =
      access_found_other path other id a _ _ _ apart
      ∙ find-update_other path other nothing_changed registry apart

  -- A face that every vessel has is found, so a call for it returns.
  pub update_face_access_returns :
      (path id : String) (a : Access Profile Binding) (registry : Registry Profile Binding)
      (f : Face Profile Binding)
      → IsSound registry
      → find_first (has_id id) (record_at defaults now path registry).faces ≡ some f
      → (r : VesselRecord Profile Binding) × ((update_face_access defaults now path id a registry).0
          ≡ ok r)
  unfolding update_registry_record
  update_face_access_returns path id a registry f sound found =
      (_, ap (λ r. r.0) (update_face_access_runs path id a registry f sound found))

  accessed_status :
      (a : Access Profile Binding) (s : Option String) (f : Face Profile Binding)
      → accessed defaults now (record a { status = s }) f ≡ accessed defaults now a f
  accessed_status a s f = elim (Bool-cases a.opened) [
    | inl o ↦ ground (arith, o)
    | inr o ↦ elim (Bool-cases a.closed) [
      | inl c ↦ ground (arith, o, c)
      | inr c ↦ ground (arith, o, c)
    ]
  ]
