-- ===== src/VesselRegistry/Operations.antt =====
-- services/vessel_service.py: the calls of VesselService that change the registry, and what each of them
-- keeps.
use phantasm.Base.{
  ◌≡◌, refl, sym, ap, String, Bool, true, false, not, Option, none, some, List, [], ◌∷◌, ◌++◌,
  arith, inl, inr, eq_iff, str_eq, Option-cases, Bool-cases,
}
use mathlib.Core.Path.{subst}
use phantasm.Base.Find.{
  find_first, change_first, filter, find_first-append, find_first-change_first_absent,
  find_first-filter_absent, change_first_here, change_first_later, filter_here, filter_later,
}
use phantasm.VesselRegistry.{
  Face, VesselRecord, Defaults, Change, Access, Registry, has_id, is_at, normalize_faces,
  register_vessel, unregister_vessel, update_registry_record, create_face, update_face_access,
  open_vessel, close_vessel, changed, record_at, new_record, nothing_changed, touched, with_face,
  access_found, access_change, accessed,
}
use phantasm.VesselRegistry.Faces.{IsComplete, normalize_faces-IsComplete, default_faces-IsComplete}

-- The calls, each with what it is given
pub data Operation (Profile Binding : Type 0) : Type 0 where
  register : String → Operation Profile Binding
  unregister : String → Operation Profile Binding
  update : String → Change Profile Binding → Operation Profile Binding
  name_face : String → String → String → String → Operation Profile Binding
  touch : String → String → Access Profile Binding → Operation Profile Binding
  open_face : String → String → Operation Profile Binding
  close_face : String → Operation Profile Binding

module _ {Profile Binding : Type 0} where
  -- Every vessel has both faces and no nameless one, and no path is there twice.
  abbrev pub IsSound : Registry Profile Binding → Type 0
  IsSound [] = Unit {0}
  IsSound (r ∷ registry) =
      IsComplete r.faces × (find_first (is_at r.path) registry ≡ none) × IsSound registry

module _ {Profile Binding : Type 0} (defaults : Defaults Profile Binding) (now : String) where
  unfoldable pub run :
      Operation Profile Binding → Registry Profile Binding → Registry Profile Binding
  run (register path) registry = register_vessel defaults now path registry
  run (unregister path) registry = (unregister_vessel path registry).1
  run (update path c) registry = (update_registry_record defaults now path c registry).1
  run (name_face path id label selector) registry =
      (create_face defaults now path id label selector registry).1
  run (touch path id a) registry = (update_face_access defaults now path id a registry).1
  run (open_face path id) registry = (open_vessel defaults now path id registry).1
  run (close_face path) registry = (close_vessel defaults now path registry).1

  append-IsSound :
      (path : String) (registry : Registry Profile Binding)
      → find_first (is_at path) registry ≡ none
      → IsSound registry
      → IsSound (registry ++ (new_record defaults now path ∷ []))
  unfolding find_first
  append-IsSound path [] absent sound = (default_faces-IsComplete defaults now, refl, tt)
  append-IsSound path (r ∷ registry) absent (complete, apart, sound) = (
    complete,
    ground (
      arith,
      find_first-append (is_at r.path) registry (new_record defaults now path ∷ []) apart,
      eq_iff path r.path,
      eq_iff r.path path,
    ),
    append-IsSound path registry (ground arith) sound,
  )

  pub register_vessel_new :
      (path : String) (registry : Registry Profile Binding)
      → find_first (is_at path) registry ≡ none
      → register_vessel defaults now path registry ≡ registry ++ (new_record defaults now path ∷ [])
  unfolding register_vessel
  register_vessel_new path registry h = ground (arith, h)

  pub register_vessel_known :
      (path : String) (registry : Registry Profile Binding) (r : VesselRecord Profile Binding)
      → find_first (is_at path) registry ≡ some r
      → register_vessel defaults now path registry ≡ registry
  unfolding register_vessel
  register_vessel_known path registry r h = ground (arith, h)

  register_vessel-IsSound :
      (path : String) (registry : Registry Profile Binding)
      → IsSound registry
      → IsSound (register_vessel defaults now path registry)
  register_vessel-IsSound path registry sound =
      elim (Option-cases (find_first (is_at path) registry)) [
        | inl h ↦
            subst IsSound (sym (register_vessel_new path registry h))
              (append-IsSound path registry h sound)
        | inr (r, h) ↦ subst IsSound (sym (register_vessel_known path registry r h)) sound
      ]

  pub changed_path :
      (c : Change Profile Binding) (r : VesselRecord Profile Binding)
      → (changed defaults now c r).path ≡ r.path
  changed_path c r = ground arith

  pub changed_faces_kept :
      (c : Change Profile Binding) (r : VesselRecord Profile Binding)
      → c.faces ≡ none
      → (changed defaults now c r).faces ≡ r.faces
  changed_faces_kept c r h = ground (arith, h)

  pub changed_faces_given :
      (c : Change Profile Binding) (r : VesselRecord Profile Binding)
      (faces : List (Face Profile Binding))
      → c.faces ≡ some faces
      → (changed defaults now c r).faces ≡ normalize_faces defaults now faces
  changed_faces_given c r faces h = ground (arith, h)

  changed-IsComplete :
      (c : Change Profile Binding) (r : VesselRecord Profile Binding)
      → IsComplete r.faces
      → IsComplete (changed defaults now c r).faces
  changed-IsComplete c r complete = elim (Option-cases c.faces) [
    | inl h ↦ subst IsComplete (sym (changed_faces_kept c r h)) complete
    | inr (faces, h) ↦
        subst IsComplete (sym (changed_faces_given c r faces h))
          (normalize_faces-IsComplete defaults now faces)
  ]

  change_first-IsSound :
      (path : String) (c : Change Profile Binding) (registry : Registry Profile Binding)
      → IsSound registry
      → IsSound (change_first (is_at path) (changed defaults now c) registry)
  unfolding change_first
  change_first-IsSound path c [] sound = tt
  change_first-IsSound path c (r ∷ registry) (complete, apart, sound) =
      elim (Bool-cases (is_at path r)) [
        | inl h ↦
            subst IsSound
              (sym (change_first_here (is_at path) (changed defaults now c) r registry h))
              (changed-IsComplete c r complete, rw (changed_path c r) apart, sound)
        | inr h ↦
            subst IsSound
              (sym (change_first_later (is_at path) (changed defaults now c) r registry h))
              (
                complete,
                find_first-change_first_absent (is_at path) (is_at r.path) (changed defaults now c)
                    (λ x. ap (λ q. str_eq q r.path) (changed_path c x)) registry apart,
                change_first-IsSound path c registry sound,
              )
      ]

  update_registry_record-IsSound :
      (path : String) (c : Change Profile Binding) (registry : Registry Profile Binding)
      → IsSound registry
      → IsSound (update_registry_record defaults now path c registry).1
  unfolding update_registry_record
  update_registry_record-IsSound path c registry sound =
      change_first-IsSound path c _ (register_vessel-IsSound path registry sound)

  create_face-IsSound :
      (path id label selector : String) (registry : Registry Profile Binding)
      → IsSound registry
      → IsSound (create_face defaults now path id label selector registry).1
  unfolding create_face
  create_face-IsSound path id label selector registry sound =
      update_registry_record-IsSound path
        (record nothing_changed {
          faces = some (
              with_face defaults now id label selector (
                normalize_faces defaults now
                  (changed defaults now nothing_changed
                    (record_at defaults now path registry)).faces));
        })
        _ (update_registry_record-IsSound path nothing_changed registry sound)

  access_found-IsSound :
      (path id : String) (a : Access Profile Binding) (faces : List (Face Profile Binding))
      (found : Option (Face Profile Binding)) (registry : Registry Profile Binding)
      → IsSound registry
      → IsSound (access_found defaults now path id a faces found registry).1
  access_found-IsSound path id a faces none registry sound = sound
  access_found-IsSound path id a faces (some f) registry sound =
      update_registry_record-IsSound path
        (access_change defaults now id a (change_first (has_id id) (accessed defaults now a) faces))
        registry sound

  pub update_face_access-IsSound :
      (path id : String) (a : Access Profile Binding) (registry : Registry Profile Binding)
      → IsSound registry
      → IsSound (update_face_access defaults now path id a registry).1
  unfolding update_face_access
  update_face_access-IsSound path id a registry sound =
      access_found-IsSound path id a _ _ _
        (update_registry_record-IsSound path nothing_changed registry sound)

  filter-IsSound :
      (p : VesselRecord Profile Binding → Bool) (registry : Registry Profile Binding)
      → IsSound registry
      → IsSound (filter p registry)
  unfolding filter
  filter-IsSound p [] sound = tt
  filter-IsSound p (r ∷ registry) (complete, apart, sound) =
      let rest = filter-IsSound p registry sound in
      elim (Bool-cases (p r)) [
        | inl h ↦
            subst IsSound (sym (filter_here p r registry h))
              (complete, find_first-filter_absent p (is_at r.path) registry apart, rest)
        | inr h ↦ subst IsSound (sym (filter_later p r registry h)) rest
      ]

  unregister_vessel-IsSound :
      (path : String) (registry : Registry Profile Binding)
      → IsSound registry
      → IsSound (unregister_vessel path registry).1
  unfolding unregister_vessel
  unregister_vessel-IsSound path registry sound =
      elim (find_first (is_at path) registry)
        as (λ o.
          IsSound
            (elim o as (λ _. Bool × Registry Profile Binding) [
              | none ↦ (false, registry)
              | some r ↦ (true, filter (λ r. not (is_at path r)) registry)
            ]).1) [ none ↦ sound | some r ↦ filter-IsSound _ registry sound ]

  close_vessel-IsSound :
      (path : String) (registry : Registry Profile Binding)
      → IsSound registry
      → IsSound (close_vessel defaults now path registry).1
  unfolding close_vessel
  close_vessel-IsSound path registry sound =
      update_face_access-IsSound path _ (record touched { closed = true }) _
        (update_registry_record-IsSound path nothing_changed registry sound)

  -- A call keeps a sound registry sound.
  pub run-IsSound :
      (o : Operation Profile Binding) (registry : Registry Profile Binding)
      → IsSound registry
      → IsSound (run o registry)
  unfolding run open_vessel
  run-IsSound (register path) registry sound = register_vessel-IsSound path registry sound
  run-IsSound (unregister path) registry sound = unregister_vessel-IsSound path registry sound
  run-IsSound (update path c) registry sound = update_registry_record-IsSound path c registry sound
  run-IsSound (name_face path id label selector) registry sound =
      create_face-IsSound path id label selector registry sound
  run-IsSound (touch path id a) registry sound = update_face_access-IsSound path id a registry sound
  run-IsSound (open_face path id) registry sound =
      update_face_access-IsSound path id (record touched { opened = true }) registry sound
  run-IsSound (close_face path) registry sound = close_vessel-IsSound path registry sound

  abbrev pub run_all :
      List (Operation Profile Binding) → Registry Profile Binding → Registry Profile Binding
  run_all [] registry = registry
  run_all (o ∷ os) registry = run_all os (run o registry)

  -- Whatever calls are made on a sound registry, it is sound after them: every vessel has both of its faces, no face is
  -- without an id, and no path is there twice.
  pub run_all-IsSound :
      (os : List (Operation Profile Binding)) (registry : Registry Profile Binding)
      → IsSound registry
      → IsSound (run_all os registry)
  run_all-IsSound [] registry sound = sound
  run_all-IsSound (o ∷ os) registry sound =
      run_all-IsSound os (run o registry) (run-IsSound o registry sound)
