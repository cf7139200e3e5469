-- ===== src/VesselRegistry/Faces.antt =====
-- services/vessel_service.py: the faces of a vessel after `_normalize_faces`.
use phantasm.Base.{
  ◌≡◌, refl, ap, String, true, not, some, List, [], ◌∷◌, ◌++◌, append-nil, arith, inl, inr, eq_iff,
  Option-cases, str_eq, if◌then◌else◌,
}
use phantasm.Base.Find.{
  find_first, change_first, filter, all, filter_whole, all-filter, all-append, all-change_first,
  find_first-append, find_first-append_found,
}
use phantasm.VesselRegistry.{
  Face, Defaults, has_id, is_named, normalize_faces, add_missing, default_face_specs,
  default_face_record, default_faces,
}

module _ {Profile Binding : Type 0} where
  -- No face is without an id, and the two faces that every vessel has are there.
  pub record IsComplete (faces : List (Face Profile Binding)) : Type 0 where
    pub all_named : all is_named faces ≡ true
    pub has_a : (f : Face Profile Binding) × (find_first (has_id "face_a") faces ≡ some f)
    pub has_b : (f : Face Profile Binding) × (find_first (has_id "face_b") faces ≡ some f)

  pub normalize_faces_id :
      (defaults : Defaults Profile Binding) (now : String) (faces : List (Face Profile Binding))
      → IsComplete faces
      → normalize_faces defaults now faces ≡ faces
  unfolding normalize_faces
  normalize_faces_id defaults now faces c =
      ground
        (arith, filter_whole is_named faces c.all_named, c.has_a.1, c.has_b.1, append-nil faces)

  add_missing_named :
      (defaults : Defaults Profile Binding) (now : String) (faces : List (Face Profile Binding))
      → all is_named (add_missing defaults now default_face_specs faces) ≡ true
  unfolding all
  add_missing_named defaults now faces = elim (Option-cases (find_first (has_id "face_a") faces)) [
    | inl a ↦ elim (Option-cases (find_first (has_id "face_b") faces)) [
      | inl b ↦ ground (arith, a, b)
      | inr (g, b) ↦ ground (arith, a, b)
    ]
    | inr (f, a) ↦ elim (Option-cases (find_first (has_id "face_b") faces)) [
      | inl b ↦ ground (arith, a, b)
      | inr (g, b) ↦ ground (arith, a, b)
    ]
  ]

  found_a :
      (defaults : Defaults Profile Binding) (now : String) (faces : List (Face Profile Binding))
      → (f : Face Profile Binding) × (find_first
            (has_id "face_a")
            (faces ++ add_missing defaults now default_face_specs faces)
          ≡ some f)
  unfolding find_first
  found_a defaults now faces = elim (Option-cases (find_first (has_id "face_a") faces)) [
    | inl a ↦ (
      default_face_record defaults now "face_a" "Disclosure Face 1" "a",
      ground (
        arith,
        a,
        find_first-append (has_id "face_a") faces
            (add_missing defaults now default_face_specs faces) a,
      ),
    )
    | inr (f, a) ↦ (f, find_first-append_found (has_id "face_a") faces _ f a)
  ]

  found_b :
      (defaults : Defaults Profile Binding) (now : String) (faces : List (Face Profile Binding))
      → (f : Face Profile Binding) × (find_first
            (has_id "face_b")
            (faces ++ add_missing defaults now default_face_specs faces)
          ≡ some f)
  unfolding find_first
  found_b defaults now faces =
      let skip =
        find_first-append (has_id "face_b") faces
          (add_missing defaults now default_face_specs faces) in
      elim (Option-cases (find_first (has_id "face_b") faces)) [
        | inr (f, b) ↦ (f, find_first-append_found (has_id "face_b") faces _ f b)
        | inl b ↦ (
          default_face_record defaults now "face_b" "Disclosure Face 2" "b",
          elim (Option-cases (find_first (has_id "face_a") faces)) [
            | inl a ↦ ground (arith, a, b, skip b)
            | inr (f, a) ↦ ground (arith, a, b, skip b)
          ],
        )
      ]

  pub normalize_faces-IsComplete :
      (defaults : Defaults Profile Binding) (now : String) (faces : List (Face Profile Binding))
      → IsComplete (normalize_faces defaults now faces)
  unfolding normalize_faces
  normalize_faces-IsComplete defaults now faces =
      let named = filter is_named faces in
      record {
        all_named =
            all-append is_named named _ (all-filter is_named faces)
              (add_missing_named defaults now named);
        has_a = found_a defaults now named;
        has_b = found_b defaults now named;
      }

  -- What a change in place leaves of another id, and what it makes of its own
  pub find_first-changed :
      (i j : String) (g : Face Profile Binding → Face Profile Binding)
      → ((f : Face Profile Binding) → (g f).face_id ≡ f.face_id)
      → (faces : List (Face Profile Binding)) (f : Face Profile Binding)
      → find_first (has_id j) faces ≡ some f
      → find_first (has_id j) (change_first (has_id i) g faces)
        ≡ some (if str_eq i j then g f else f)
  unfolding find_first change_first
  find_first-changed i j g kept [] f h = cc
  find_first-changed i j g kept (x ∷ xs) f h = ground (
    arith,
    kept x,
    eq_iff x.face_id i,
    eq_iff x.face_id j,
    eq_iff i j,
    find_first-changed i j g kept xs f,
  )

  pub change_first-IsComplete :
      (i : String) (g : Face Profile Binding → Face Profile Binding)
      → ((f : Face Profile Binding) → (g f).face_id ≡ f.face_id)
      → (faces : List (Face Profile Binding)) → IsComplete faces
      → IsComplete (change_first (has_id i) g faces)
  change_first-IsComplete i g kept faces c = record {
    all_named =
        all-change_first (has_id i) is_named g (λ f. ap (λ id. not (str_eq id "")) (kept f)) faces
          c.all_named;
    has_a = (_, find_first-changed i "face_a" g kept faces c.has_a.0 c.has_a.1);
    has_b = (_, find_first-changed i "face_b" g kept faces c.has_b.0 c.has_b.1);
  }

  pub append-IsComplete :
      (f : Face Profile Binding)
      → is_named f ≡ true
      → (faces : List (Face Profile Binding)) → IsComplete faces
      → IsComplete (faces ++ (f ∷ []))
  unfolding all
  append-IsComplete f named faces c = record {
    all_named = all-append is_named faces (f ∷ []) c.all_named (ground (arith, named));
    has_a = (_, find_first-append_found (has_id "face_a") faces (f ∷ []) _ c.has_a.1);
    has_b = (_, find_first-append_found (has_id "face_b") faces (f ∷ []) _ c.has_b.1);
  }

  pub default_faces-IsComplete :
      (defaults : Defaults Profile Binding) (now : String) → IsComplete (default_faces defaults now)
  unfolding all find_first
  default_faces-IsComplete defaults now = record {
    all_named = refl;
    has_a = (_, refl);
    has_b = (_, refl);
  }
