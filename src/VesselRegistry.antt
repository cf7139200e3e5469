-- ===== src/VesselRegistry.antt =====
-- services/vessel_service.py: the registry of the vessels and of their faces. The records are those that a
-- load gives, with every key there and of its type; `face_labels` and the `dummy_profile` of a vessel, which
-- a load computes from the faces, are left out. A profile and an object binding are of any type. The clock
-- does not move within a call, and the registry file can be read and written: a
-- store and the next load give back the records, which holds where no two faces of a vessel have one id, for
-- they merge the sealed half of the faces by it.
mod Records
pub mod Faces
mod Tests
pub mod Operations
pub mod TouchFace
mod Accessed
unfoldable pub use Records.*
use phantasm.Base.{
  ℕ, ◌≡◌, String, Bool, true, false, not, ◌&&◌, ◌||◌, Option, none, some, List, [], ◌∷◌, ◌++◌,
  str_eq, ltb, if◌then◌else◌,
}
use phantasm.Base.Int.{ℤ, pos, ◌+ℤ◌, ltb_ℤ}
use phantasm.Base.Find.{find_first, change_first, filter}
use phantasm.Base.Except.{Result, ok, err, Method, pure, raise, modify, gets, ◌>>=◌}

module _ {Profile Binding : Type 0} (defaults : Defaults Profile Binding) (now : String) where
  abbrev pub default_face_record : String → String → String → Face Profile Binding
  default_face_record id label selector = record {
    face_id = id;
    label = label;
    created_at = now;
    last_accessed = "";
    occupancy = pos 0;
    file_count = pos 0;
    status = "available";
    selector = selector;
    credentials_initialized = false;
    object_binding_initialized = false;
    dummy_profile = defaults.no_profile;
    object_binding = defaults.no_binding;
    emergency_auth = no_auth;
  }

  abbrev defaults_of : List (String × String × String) → List (Face Profile Binding)
  defaults_of [] = []
  defaults_of ((id, label, selector) ∷ specs) =
      default_face_record id label selector ∷ defaults_of specs

  abbrev pub default_faces : List (Face Profile Binding)
  default_faces = defaults_of default_face_specs

  -- The loop at the end of `_normalize_faces`
  abbrev pub add_missing :
      List (String × String × String) → List (Face Profile Binding) → List (Face Profile Binding)
  add_missing [] faces = []
  add_missing ((id, label, selector) ∷ specs) faces =
      let rest = add_missing specs faces in
      elim (find_first (has_id id) faces) [
        | none ↦ default_face_record id label selector ∷ rest
        | some f ↦ rest
      ]

  unfoldable pub normalize_faces : List (Face Profile Binding) → List (Face Profile Binding)
  normalize_faces faces =
      let named = filter is_named faces in named ++ add_missing default_face_specs named

  -- `_normalize_registry_record` of a path
  abbrev pub new_record : String → VesselRecord Profile Binding
  new_record path = record {
    path = path;
    label = "";
    faces = default_faces;
    is_open = false;
    open_count = pos 0;
    last_opened_at = "";
    last_closed_at = "";
    active_face_id = "";
  }

  unfoldable pub register_vessel : String → Registry Profile Binding → Registry Profile Binding
  register_vessel path registry = elim (find_first (is_at path) registry) [
    | none ↦ registry ++ (new_record path ∷ [])
    | some r ↦ registry
  ]

  abbrev set_open : Option Bool → Bool → VesselRecord Profile Binding → VesselRecord Profile Binding
  set_open none increment r = r
  set_open (some true) increment r = record r {
    is_open = true;
    last_opened_at = now;
    open_count = if increment then r.open_count +ℤ pos 1 else r.open_count;
  }
  set_open (some false) increment r = record r { is_open = false; last_closed_at = now }

  abbrev set_faces :
      Option (List (Face Profile Binding))
      → VesselRecord Profile Binding
      → VesselRecord Profile Binding
  set_faces none r = r
  set_faces (some faces) r = record r { faces = normalize_faces faces }

  abbrev pub changed :
      Change Profile Binding → VesselRecord Profile Binding → VesselRecord Profile Binding
  changed c r =
      let opened = set_open c.is_open c.increment_open_count r in
      let named = record opened { label = given c.label opened.label } in
      let faced = set_faces c.faces named in
      record faced { active_face_id = given c.active_face_id faced.active_face_id }

  -- The record of a path: a new one where there is none
  abbrev pub record_at : String → Registry Profile Binding → VesselRecord Profile Binding
  record_at path registry = elim (find_first (is_at path) registry) [
    | none ↦ new_record path
    | some r ↦ r
  ]

  abbrev pub Registered : Type 0 → Type 0
  Registered A = Method (Registry Profile Binding) RegistryError A

  unfoldable pub update_registry_record :
      String → Change Profile Binding → Registered (VesselRecord Profile Binding)
  unfolding register_vessel
  update_registry_record path c registry = (
    ok (changed c (record_at path registry)),
    change_first (is_at path) (changed c) (register_vessel path registry),
  )

  abbrev relabelled : String → String → Face Profile Binding → Face Profile Binding
  relabelled label selector f = record f {
    label = or_else label f.label;
    selector = or_else selector f.selector;
  }

  abbrev pub with_face :
      String → String → String → List (Face Profile Binding) → List (Face Profile Binding)
  with_face id label selector faces = elim (find_first (has_id id) faces) [
    | none ↦ faces ++ (default_face_record id label selector ∷ [])
    | some f ↦ change_first (has_id id) (relabelled label selector) faces
  ]

  unfoldable pub create_face :
      String → String → String → String → Registered (VesselRecord Profile Binding)
  unfolding update_registry_record
  create_face path id label selector = do
    r ← update_registry_record path nothing_changed
    let faces = with_face id label selector (normalize_faces r.faces)
    update_registry_record path (record nothing_changed { faces = some faces })

  -- The assignments before `if opened`
  abbrev pub assigned : Access Profile Binding → Face Profile Binding → Face Profile Binding
  assigned a f = record f {
    occupancy = given a.occupancy f.occupancy;
    file_count = given a.file_count f.file_count;
    status = given a.status f.status;
    dummy_profile = given a.dummy_profile f.dummy_profile;
    object_binding = given a.object_binding f.object_binding;
    emergency_auth = given a.emergency_auth f.emergency_auth;
    credentials_initialized = given a.credentials_initialized f.credentials_initialized;
    object_binding_initialized = given a.object_binding_initialized f.object_binding_initialized;
  }

  abbrev occupied : Face Profile Binding → String
  occupied f = if ltb_ℤ (pos 0) f.file_count then "occupied" else "available"

  -- and its three ends, for the face
  abbrev pub accessed : Access Profile Binding → Face Profile Binding → Face Profile Binding
  accessed a f =
      let g = assigned a f in
      if a.opened
      then record g { last_accessed = now; status = "open" }
      else if a.closed
      then record g { status = occupied g }
      else record g { last_accessed = now; status = occupied g }

  -- and for the vessel
  abbrev pub access_change :
      String → Access Profile Binding → List (Face Profile Binding) → Change Profile Binding
  access_change id a faces =
      if a.opened
      then (record nothing_changed {
        is_open = some true;
        increment_open_count = true;
        faces = some faces;
        active_face_id = some id;
      })
      else if a.closed
      then (record nothing_changed {
        is_open = some false;
        faces = some faces;
        active_face_id = some "";
      })
      else record nothing_changed { faces = some faces }

  abbrev pub access_found :
      String
      → String
      → Access Profile Binding
      → List (Face Profile Binding)
      → Option (Face Profile Binding)
      → Registered (VesselRecord Profile Binding)
  access_found path id a faces none = raise (unsupported_face_id id)
  access_found path id a faces (some f) =
      update_registry_record path (access_change id a (change_first (has_id id) (accessed a) faces))

  unfoldable pub update_face_access :
      String → String → Access Profile Binding → Registered (VesselRecord Profile Binding)
  unfolding update_registry_record
  update_face_access path id a = do
    r ← update_registry_record path nothing_changed
    let faces = normalize_faces r.faces
    access_found path id a faces (find_first (has_id id) faces)

  unfoldable pub open_vessel : String → String → Registered (VesselRecord Profile Binding)
  unfolding update_face_access
  open_vessel path id = update_face_access path id (record touched { opened = true })

  unfoldable pub close_vessel : String → Registered (VesselRecord Profile Binding)
  unfolding update_registry_record update_face_access
  close_vessel path = do
    r ← update_registry_record path nothing_changed
    update_face_access path (or_else r.active_face_id "face_a") (record touched { closed = true })

module _ {Profile Binding : Type 0} where
  unfoldable pub unregister_vessel :
      String → Registry Profile Binding → Bool × Registry Profile Binding
  unregister_vessel path registry = elim (find_first (is_at path) registry) [
    | none ↦ (false, registry)
    | some r ↦ (true, filter (λ r. not (is_at path r)) registry)
  ]

  unfoldable pub get_vessel_record :
      String → Registry Profile Binding → Option (VesselRecord Profile Binding)
  get_vessel_record path registry = find_first (is_at path) registry

  -- `_get_face_state_record` of vessel_workflow_service.py, `none` for `{}`
  unfoldable pub get_face_state_record :
      String → String → Registry Profile Binding → Option (Face Profile Binding)
  unfolding get_vessel_record
  get_face_state_record path id registry = elim (get_vessel_record path registry) [
    | none ↦ none
    | some r ↦ find_first (has_id id) r.faces
  ]
