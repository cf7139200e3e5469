-- ===== src/VesselRegistry/Tests.antt =====
-- A registry of two vessels.
use phantasm.Base.{◌≡◌, refl, String, some, [], ◌∷◌, ℕ}
use phantasm.Base.Int.{pos}
use phantasm.Base.Find.{find_first}
use phantasm.VesselRegistry.{
  Face, Defaults, Access, Registry, new_record, default_face_record, update_face_access, touched,
  get_face_state_record,
}
use phantasm.VesselRegistry.Faces.{default_faces-IsComplete}
use phantasm.VesselRegistry.Operations.{
  IsSound, register, unregister, name_face, touch, open_face, close_face, run_all, run_all-IsSound,
}
use phantasm.VesselRegistry.Accessed.{IsAccessed, update_face_access-IsAccessed}
use mathlib.Core.List.Memᴰ.{head, tail}

abbrev defaults : Defaults ℕ String
defaults = record { no_profile = 0; no_binding = "" }

abbrev vessels : Registry ℕ String
vessels = new_record defaults "t" "/one" ∷ new_record defaults "t" "/two" ∷ []

vessels-IsSound : IsSound vessels
unfolding find_first
vessels-IsSound =
    (default_faces-IsComplete defaults "t", refl, (default_faces-IsComplete defaults "t", refl, tt))

abbrev filled : Access ℕ String
filled = record touched { file_count = some (pos 3) }

run_all-IsSound_example : IsSound (
    run_all defaults "t"
      (register "/one"
        ∷ register "/one"
        ∷ touch "/two" "face_b" filled
        ∷ name_face "/two" "face_c" "Third" "c"
        ∷ open_face "/one" "face_a"
        ∷ close_face "/one"
        ∷ unregister "/one"
        ∷ [])
      [])
run_all-IsSound_example =
    run_all-IsSound defaults "t"
      (register "/one"
        ∷ register "/one"
        ∷ touch "/two" "face_b" filled
        ∷ name_face "/two" "face_c" "Third" "c"
        ∷ open_face "/one" "face_a"
        ∷ close_face "/one"
        ∷ unregister "/one"
        ∷ [])
      [] tt

abbrev second_face : Face ℕ String
second_face = default_face_record defaults "t" "face_b" "Disclosure Face 2" "b"

abbrev first_face : Face ℕ String
first_face = default_face_record defaults "t" "face_a" "Disclosure Face 1" "a"

update_face_access-IsAccessed_example :
    (h : Face ℕ String) × (get_face_state_record "/two" "face_b"
        (update_face_access defaults "u" "/two" "face_b" filled vessels).1
      ≡ some h)
    × IsAccessed "u" filled second_face h
    × (get_face_state_record "/two" "face_a"
          (update_face_access defaults "u" "/two" "face_b" filled vessels).1
        ≡ some first_face)
unfolding find_first
update_face_access-IsAccessed_example =
    update_face_access-IsAccessed defaults "u" "/two" filled vessels second_face first_face
      vessels-IsSound (refl, (refl, tt)) (tail (head refl)) (head refl) refl
