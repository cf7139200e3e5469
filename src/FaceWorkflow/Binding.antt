-- ===== src/FaceWorkflow/Binding.antt =====
-- services/vessel_workflow_service.py: the object that a face is bound to, and the cues of a call.
use phantasm.Base.{
  ◌⊎◌, inl, inr, String, Bool, true, false, not, ◌&&◌, ◌||◌, Option, none, some, List, [], ◌∷◌,
  Bytes, bytes_eq, str_eq, if◌then◌else◌,
}
use phantasm.Base.Except.{Result, ok, err, pure, gets, lift, require, ◌>>=◌, ◌>>◌}
use phantasm.VesselRegistry.{VesselRecord}
use phantasm.FaceNamespace.{value_error}
use phantasm.FaceWorkflow.Inputs.{Failure, Presented, Setting, raised}
use phantasm.FaceWorkflow.Credentials.{
  Workflow, resolve_mode, resolve_face_id, binding_registered, get_face_binding_record,
  set_face_binding_record,
}

module _ {Json Profile Binding Candidate : Type 0}
    (s : Setting Json Profile Binding Candidate) where
  abbrev pub Registered : Type 0
  Registered = VesselRecord Profile Binding

  abbrev pub profiled : Result Failure Candidate → Result Failure (Option (Binding ⊎ Candidate))
  profiled (err e) = err e
  profiled (ok c) = ok (some (inr c))

  -- `_candidate_binding_profile`: nothing, the record of a disabled binding, or a profile
  unfoldable pub candidate_binding_profile :
      Presented → Result Failure (Option (Binding ⊎ Candidate))
  candidate_binding_profile p =
      if p.no_object_binding
      then (if s.services.no_object_binding_allowed
          then ok (some (inl s.services.disabled_record))
          else err
              (raised (value_error "no-object-binding is restricted to local development tests")))
      else elim p.object_image_path [
        | some path ↦ profiled (s.services.profile_from_image_path path)
        | none ↦ if p.camera_object then profiled s.services.capture_camera_profile else ok none
      ]

  abbrev pub mode_sequence : Option String → Workflow s (Option (List Bytes))
  mode_sequence selector = do
    mode ← lift (resolve_mode s selector)
    pure (some (s.services.sequence_for_mode mode))

  abbrev pub record_to_bind : Binding ⊎ Candidate → Binding
  record_to_bind (inl b) = b
  record_to_bind (inr c) = s.services.to_record c

  -- The half of `_ensure_object_binding` for a face that is bound to no object
  abbrev pub bind_object :
      String
      → String
      → Option String
      → Bool
      → Option (Binding ⊎ Candidate)
      → Workflow s (Option (List Bytes))
  bind_object path id selector register_if_missing none = pure none
  bind_object path id selector register_if_missing (some c) = do
    require register_if_missing
        (raised (value_error "object binding not registered for selected face"))
    set_face_binding_record s path id (record_to_bind c)
    mode_sequence selector

  abbrev pub no_image : Option String → Bool
  no_image none = true
  no_image (some path) = false

  abbrev pub taken : Option (Binding ⊎ Candidate) → Result Failure (Binding ⊎ Candidate)
  taken none = elim s.services.capture_camera_profile [ err e ↦ err e | ok c ↦ ok (inr c) ]
  taken (some c) = ok c

  abbrev pub is_match : Presented → Binding → Binding ⊎ Candidate → Bool
  is_match p binding (inl b) = false
  is_match p binding (inr c) =
      s.services.matches binding c (p.camera_object || no_image p.object_image_path)

  -- and the half for one that is
  abbrev pub match_object :
      Presented
      → Binding
      → Option String
      → Option (Binding ⊎ Candidate)
      → Workflow s (Option (List Bytes))
  match_object p binding selector candidate =
      if str_eq (s.services.source_type binding) "disabled"
      then (require p.no_object_binding (raised (value_error "object mismatch"))
          >> mode_sequence selector)
      else (do
        c ← lift (taken candidate)
        require (is_match p binding c) (raised (value_error "object mismatch"))
        mode_sequence selector)

  abbrev pub registered_binding : Option Binding → Option Binding
  registered_binding none = none
  registered_binding (some b) = if binding_registered s (some b) then some b else none

  unfoldable pub ensure_object_binding :
      String → Option String → Presented → Bool → Workflow s (Option (List Bytes))
  unfolding candidate_binding_profile
  ensure_object_binding path selector p register_if_missing = do
    id ← lift (resolve_face_id s selector)
    stored ← gets (get_face_binding_record s path id)
    candidate ← lift (candidate_binding_profile p)
    elim (registered_binding stored) [
      | none ↦ bind_object path id selector register_if_missing candidate
      | some b ↦ match_object p b selector candidate
    ]

  -- `object_image_path or camera_object or no_object_binding or self._binding_registered(…)`
  abbrev pub presents_object : Presented → Bool → Bool
  presents_object p is_bound =
      not (no_image p.object_image_path) || p.camera_object || p.no_object_binding || is_bound

  -- A face that is bound asks for the camera where nothing else is presented.
  abbrev pub with_camera : Presented → Bool → Presented
  with_camera p is_bound = record p {
    camera_object =
        p.camera_object || no_image p.object_image_path && not p.no_object_binding && is_bound;
  }

  unfoldable pub collect_auth_sequence : List Bytes
  collect_auth_sequence =
      if s.services.reference_matched then s.services.auth_sequence else s.services.match_none ∷ []

  abbrev pub none_matched : List Bytes → Bool
  none_matched [] = true
  none_matched (token ∷ tokens) = bytes_eq token s.services.match_none

  abbrev pub cues_of : Option (List Bytes) → List Bytes
  cues_of none = []
  cues_of (some cues) = cues

  abbrev pub collected : Option (List Bytes) → List Bytes
  collected none = collect_auth_sequence
  collected (some cues) = cues

  -- The object cues of a call that reads a face
  unfoldable pub active_cue_sequence : String → Option String → Presented → Workflow s (List Bytes)
  unfolding ensure_object_binding
  active_cue_sequence path selector p = do
    id ← lift (resolve_face_id s selector)
    stored ← gets (get_face_binding_record s path id)
    let is_bound = binding_registered s stored
    if presents_object p is_bound
        then (do
          cues ← ensure_object_binding path selector (with_camera p is_bound) false
          pure (cues_of cues))
        else pure (collected p.cue_sequence)
