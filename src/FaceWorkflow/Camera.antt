-- ===== src/FaceWorkflow/Camera.antt =====
-- services/vessel_workflow_service.py: the loops that wait for the camera. What the k-th turn of a loop sees, and the
-- milliseconds that it reads from the clock, are arguments, and so is the reading for the deadline; `sleep(0.1)` takes at least 100 of them. The loops run on
-- fuel, and no result means that it ran out.
use phantasm.Base.{
  ℕ, zero, suc, ◌+◌, ◌*◌, ◌/◌, ◌<◌, ◌≤◌, ◌≡◌, inl, inr, sym, String, Bool, true, false, Option,
  none, some, List, str_eq, ltb, arith, Bool-cases, if◌then◌else◌,
}
use mathlib.Core.Path.{subst}
use phantasm.Base.Except.{Result, ok, err}
use phantasm.RegistrySeal.{among}
use phantasm.FaceNamespace.{Raised, runtime_error}

-- `while time.time() < deadline`, from the k-th turn on
unfoldable pub poll : (ℕ → Bool) → (ℕ → ℕ) → ℕ → ℕ → ℕ → Option Bool
poll sees clock deadline zero k = none
poll sees clock deadline (suc fuel) k =
    let rest = poll sees clock deadline fuel (suc k) in
    if ltb (clock k) deadline then (if sees k then some true else rest) else some false

-- One turn more than fit into the timeout
abbrev fuel_for : ℕ → ℕ
fuel_for timeout = suc (suc (timeout / 100))

-- Is there a frame in the k-th turn?
unfoldable pub wait_for_camera_frame : (ℕ → Bool) → ℕ → (ℕ → ℕ) → ℕ → Option Bool
unfolding poll
wait_for_camera_frame frame start clock timeout =
    poll frame clock (start + timeout) (fuel_for timeout) 0

-- The mode that matches, with the mode that is expected, or the modes that there are
unfoldable pub is_expected : List String → Option String → String → Bool
is_expected auth_tokens none matched = among auth_tokens matched
is_expected auth_tokens (some mode) matched = str_eq matched mode

unfoldable pub wait_for_reference_match :
    List String → (ℕ → String) → ℕ → (ℕ → ℕ) → ℕ → Option String → Option Bool
unfolding poll is_expected
wait_for_reference_match auth_tokens matched start clock timeout expected =
    poll (λ k. is_expected auth_tokens expected (matched k)) clock (start + timeout)
      (fuel_for timeout) 0

-- A frame was waited for, the capture has a message where it failed, and a match was waited for.
unfoldable pub capture_reference_for_mode : Bool → Option String → Bool → Result Raised (Unit {0})
capture_reference_for_mode false capture matched =
    err (runtime_error "camera feed did not become available")
capture_reference_for_mode true (some message) matched = err (runtime_error message)
capture_reference_for_mode true none false =
    err (runtime_error "object cue captured, but no stable match was detected")
capture_reference_for_mode true none true = ok tt

module _ (sees : ℕ → Bool) (clock : ℕ → ℕ) (sleeps : (k : ℕ) → clock k + 100 ≤ clock (suc k)) where
  poll_ends :
      (deadline fuel k : ℕ)
      → deadline ≤ clock k + 100 * fuel
      → (b : Bool) × (poll sees clock deadline (suc fuel) k ≡ some b)
  unfolding poll
  poll_ends deadline zero k h = (false, ground (arith, h))
  poll_ends deadline (suc fuel) k h =
      let (b, rest) = poll_ends deadline fuel (suc k) (omega (arith, h, sleeps k)) in
      elim (Bool-cases (ltb (clock k) deadline)) [
        | inr t ↦ (false, ground (arith, t))
        | inl t ↦ elim (Bool-cases (sees k)) [
          | inl u ↦ (true, ground (arith, t, u))
          | inr u ↦ (b, ground (arith, t, u, rest))
        ]
      ]

  shift : (k i : ℕ) → k + suc i ≡ suc k + i
  shift k i = omega arith

  elapsed : (k i : ℕ) → clock k + 100 * i ≤ clock (k + i)
  elapsed k zero =
      subst (λ j. clock k + 0 ≤ clock j) {x = k} {y = k + 0} (omega arith) (omega arith)
  elapsed k (suc i) =
      subst (λ j. clock k + 100 * suc i ≤ clock j) (sym (shift k i))
        (omega (arith, elapsed (suc k) i, sleeps k))

  poll_sees :
      (deadline fuel k i : ℕ)
      → clock (k + i) < deadline
      → sees (k + i) ≡ true
      → i < fuel
      → poll sees clock deadline fuel k ≡ some true
  unfolding poll
  poll_sees deadline zero k i h seen few = absurd (omega (arith, few))
  poll_sees deadline (suc fuel) k zero h seen few =
      let at : k + 0 ≡ k = omega arith in
      ground (arith, subst (λ j. clock j < deadline) at h, subst (λ j. sees j ≡ true) at seen)
  poll_sees deadline (suc fuel) k (suc i) h seen few =
      let before : clock k < deadline = omega (arith, elapsed k (suc i), h) in
      ground (
        arith,
        poll_sees deadline fuel (suc k) i (subst (λ j. clock j < deadline) (shift k i) h)
            (subst (λ j. sees j ≡ true) (shift k i) seen) (omega (arith, few)),
        before,
      )

  -- The wait for the camera ends, whatever the camera does, for the fuel is that of one turn more than fit into the
  -- timeout.
  pub wait_for_camera_frame_ends :
      (start timeout : ℕ)
      → start ≤ clock 0
      → (b : Bool) × (wait_for_camera_frame sees start clock timeout ≡ some b)
  unfolding wait_for_camera_frame
  wait_for_camera_frame_ends start timeout begun =
      poll_ends (start + timeout) (suc (timeout / 100)) 0 (omega (arith, begun))

  -- A frame that is there in a turn before the timeout is not missed, where each turn takes 100 milliseconds at least: the
  -- wait ends and says so.
  pub wait_for_camera_frame_sees :
      (start timeout i : ℕ)
      → start ≤ clock 0
      → clock i < start + timeout
      → sees i ≡ true
      → wait_for_camera_frame sees start clock timeout ≡ some true
  unfolding wait_for_camera_frame
  wait_for_camera_frame_sees start timeout i begun h seen =
      let same : 0 + i ≡ i = omega arith in
      poll_sees (start + timeout) (fuel_for timeout) 0 i
        (subst (λ j. clock j < start + timeout) (sym same) h)
        (subst (λ j. sees j ≡ true) (sym same) seen)
        (omega (arith, elapsed 0 i, subst (λ j. clock j < start + timeout) (sym same) h))

module _ (matched : ℕ → String) (clock : ℕ → ℕ)
    (sleeps : (k : ℕ) → clock k + 100 ≤ clock (suc k)) where
  -- The wait for a reference does not miss a match of the expected mode that is there in a turn before the
  -- timeout.
  pub wait_for_reference_match_sees :
      (auth_tokens : List String) (mode : String) (start timeout i : ℕ)
      → start ≤ clock 0
      → clock i < start + timeout
      → str_eq (matched i) mode ≡ true
      → wait_for_reference_match auth_tokens matched start clock timeout (some mode) ≡ some true
  unfolding wait_for_reference_match wait_for_camera_frame is_expected
  wait_for_reference_match_sees auth_tokens mode start timeout i begun h seen =
      wait_for_camera_frame_sees (λ k. str_eq (matched k) mode) clock sleeps start timeout i begun h
        seen
