-- ===== src/CuePolicyGate.antt =====
-- object_cue_policy_gate.py: which runs of camera frames count as a match. The states and reasons
-- are kept as the source's texts. The two bounds of the gate are natural numbers: the source takes
-- their maximum with 1, so that a negative one counts as 0.
pub mod Sequence
mod Tests
use phantasm.Base.{
  ℕ, zero, suc, ◌+◌, ◌≤◌, max, min, String, Bool, true, false, not, ◌&&◌, ◌||◌, Option, none, some,
  List, [], ◌∷◌, map, length, take, ltb, leb, ◌==◌, str_eq, if◌then◌else◌,
}

pub record CueFrameSignal : Type 0 where
  pub object_state : String
  pub relation_ok : Bool
  pub token : String

pub record CuePolicyResult : Type 0 where
  pub sequence_state : String
  pub accepted : Bool
  pub ambiguous : Bool
  pub reason : String

pub record ObjectCuePolicyGate : Type 0 where
  pub required_stable_frames : ℕ
  pub sequence_timeout_frames : ℕ

unfoldable pub new : ℕ → ℕ → ObjectCuePolicyGate
new required_stable_frames sequence_timeout_frames = record {
  required_stable_frames = max 1 required_stable_frames;
  sequence_timeout_frames = max (max 1 required_stable_frames) sequence_timeout_frames;
}

abbrev valid_states : String → Bool
valid_states s =
    str_eq s "none" || (str_eq s "detected" || (str_eq s "matched" || str_eq s "ambiguous"))

-- `str.strip` comes from the interpreter.
module _ (strip : String → String) where
  unfoldable pub normalize : CueFrameSignal → CueFrameSignal
  normalize frame = record {
    object_state = if valid_states frame.object_state then frame.object_state else "none";
    relation_ok = frame.relation_ok;
    token = strip frame.token;
  }

abbrev pub any_state : String → List CueFrameSignal → Bool
any_state s [] = false
any_state s (f ∷ fs) = str_eq f.object_state s || any_state s fs

abbrev pub all_state : String → List CueFrameSignal → Bool
all_state s [] = true
all_state s (f ∷ fs) = str_eq f.object_state s && all_state s fs

unfoldable pub stable_match_count : List CueFrameSignal → ℕ
stable_match_count [] = 0
stable_match_count (f ∷ fs) =
    let rest = stable_match_count fs in if str_eq f.object_state "matched" then suc rest else rest

abbrev pub result : String → Bool → Bool → String → CuePolicyResult
result sequence_state accepted ambiguous reason = record {
  sequence_state = sequence_state;
  accepted = accepted;
  ambiguous = ambiguous;
  reason = reason;
}

-- A frame that the loop does not skip
abbrev pub usable : CueFrameSignal → Bool
usable f = str_eq f.object_state "matched" && f.relation_ok

-- The loop: is the rest of the sequence met in these frames? The list is `expected_sequence[idx:]`, and
-- the loop returns when it is used up.
unfoldable pub completes : List String → List CueFrameSignal → Bool
completes [] frames = true
completes (t ∷ ts) [] = false
completes (t ∷ ts) (f ∷ fs) =
    let skip = completes (t ∷ ts) fs in
    let go = completes ts fs in if usable f && str_eq f.token t then go else skip

unfoldable pub evaluate_sequence :
    ObjectCuePolicyGate → List CueFrameSignal → List String → CuePolicyResult
evaluate_sequence gate frames [] = result "idle" false false "empty_sequence"
evaluate_sequence gate frames (t ∷ ts) =
    let frame_budget = min (length frames) gate.sequence_timeout_frames in
    if completes (t ∷ ts) (take frame_budget frames)
    then result "matched" true false "sequence_complete"
    else if leb gate.sequence_timeout_frames frame_budget
    then result "timeout" false false "sequence_timeout"
    else result "collecting" false false "sequence_incomplete"

abbrev by_stability : ObjectCuePolicyGate → List CueFrameSignal → CuePolicyResult
by_stability gate normalized =
    if leb gate.required_stable_frames (stable_match_count normalized)
    then result "matched" true false "stable_match"
    else result "collecting" false false "insufficient_stability"

abbrev by_sequence :
    ObjectCuePolicyGate → List CueFrameSignal → Option (List String) → CuePolicyResult
by_sequence gate normalized none = by_stability gate normalized
by_sequence gate normalized (some []) = by_stability gate normalized
by_sequence gate normalized (some (t ∷ ts)) = evaluate_sequence gate normalized (t ∷ ts)

abbrev pub on_frames :
    ObjectCuePolicyGate → List CueFrameSignal → Option (List String) → CuePolicyResult
on_frames gate [] expected = result "idle" false false "no_signal"
on_frames gate (f ∷ fs) expected =
    if any_state "ambiguous" (f ∷ fs)
    then result "ambiguous" false true "ambiguous_scene"
    else if all_state "none" (f ∷ fs)
    then result "idle" false false "no_object"
    else by_sequence gate (f ∷ fs) expected

-- `expected_sequence` may be left out.
unfoldable pub evaluate :
    (String → String)
    → ObjectCuePolicyGate
    → List CueFrameSignal
    → Option (List String)
    → CuePolicyResult
evaluate strip gate frames expected = on_frames gate (map (normalize strip) frames) expected
