-- ===== src/CuePolicyGate/Tests.antt =====
-- A gate of two stable frames on three frames.
use phantasm.Base.{◌≡◌, ◌↔◌, Bool, true, false, String, List, [], ◌∷◌, length, take, min}
use phantasm.CuePolicyGate.{CueFrameSignal, ObjectCuePolicyGate, new, evaluate_sequence}
use phantasm.CuePolicyGate.Sequence.{Subsequence, tokens, evaluate_sequence_iff}

abbrev frame : String → Bool → String → CueFrameSignal
frame object_state relation_ok token = record {
  object_state = object_state;
  relation_ok = relation_ok;
  token = token;
}

abbrev frames : List CueFrameSignal
frames =
    frame "matched" true "key" ∷ frame "matched" false "coin" ∷ frame "matched" true "coin" ∷ []

abbrev gate : ObjectCuePolicyGate
unfolding new
gate = new 2 8

evaluate_sequence_iff_example :
    (evaluate_sequence gate frames ("key" ∷ "coin" ∷ [])).accepted ≡ true
    ↔ Subsequence
        ("key" ∷ "coin" ∷ [])
        (tokens (take (min (length frames) gate.sequence_timeout_frames) frames))
evaluate_sequence_iff_example = evaluate_sequence_iff gate frames "key" ("coin" ∷ [])
