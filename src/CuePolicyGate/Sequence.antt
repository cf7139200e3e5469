-- ===== src/CuePolicyGate/Sequence.antt =====
-- What a sequence of cues accepts.
use phantasm.Base.{
  ◌≤◌, ◌≡◌, ◌↔◌, refl, sym, ◌∙◌, Bool, true, false, not, ◌&&◌, String, none, List, [], ◌∷◌, map,
  length, take, min, leb, str_eq, if◌then◌else◌, arith, eq_iff, Bool-cases, inl, inr, false≢true,
}
use phantasm.CuePolicyGate.{
  CueFrameSignal, ObjectCuePolicyGate, normalize, any_state, all_state, stable_match_count, usable,
  completes, evaluate_sequence, on_frames, evaluate,
}

-- The first list is in the second, in its order, with others between.
pub data Subsequence : List String → List String → Type 0 where
  stop : {us : List String} → Subsequence [] us
  keep :
      {t u : String} {ts us : List String}
      → u ≡ t
      → Subsequence ts us
      → Subsequence (t ∷ ts) (u ∷ us)
  skip : {u : String} {ts us : List String} → Subsequence ts us → Subsequence ts (u ∷ us)

-- The tokens of the frames that match with their relation
abbrev pub tokens : List CueFrameSignal → List String
tokens [] = []
tokens (f ∷ fs) = let rest = tokens fs in if usable f then f.token ∷ rest else rest

abbrev greedy : List String → List String → Bool
greedy [] us = true
greedy (t ∷ ts) [] = false
greedy (t ∷ ts) (u ∷ us) =
    let miss = greedy (t ∷ ts) us in let hit = greedy ts us in if str_eq u t then hit else miss

completes-tokens :
    (ts : List String) (fs : List CueFrameSignal) → completes ts fs ≡ greedy ts (tokens fs)
unfolding completes
completes-tokens [] fs = refl
completes-tokens (t ∷ ts) [] = refl
completes-tokens (t ∷ ts) (f ∷ fs) =
    ground (arith, completes-tokens (t ∷ ts) fs, completes-tokens ts fs)

weaken : (t : String) (ts us : List String) → greedy (t ∷ ts) us ≡ true → greedy ts us ≡ true
weaken t ts [] h = ground (arith, h)
weaken t [] (u ∷ us) h = refl
weaken t (s ∷ ss) (u ∷ us) h = ground (arith, h, weaken t (s ∷ ss) us, weaken s ss us)

greedy_sound : (ts us : List String) → greedy ts us ≡ true → Subsequence ts us
greedy_sound [] us h = stop
greedy_sound (t ∷ ts) [] h = absurd (false≢true h)
greedy_sound (t ∷ ts) (u ∷ us) h = elim (Bool-cases (str_eq u t)) [
  | inl same ↦ keep ((eq_iff u t).0 same) (greedy_sound ts us (ground (arith, h, same)))
  | inr differ ↦ skip (greedy_sound (t ∷ ts) us (ground (arith, h, differ)))
]

longer : (u : String) (ts us : List String) → greedy ts us ≡ true → greedy ts (u ∷ us) ≡ true
longer u [] us h = refl
longer u (t ∷ ts) us h = ground (arith, h, weaken t ts us h)

greedy_complete : (ts us : List String) → Subsequence ts us → greedy ts us ≡ true
greedy_complete [] us sub = refl
greedy_complete (t ∷ ts) [] sub = elim sub [ ]
greedy_complete (t ∷ ts) (u ∷ us) (keep same sub) =
    ground (arith, eq_iff u t, same, greedy_complete ts us sub)
greedy_complete (t ∷ ts) (u ∷ us) (skip sub) =
    longer u (t ∷ ts) us (greedy_complete (t ∷ ts) us sub)

module _ (gate : ObjectCuePolicyGate) (frames : List CueFrameSignal) (t : String)
    (ts : List String) where
  accepted_completes :
      (evaluate_sequence gate frames (t ∷ ts)).accepted ≡ true
      → completes (t ∷ ts) (take (min (length frames) gate.sequence_timeout_frames) frames) ≡ true
  unfolding evaluate_sequence
  accepted_completes accepted = ground (arith, accepted)

  completes_accepted :
      completes (t ∷ ts) (take (min (length frames) gate.sequence_timeout_frames) frames) ≡ true
      → (evaluate_sequence gate frames (t ∷ ts)).accepted ≡ true
  unfolding evaluate_sequence
  completes_accepted done = ground (arith, done)

-- A sequence of cues is accepted exactly if its tokens are, in order, among the tokens of the frames
-- that match with their relation, within the first `sequence_timeout_frames` frames.
pub evaluate_sequence_iff :
    (gate : ObjectCuePolicyGate) (frames : List CueFrameSignal) (t : String) (ts : List String)
    → (evaluate_sequence gate frames (t ∷ ts)).accepted ≡ true
      ↔ Subsequence
          (t ∷ ts)
          (tokens (take (min (length frames) gate.sequence_timeout_frames) frames))
evaluate_sequence_iff gate frames t ts =
    let window = take (min (length frames) gate.sequence_timeout_frames) frames in
    let same = completes-tokens (t ∷ ts) window in
    (
      λ accepted.
          greedy_sound (t ∷ ts) (tokens window)
            (sym same ∙ accepted_completes gate frames t ts accepted),
      λ sub.
          completes_accepted gate frames t ts (same ∙ greedy_complete (t ∷ ts) (tokens window) sub),
    )

none_match : (ns : List CueFrameSignal) → all_state "none" ns ≡ true → stable_match_count ns ≡ 0
unfolding stable_match_count
none_match [] h = refl
none_match (f ∷ fs) h = ground (
  arith,
  h,
  none_match fs,
  eq_iff f.object_state "none",
  eq_iff f.object_state "matched",
  eq_iff "none" "matched",
)

on_frames_accepts :
    (gate : ObjectCuePolicyGate) (ns : List CueFrameSignal)
    → 1 ≤ gate.required_stable_frames
    → (on_frames gate ns none).accepted
      ≡ (not (any_state "ambiguous" ns) && leb gate.required_stable_frames (stable_match_count ns))
unfolding stable_match_count
on_frames_accepts gate [] some_needed = ground (arith, some_needed)
on_frames_accepts gate (f ∷ fs) some_needed = ground (arith, some_needed, none_match (f ∷ fs))

-- Where no sequence is expected and the gate asks for at least one frame, a run of frames is
-- accepted exactly if, normalised, none is ambiguous and at least `required_stable_frames` match.
pub evaluate_accepts :
    (gate : ObjectCuePolicyGate) (strip : String → String) (frames : List CueFrameSignal)
    → 1 ≤ gate.required_stable_frames
    → (evaluate strip gate frames none).accepted ≡ (
        not (any_state "ambiguous" (map (normalize strip) frames))
        && leb gate.required_stable_frames (stable_match_count (map (normalize strip) frames)))
unfolding evaluate
evaluate_accepts gate strip frames some_needed =
    on_frames_accepts gate (map (normalize strip) frames) some_needed
