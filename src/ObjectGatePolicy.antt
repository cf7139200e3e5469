-- ===== src/ObjectGatePolicy.antt =====
-- object_gate_policy.py: one result from the feature matcher, the model and the quality of a frame.
mod Tests
pub mod Verdicts
use phantasm.Base.{
  ℕ, String, Bool, true, false, not, ◌&&◌, Option, none, some, str_eq, if◌then◌else◌,
}
use phantasm.Base.Dict.{Dict, lookup}

-- A value of the match's dictionary: a number, by `float(int(…))`, or anything else
pub data Value (F : Type 0) : Type 0 where
  number : F → Value F
  other : Value F

pub record ObjectModelGateResult (F : Type 0) : Type 0 where
  pub state : String
  pub score : Option F
  pub elapsed_ms : ℕ
  pub reason_code : String

pub record ObjectGateResult (F : Type 0) : Type 0 where
  pub state : String
  pub orb_score : Option F
  pub model_score : Option F
  pub quality_score : Option F
  pub stable_frames : ℕ
  pub attempted_frames : ℕ
  pub elapsed_ms : ℕ
  pub reason_code : String

-- The floating-point numbers, with what the code does with them: `<`, the number 0, and rounding to
-- a whole number
pub record Floats (F : Type 0) : Type 0 where
  pub less : F → F → Bool
  pub nought : F
  pub truncated : F → F

module _ {F : Type 0} (floats : Floats F) where
  pub record ObjectGatePolicy : Type 0 where
    pub min_quality_score : F

  abbrev of_value : Option (Value F) → Option F
  of_value none = some (floats.truncated floats.nought)
  of_value (some (number x)) = some (floats.truncated x)
  of_value (some other) = none

  unfoldable pub orb_score : Option (Dict (Value F)) → Option F
  orb_score none = none
  orb_score (some orb_match) = of_value (lookup "inliers" orb_match)

  abbrev accepts : Option (Dict (Value F)) → Bool
  accepts none = false
  accepts (some orb_match) = true

  -- `_result`
  unfoldable pub result :
      String → Option F → Option F → Option F → ℕ → ℕ → String → ObjectGateResult F
  result state orb model quality attempted_frames elapsed_ms reason_code = record {
    state = state;
    orb_score = orb;
    model_score = model;
    quality_score = quality;
    stable_frames = if str_eq state "accepted" then 1 else 0;
    attempted_frames = attempted_frames;
    elapsed_ms = elapsed_ms;
    reason_code = reason_code;
  }

  abbrev judged : Option (Dict (Value F)) → ObjectModelGateResult F → F → ℕ → ℕ → ObjectGateResult F
  judged orb_match model quality frames ms =
      let orb_accepted = accepts orb_match in
      let orb = orb_score orb_match in
      if orb_accepted && str_eq model.state "accepted"
      then result "accepted" orb model.score (some quality) frames ms "combined_match"
      else if orb_accepted && str_eq model.state "unavailable"
      then result "accepted" orb none (some quality) frames ms "orb_match"
      else if orb_accepted && str_eq model.state "rejected"
      then result "ambiguous" orb model.score (some quality) frames ms "ambiguous_match"
      else if not orb_accepted && str_eq model.state "accepted"
      then result "ambiguous" orb model.score (some quality) frames ms "ambiguous_match"
      else if str_eq model.state "error"
      then result "error" orb none (some quality) frames ms "model_error"
      else result "rejected" orb model.score (some quality) frames ms
          (if str_eq model.state "rejected" then "model_reject" else "unstable_match")

  unfoldable pub combine :
      ObjectGatePolicy
      → Option (Dict (Value F))
      → ObjectModelGateResult F
      → Option F
      → ℕ
      → ℕ
      → ObjectGateResult F
  combine policy orb_match model none frames ms =
      result "no_signal" none model.score none frames ms "no_frame"
  combine policy orb_match model (some quality) frames ms =
      if floats.less quality policy.min_quality_score
      then result "no_signal" none model.score (some quality) frames ms "low_quality"
      else judged orb_match model quality frames ms
