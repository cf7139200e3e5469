-- ===== src/ObjectGatePolicy/Tests.antt =====
-- A frame that only the feature matcher knows, with scores that are whole numbers.
use phantasm.Base.{ℕ, Option, none, some, [], ◌∷◌, ltb}
use phantasm.Base.Dict.{Dict}
use phantasm.ObjectGatePolicy.{Value, number, ObjectModelGateResult, Floats, ObjectGatePolicy}

abbrev whole : Floats ℕ
whole = record { less = ltb; nought = 0; truncated = λ n. n }

abbrev policy : ObjectGatePolicy whole
policy = record { min_quality_score = 8 }

abbrev orb : Option (Dict (Value ℕ))
orb = some (("inliers", number 30) ∷ [])

abbrev absent_model : ObjectModelGateResult ℕ
absent_model = record {
  state = "unavailable";
  score = none;
  elapsed_ms = 1;
  reason_code = "disabled";
}
