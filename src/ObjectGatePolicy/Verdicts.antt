-- ===== src/ObjectGatePolicy/Verdicts.antt =====
-- When a frame is accepted.
use phantasm.Base.{
  ap, sym, ◌∙◌, ℕ, ◌≡◌, refl, Bool, true, false, not, ◌&&◌, ◌||◌, Option, none, some, str_eq,
  if◌then◌else◌, arith,
}
use phantasm.Base.Dict.{Dict}
use phantasm.ObjectGatePolicy.{
  Value, ObjectModelGateResult, ObjectGateResult, Floats, ObjectGatePolicy, result, combine,
}

module _ {F : Type 0} (floats : Floats F) where
  abbrev pub clear : ObjectGatePolicy floats → Option F → Bool
  clear policy none = false
  clear policy (some quality) = not (floats.less quality policy.min_quality_score)

  abbrev pub matches : Option (Dict (Value F)) → Bool
  matches none = false
  matches (some orb_match) = true

  -- Is the result's state `accepted`, and are its stable frames as many?
  abbrev Verdict : Bool → ObjectGateResult F → Type 0
  Verdict b r = (str_eq r.state "accepted" ≡ b) × (r.stable_frames ≡ (if b then 1 else 0))

  if-Verdict :
      (c : Bool) {a b : Bool} (x y : ObjectGateResult F)
      → Verdict a x
      → Verdict b y
      → Verdict (if c then a else b) (if c then x else y)
  if-Verdict true x y p q = p
  if-Verdict false x y p q = q

  without_match :
      (policy : ObjectGatePolicy floats) (model : ObjectModelGateResult F) (quality : F)
      (frames ms : ℕ)
      → Verdict
          (if floats.less quality policy.min_quality_score
            then false
            else if str_eq model.state "accepted"
            then false
            else if str_eq model.state "error"
            then false
            else false)
          (combine floats policy none model (some quality) frames ms)
  unfolding combine result
  without_match policy model quality frames ms =
      if-Verdict (floats.less quality policy.min_quality_score) _ _ (refl, refl)
        (if-Verdict (str_eq model.state "accepted") _ _ (refl, refl)
          (if-Verdict (str_eq model.state "error") _ _ (refl, refl) (refl, refl)))

  with_match :
      (policy : ObjectGatePolicy floats) (m : Dict (Value F)) (model : ObjectModelGateResult F)
      (quality : F) (frames ms : ℕ)
      → Verdict
          (if floats.less quality policy.min_quality_score
            then false
            else if str_eq model.state "accepted"
            then true
            else if str_eq model.state "unavailable"
            then true
            else if str_eq model.state "rejected"
            then false
            else if str_eq model.state "error"
            then false
            else false)
          (combine floats policy (some m) model (some quality) frames ms)
  unfolding combine result
  with_match policy m model quality frames ms =
      if-Verdict (floats.less quality policy.min_quality_score) _ _ (refl, refl)
        (if-Verdict (str_eq model.state "accepted") _ _ (refl, refl)
          (if-Verdict (str_eq model.state "unavailable") _ _ (refl, refl)
            (if-Verdict (str_eq model.state "rejected") _ _ (refl, refl)
              (if-Verdict (str_eq model.state "error") _ _ (refl, refl) (refl, refl)))))

  -- A frame is accepted exactly if there is one of at least the least quality, the feature matcher
  -- has a match, and the model accepts it or is not there; a frame is counted as stable exactly if
  -- it is accepted.
  pub combine_accepts_iff :
      (policy : ObjectGatePolicy floats) (orb_match : Option (Dict (Value F)))
      (model : ObjectModelGateResult F) (quality : Option F) (frames ms : ℕ)
      → let r = combine floats policy orb_match model quality frames ms in
        (str_eq r.state "accepted" ≡ (
          clear policy quality
          && (matches orb_match
              && (str_eq model.state "accepted" || str_eq model.state "unavailable"))))
        × (r.stable_frames ≡ (if str_eq r.state "accepted" then 1 else 0))
  unfolding combine result
  combine_accepts_iff policy none model none frames ms = (refl, refl)
  combine_accepts_iff policy (some m) model none frames ms = (refl, refl)
  combine_accepts_iff policy none model (some quality) frames ms =
      let (state, stable) = without_match policy model quality frames ms in
      (state ∙ ground arith, stable ∙ ap (λ b. if b then 1 else 0) (sym state))
  combine_accepts_iff policy (some m) model (some quality) frames ms =
      let (state, stable) = with_match policy m model quality frames ms in
      (state ∙ ground arith, stable ∙ ap (λ b. if b then 1 else 0) (sym state))
