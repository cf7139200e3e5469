-- ===== src/WebRetrieve/Silence.antt =====
-- When a file is given out, and what a destroy password shows.
use phantasm.Base.{
  ◌&&◌, ◌||◌, not, if◌then◌else◌, ◌/◌, ℕ, ◌≡◌, refl, sym, eq_iff, ap, ◌∙◌, String, Bool, true,
  false, Option, Option-cases, none, some, List, [], ◌∷◌, Bytes, str_eq, arith, ◌⊎◌, inl, inr,
  Bool-cases,
}
use mathlib.Core.Path.{subst}
use phantasm.Base.Except.{Result, ok, err}
use phantasm.AttemptLimiter.{AttemptLimiter, check}
use phantasm.WebEmergency.{other_mode}
use phantasm.Web.{Web, Request, Exception, enforce_rate_limit, second}
use phantasm.WebRetrieve.{
  Found, nothing, raises, found, Answer, unavailable, no_valid_entry, file, Effects, Services,
  modes, Outcome, none_opened, opened, ended, failed, first_of, try_modes, destroyed_by_password,
  maybe_auto_purge, no_effects, scope_of, after_modes, not_opened, attempt, limited, retrieve_route,
  Attempted,
}

-- What the loop ends with comes from one of the modes.
Comes : Services → Outcome → Type 0
Comes services none_opened = Unit
Comes services failed = Unit
Comes services (opened mode payload) = services.retrieve mode ≡ found payload false
Comes services (ended mode) = (payload : Bytes) × (services.retrieve mode ≡ found payload true)

first_of-Comes :
    (services : Services) (has_vessel : Bool) (mode : String) (f : Found) (rest : Outcome)
    → services.retrieve mode ≡ f
    → Comes services rest
    → Comes services (first_of has_vessel mode f rest)
unfolding Comes
first_of-Comes services has_vessel mode nothing rest eq comes = comes
first_of-Comes services true mode raises rest eq comes = comes
first_of-Comes services false mode raises rest eq comes = tt
first_of-Comes services has_vessel mode (found payload false) rest eq comes = eq
first_of-Comes services has_vessel mode (found payload true) rest eq comes = (payload, eq)

try_modes-Comes : (services : Services) (ms : List String) → Comes services (try_modes services ms)
unfolding Comes
try_modes-Comes services [] = tt
try_modes-Comes services (mode ∷ rest) =
    first_of-Comes services services.has_vessel mode (services.retrieve mode)
      (try_modes services rest) refl (try_modes-Comes services rest)

-- One of the four things that an attempt can come to: nothing was done; a file was given out, of a mode
-- whose access password it was, and the other mode was purged or not; a mode was cleared whose destroy password it was; or the mode whose
-- object is presented was destroyed.
unfoldable pub Explained : Services → Answer → Effects → Type 0
Explained services answer effects =
    (((answer ≡ no_valid_entry) ⊎ (answer ≡ unavailable)) × (effects ≡ no_effects))
    ⊎ ((str_eq services.auth_token "none" ≡ false)
        × (mode : String) × (((payload : Bytes) × (services.retrieve mode ≡ found payload false)
              × (purged : Bool) × (other : String) × (answer ≡ file payload purged)
              × (effects ≡ record no_effects { purged = if purged then other ∷ [] else [] })
              × (str_eq mode other ≡ false)
              × ((str_eq other "dummy" || str_eq other "secret") ≡ true)
              × (purged ≡ (
                  str_eq mode "dummy" && services.duress_mode_enabled
                  || not services.purge_confirmation_required)))
            ⊎ ((answer ≡ no_valid_entry)
                × (((effects ≡ record no_effects { cleared = mode ∷ [] })
                      × (payload : Bytes) × (services.retrieve mode ≡ found payload true))
                    ⊎ ((effects ≡ record no_effects { destroyed = mode ∷ [] })
                        × (services.matched_mode ≡ some mode)
                        × (str_eq services.auth_token (services.token_of mode) ≡ true)
                        × (services.destroy_face mode ≡ true))))))

other_mode-other :
    (mode : String)
    → (str_eq mode (other_mode mode) ≡ false)
      × ((str_eq (other_mode mode) "dummy" || str_eq (other_mode mode) "secret") ≡ true)
unfolding other_mode
other_mode-other mode = elim (Bool-cases (str_eq mode "dummy")) [
  | inl same ↦
      subst
        (λ m.
          (str_eq m (other_mode m) ≡ false)
          × ((str_eq (other_mode m) "dummy" || str_eq (other_mode m) "secret") ≡ true))
        (sym ((eq_iff mode "dummy").0 same)) (refl, refl)
  | inr apart ↦ rw apart (apart, refl)
]

maybe_auto_purge_iff :
    (services : Services) (mode : String)
    → maybe_auto_purge services mode ≡ (
        str_eq mode "dummy" && services.duress_mode_enabled
        || not services.purge_confirmation_required)
unfolding maybe_auto_purge
maybe_auto_purge_iff services mode = ground arith

destroyed_by_password-presented :
    (services : Services) (mode : String)
    → destroyed_by_password services ≡ some mode
    → (services.matched_mode ≡ some mode)
      × (str_eq services.auth_token (services.token_of mode) ≡ true)
      × (services.destroy_face mode ≡ true)
unfolding destroyed_by_password
destroyed_by_password-presented services mode done = elim (Option-cases services.matched_mode) [
  | inl absent ↦ ground (arith, absent, done)
  | inr (m, there) ↦
      let same : m ≡ mode = ground (arith, there, done) in
      let token : str_eq services.auth_token (services.token_of m) ≡ true =
        ground (arith, there, done) in
      let returns : services.destroy_face m ≡ true = ground (arith, there, done) in
      (
        there ∙ ap some same,
        subst (λ x. str_eq services.auth_token (services.token_of x) ≡ true) same token,
        subst (λ x. services.destroy_face x ≡ true) same returns,
      )
]

-- The answer of an attempt, if it has one
AnswerExplained : Services → Attempted → Type 0
AnswerExplained services (err e, attempts) = Unit
AnswerExplained services (ok (answer, effects), attempts) = Explained services answer effects

not_opened-Explained :
    (services : Services) (scope : String) (now : ℕ) (o : Option String) (attempts : AttemptLimiter)
    → str_eq services.auth_token "none" ≡ false
    → destroyed_by_password services ≡ o
    → AnswerExplained services (not_opened scope now o attempts)
unfolding AnswerExplained Explained
not_opened-Explained services scope now none attempts presented eq = inl (inl refl, refl)
not_opened-Explained services scope now (some mode) attempts presented eq =
    let (matched, token, returns) = destroyed_by_password-presented services mode eq in
    inr (presented, mode, inr (refl, inr (refl, matched, token, returns)))

after_modes-Explained :
    (services : Services) (scope : String) (now : ℕ) (o : Outcome) (attempts : AttemptLimiter)
    → str_eq services.auth_token "none" ≡ false
    → Comes services o
    → AnswerExplained services (after_modes services scope now o attempts)
unfolding AnswerExplained Explained Comes
after_modes-Explained services scope now none_opened attempts presented comes =
    not_opened-Explained services scope now (destroyed_by_password services) attempts presented refl
after_modes-Explained services scope now failed attempts presented comes = tt
after_modes-Explained services scope now (ended mode) attempts presented comes =
    inr (presented, mode, inr (refl, inl (refl, comes.0, comes.1)))
after_modes-Explained services scope now (opened mode payload) attempts presented comes =
    let (apart, is_mode) = other_mode-other mode in
    inr (
      presented,
      mode,
      inl (
        payload,
        comes,
        maybe_auto_purge services mode,
        other_mode mode,
        refl,
        refl,
        apart,
        is_mode,
        maybe_auto_purge_iff services mode,
      ),
    )

attempt-Explained :
    (now later : ℕ) (services : Services) (r : Request) (attempts : AttemptLimiter)
    → AnswerExplained services (attempt now later services r attempts)
unfolding AnswerExplained Explained attempt
attempt-Explained now later services r attempts =
    let (decision, checked) = check attempts (scope_of r) (now / second) in
    elim (Bool-cases decision.allowed) [
      | inr denied ↦ rw denied (inl (inr refl, refl))
      | inl allowed ↦ elim (Bool-cases (str_eq services.auth_token "none")) [
        | inl absent ↦ rw (allowed, absent) (inl (inl refl, refl))
        | inr present ↦
            rw (allowed, present)
              (after_modes-Explained services (scope_of r) (later / second)
                (try_modes services modes) checked present (try_modes-Comes services modes))
      ]
    ]

answered :
    (services : Services) (result : Attempted) (after : AttemptLimiter) (answer : Answer)
    (effects : Effects)
    → result ≡ (ok (answer, effects), after)
    → AnswerExplained services result
    → Explained services answer effects
unfolding AnswerExplained
answered services result after answer effects returned explained =
    subst (λ x. AnswerExplained services x) returned explained

limited-attempt :
    (now later : ℕ) (services : Services) (r : Request) (attempts after : AttemptLimiter)
    (entered : Result Exception (Unit {0}) × Web) (answer : Answer) (effects : Effects)
    → (limited now later services r attempts entered).0 ≡ (ok (answer, effects), after)
    → attempt now later services r attempts ≡ (ok (answer, effects), after)
limited-attempt now later services r attempts after (err e, w) answer effects returned =
    absurd (cc returned)
limited-attempt now later services r attempts after (ok u, w) answer effects returned = returned

-- Whenever the route answers, it is one of these: the refusal, or the answer that no entry was found, and
-- nothing was done; the file of a mode whose access password was given, where no mode was cleared or
-- destroyed, and the other mode was purged exactly if the file is of the first mode under duress or a purge
-- needs no confirmation; and that same answer that no entry was found, where the one mode that was cleared has
-- the password as its destroy password, or the one mode that was destroyed is the one whose object is
-- presented. The last three need a presented object.
pub retrieve_route-Explained :
    (t₁ t₂ t₃ : ℕ) (services : Services) (r : Request) (attempts after : AttemptLimiter)
    (before : Web) (answer : Answer) (effects : Effects)
    → (retrieve_route t₁ t₂ t₃ services r attempts before).0 ≡ (ok (answer, effects), after)
    → Explained services answer effects
unfolding retrieve_route
retrieve_route-Explained t₁ t₂ t₃ services r attempts after before answer effects returned =
    answered services (attempt t₂ t₃ services r attempts) after answer effects
      (limited-attempt t₂ t₃ services r attempts after (enforce_rate_limit t₁ r before) answer
        effects returned)
      (attempt-Explained t₂ t₃ services r attempts)
