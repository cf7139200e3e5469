-- ===== src/WebStore/Targets.antt =====
-- Which entry the route writes to, and what has let it.
use phantasm.Base.{
  eq_iff, eq_refl, ℕ, ◌≡◌, refl, ap, ◌∙◌, sym, String, Bool, true, false, not, ◌&&◌, ◌||◌, Option,
  Option-cases, none, some, [], ◌∷◌, str_eq, arith, ◌⊎◌, inl, inr, Bool-cases,
}
use mathlib.Core.Path.{subst}
use phantasm.Base.Except.{Result, ok, err}
use phantasm.PassphrasePolicy.{check_store_passphrases}
use phantasm.Web.{Web, Request, Exception, enforce_rate_limit, restricted_session_valid}
use phantasm.WebStore.{
  GateStatus, is_entry, entry_mode, first_unbound_entry, matched_entry, same_entry,
  select_entry_for_store, Form, Services, Answer, Effects, to_entry, capture_entry_binding,
  no_effects, confirmed, store_checked, limited, store_route, or_other,
}

-- At one of the two readings the entry had no object, or its object was the one that matched.
abbrev pub vacant : GateStatus → GateStatus → String → Bool
vacant first second entry =
    not (first.registered (entry_mode entry)) || not (second.registered (entry_mode entry))

abbrev pub presented : GateStatus → GateStatus → String → Bool
presented first second entry =
    same_entry (matched_entry first) entry || same_entry (matched_entry second) entry

first_unbound_entry-vacant :
    (s : GateStatus) (entry : String)
    → first_unbound_entry s ≡ some entry
    → s.registered (entry_mode entry) ≡ false
unfolding first_unbound_entry entry_mode
first_unbound_entry-vacant s entry chosen = elim (Bool-cases (s.registered "dummy")) [
  | inr free ↦
      let same : entry ≡ "entry_1" = ground (arith, chosen, free) in
      ap (λ e. s.registered (entry_mode e)) same ∙ free
  | inl taken ↦ elim (Bool-cases (s.registered "secret")) [
    | inr free ↦
        let same : entry ≡ "entry_2" = ground (arith, chosen, taken, free) in
        ap (λ e. s.registered (entry_mode e)) same ∙ free
    | inl all ↦ absurd (cc (all, taken, chosen))
  ]
]

select-entry :
    (first second : GateStatus) (hint : String) (overwrite : Bool) (entry : String)
    (needs_capture : Bool)
    → select_entry_for_store first second hint overwrite ≡ (some entry, needs_capture)
    → ((needs_capture || presented first second entry) ≡ true)
      × ((overwrite || (vacant first second entry || presented first second entry)) ≡ true)
      × ((not (is_entry hint) || str_eq hint entry) ≡ true)
unfolding select_entry_for_store
select-entry first second hint overwrite entry needs_capture chosen = ground (
  arith,
  chosen,
  first_unbound_entry-vacant second entry,
  eq_refl entry,
  eq_refl hint,
  eq_iff hint entry,
)

-- No write was begun, or that of one entry was: the modes that were written and captured, and what has let it;
-- `confirmed` stands for what was tested before the entry was chosen.
unfoldable pub Permitted : Services → Form → Bool → Effects → Type 0
Permitted services form confirmed effects =
    (effects.writes ≡ [])
    ⊎ ((entry : String) × (effects.writes ≡ entry_mode entry ∷ [])
        × ((effects.captures ≡ effects.writes)
            ⊎ (presented (services.status 0) (services.status 1) entry ≡ true))
        × ((form.overwrite
              || (vacant (services.status 0) (services.status 1) entry
                  || presented (services.status 0) (services.status 1) entry))
            ≡ true)
        × ((not (is_entry form.entry_hint) || str_eq form.entry_hint entry) ≡ true)
        × (confirmed ≡ true))

to_entry-Permitted :
    (services : Services) (form : Form) (chosen : Option String × Bool)
    → select_entry_for_store (services.status 0) (services.status 1) form.entry_hint form.overwrite
      ≡ chosen
    → Permitted services form true (to_entry services form chosen no_effects).1
unfolding Permitted
to_entry-Permitted services form (none, needs_capture) eq = inl refl
to_entry-Permitted services form (some entry, needs_capture) eq =
    let (shown, allowed, hinted) =
      select-entry (services.status 0) (services.status 1) form.entry_hint form.overwrite entry
        needs_capture eq in
    elim (Bool-cases (needs_capture || form.overwrite)) [
      | inr plain ↦
          inr (
            entry,
            ground (arith, plain),
            inr (ground (arith, shown, plain)),
            allowed,
            hinted,
            refl,
          )
      | inl captures ↦ elim (Option-cases (capture_entry_binding services (entry_mode entry))) [
        | inl done ↦ inr (
          entry,
          ground (arith, captures, done),
          inl (ground (arith, captures, done)),
          allowed,
          hinted,
          refl,
        )
        | inr (message, failed) ↦ inl (ground (arith, captures, failed))
      ]
    ]

-- What is tested before the entry is chosen: the passphrases, and for a replacement its phrase and the
-- restricted session
abbrev pub tested : Services → Form → Bool → Bool
tested services form session =
    (check_store_passphrases services.passphrase_min_length form.password
      (or_other form.secondary_passphrase form.restricted_recovery_password)).ok
    && (not form.overwrite || (str_eq form.overwrite_confirmation "REPLACE LOCAL ENTRY" && session))

-- The route stops before an entry is chosen, or it goes on as the tests have let it.
store_checked-cases :
    (now : ℕ) (services : Services) (r : Request) (form : Form) (web : Web)
    → ((store_checked now services r form web).0.1.writes ≡ [])
      ⊎ ((tested services form (restricted_session_valid now r web).0 ≡ true)
          × ((store_checked now services r form web).0.1
              ≡ (to_entry services form
                  (select_entry_for_store
                    (services.status 0)
                    (services.status 1)
                    form.entry_hint
                    form.overwrite)
                  no_effects).1))
store_checked-cases now services r form web =
    elim form.password
        as (λ p.
          form.password ≡ p
          → ((store_checked now services r form web).0.1.writes ≡ [])
            ⊎ ((tested services form (restricted_session_valid now r web).0 ≡ true)
                × ((store_checked now services r form web).0.1
                    ≡ (to_entry services form
                        (select_entry_for_store (services.status 0) (services.status 1)
                          form.entry_hint form.overwrite)
                        no_effects).1))) [
                          | [] ↦ λ e. inl (ground (arith, e))
                          | c ∷ cs ↦ λ e.
                              elim (Bool-cases
                                (tested services form (restricted_session_valid now r web).0)) [
                                  | inl passed ↦ inr (passed, ground (arith, e, passed))
                                  | inr stopped ↦ inl (ground (arith, e, stopped))
                                ]
                        ]
      refl

store_checked-Permitted :
    (now : ℕ) (services : Services) (r : Request) (form : Form) (web : Web)
    → Permitted services form
        (tested services form (restricted_session_valid now r web).0)
        (store_checked now services r form web).0.1
unfolding Permitted
store_checked-Permitted now services r form web =
    elim (store_checked-cases now services r form web) [
      | inl nothing ↦ inl nothing
      | inr (passed, same) ↦
          let chosen =
            select_entry_for_store (services.status 0) (services.status 1) form.entry_hint
              form.overwrite in
          subst (λ x. Permitted services form x (store_checked now services r form web).0.1)
            (sym passed)
            (subst (λ x. Permitted services form true x) (sym same)
              (to_entry-Permitted services form chosen refl))
    ]

limited-effects :
    (now : ℕ) (services : Services) (r : Request) (form : Form)
    (entered : Result Exception (Unit {0}) × Web) (after : Web) (answer : Answer)
    (effects : Effects)
    → limited now services r form entered ≡ (ok (answer, effects), after)
    → (store_checked now services r form entered.1).0.1 ≡ effects
limited-effects now services r form (err e, web) after answer effects returned =
    absurd (cc returned)
limited-effects now services r form (ok u, web) after answer effects returned = cc returned

-- When the route returns, no write was begun, or that of one entry was, whether it returned or raised: then the
-- passphrases have passed the policy, and a replacement has its phrase and a restricted session; it is the
-- entry that was asked for, if a known one was; without a replacement the entry had no object or its object
-- was the one that matched, at one of the two readings of the gate; and the object was captured for the entry,
-- or it was the one that matched.
pub store_route-Permitted :
    (t₁ t₂ : ℕ) (services : Services) (r : Request) (form : Form) (web after : Web)
    (answer : Answer) (effects : Effects)
    → store_route t₁ t₂ services r form web ≡ (ok (answer, effects), after)
    → Permitted services form
        (tested services form (restricted_session_valid t₂ r (enforce_rate_limit t₁ r web).1).0)
        effects
unfolding store_route
store_route-Permitted t₁ t₂ services r form web after answer effects returned =
    let (entered, limited_web) = enforce_rate_limit t₁ r web in
    subst
      (λ x.
        Permitted services form (tested services form (restricted_session_valid t₂ r limited_web).0)
          x)
      (limited-effects t₂ services r form (enforce_rate_limit t₁ r web) after answer effects
        returned)
      (store_checked-Permitted t₂ services r form limited_web)
