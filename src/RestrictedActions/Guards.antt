-- ===== src/RestrictedActions/Guards.antt =====
-- What stands between a caller and a restricted action.
use phantasm.Base.{
  String, Bool, true, false, ◌&&◌, ◌||◌, Option, none, some, str_eq, ◌≡◌, ◌⊎◌, ap, sym, ◌∙◌, arith,
  eq_iff,
}
use phantasm.Base.Dict.{lookup}
use phantasm.Base.Except.{ok, err}
use phantasm.Capabilities.{capability_enabled}
use phantasm.RestrictedActions.{
  restricted_action_rejected, RestrictedActionPolicy, restricted_action_policies, Evidence,
  evaluate_restricted_action,
}

abbrev phrase_typed : Option String → String → Bool
phrase_typed none confirmation = true
phrase_typed (some phrase) confirmation = str_eq confirmation phrase

-- A policy that asks for more than the capability and the phrase
abbrev guarded : RestrictedActionPolicy → Bool
guarded p =
    p.require_restricted_confirmation || (p.require_password_reentry && p.require_object_cue)

policies_guarded :
    (action_id : String) (policy : RestrictedActionPolicy)
    → lookup action_id restricted_action_policies ≡ some policy
    → (guarded policy ≡ true) ⊎ (action_id ≡ "rapid_local_clear")
unfolding lookup restricted_action_policies
policies_guarded action_id policy found = grind (arith, found, eq_iff)

evaluated :
    (policy : RestrictedActionPolicy) (e : Evidence)
    → evaluate_restricted_action policy e ≡ ok true
    → (e.capability_allowed ≡ true)
      × (phrase_typed policy.confirmation_phrase e.confirmation ≡ true)
      × ((guarded policy ≡ true)
          → (e.restricted_confirmed || (e.password_reentered && e.object_cue_accepted)) ≡ true)
unfolding evaluate_restricted_action
evaluated policy e passed = ground (arith, passed)

-- An action of the table that is not the rapid clear is let through only if the capability is
-- there, the phrase of its policy was typed, and there was either a restricted confirmation or
-- both the password again and the object.
pub policy_guards :
    (action_id : String) (policy : RestrictedActionPolicy) (e : Evidence)
    → lookup action_id restricted_action_policies ≡ some policy
    → evaluate_restricted_action policy e ≡ ok true
    → (e.capability_allowed ≡ true)
      × (phrase_typed policy.confirmation_phrase e.confirmation ≡ true)
      × (((e.restricted_confirmed || (e.password_reentered && e.object_cue_accepted)) ≡ true)
          ⊎ (action_id ≡ "rapid_local_clear"))
policy_guards action_id policy e found passed =
    grind (arith, policies_guarded action_id policy found, evaluated policy e passed)

unavailable :
    (action_id : String) (policy : RestrictedActionPolicy)
    → lookup action_id restricted_action_policies ≡ some policy
    → (capability_enabled "maintenance" policy.capability ≡ false)
      × (action_id ≡ "rapid_local_clear" → capability_enabled "field" policy.capability ≡ false)
unfolding lookup restricted_action_policies capability_enabled
unavailable action_id policy found = (
  grind (arith, found, eq_iff),
  λ rapid. grind (arith, ap (λ a. lookup a restricted_action_policies) (sym rapid) ∙ found),
)

refused :
    (policy : RestrictedActionPolicy) (e : Evidence)
    → e.capability_allowed ≡ false
    → evaluate_restricted_action policy e ≡ err (restricted_action_rejected "operation unavailable")
unfolding evaluate_restricted_action
refused policy e denied = ground (arith, denied)

-- Under the profile `maintenance` every action of the table is refused as unavailable, and under
-- `field` the rapid clear is, whatever else the caller shows.
pub profile_refuses :
    (action_id : String) (policy : RestrictedActionPolicy) (e : Evidence)
    → lookup action_id restricted_action_policies ≡ some policy
    → ((e.capability_allowed ≡ capability_enabled "maintenance" policy.capability)
        ⊎ ((e.capability_allowed ≡ capability_enabled "field" policy.capability)
            × (action_id ≡ "rapid_local_clear")))
    → evaluate_restricted_action policy e ≡ err (restricted_action_rejected "operation unavailable")
profile_refuses action_id policy e found profile =
    let (maintenance, field) = unavailable action_id policy found in
    refused policy e (grind (arith, maintenance, field, profile))
