-- ===== src/Approval/Deadlines.antt =====
-- What the answers of `grant` and `consume` depend on, and the seconds in which `consume` raises.
use phantasm.Base.{
  ℕ, ◌+◌, ◌*◌, ◌≤◌, ◌≡◌, String, true, false, none, some, [], ◌∷◌, ◌&&◌, if◌then◌else◌, leb, arith,
  eq_refl,
}
use phantasm.Base.Dict.{lookup, insert, erase, contains, lookup-erase}
use phantasm.Base.Except.{ok, err}
use phantasm.Approval.{
  second, ApprovalRequest, ApprovalGrant, DualApprovalGate, RoleStore, key_error, initial,
  requires_dual_approval, purge_expired, find_request_by_nonce, request_is_expired,
  grant_is_expired, request, grant, consume, drop_action, drop_actions, drop_grants,
  expired_actions, expired_grants,
}
use phantasm.Approval.SingleUse.{succeeds}

-- `grant` succeeds exactly if a request with this nonce is pending and not over at the second
-- reading of the clock, the role store is configured, and it verifies the passphrase.
pub grant_ok_iff :
    (t₁ t₂ t₃ : ℕ) (nonce pass : String) (store : RoleStore) (gate : DualApprovalGate)
    → (grant t₁ t₂ t₃ nonce pass store gate).0.ok ≡ (
        elim (find_request_by_nonce nonce gate.pending) [
          | none ↦ false
          | some req ↦ leb t₂ (req.created_at + req.ttl_seconds * second)
        ]
        && (store.is_configured && store.verified pass))
unfolding grant request_is_expired
grant_ok_iff t₁ t₂ t₃ nonce pass store gate = ground arith

gone :
    (t₁ t₂ : ℕ) (action nonce : String) (gate : DualApprovalGate)
    → succeeds (consume t₁ t₂ action nonce gate).0 ≡ true
    → lookup nonce (consume t₁ t₂ action nonce gate).1.grants ≡ none
unfolding consume
gone t₁ t₂ action nonce gate done =
    ground (arith, done, lookup-erase nonce nonce (purge_expired t₁ gate).grants, eq_refl nonce)

no_grant :
    (t₁ t₂ : ℕ) (action nonce : String) (gate : DualApprovalGate)
    → lookup nonce gate.grants ≡ none
    → (consume t₁ t₂ action nonce gate).0
      ≡ ok (record {
        ok = false;
        reason = "no_grant";
        message = "No pending authorization request found for this action.";
        nonce = "";
      })
unfolding consume
no_grant t₁ t₂ action nonce gate none_there = ground (arith, none_there)

-- After a `consume` that succeeds, the same nonce has no grant: at any later call that reads any
-- times, for any action, `consume` answers that there is none.
pub consume_once :
    (t₁ t₂ t₃ t₄ : ℕ) (action other nonce : String) (gate : DualApprovalGate)
    → succeeds (consume t₁ t₂ action nonce gate).0 ≡ true
    → (consume t₃ t₄ other nonce (consume t₁ t₂ action nonce gate).1).0
      ≡ ok (record {
        ok = false;
        reason = "no_grant";
        message = "No pending authorization request found for this action.";
        nonce = "";
      })
consume_once t₁ t₂ t₃ t₄ action other nonce gate done =
    no_grant t₃ t₄ other nonce (consume t₁ t₂ action nonce gate).1
      (gone t₁ t₂ action nonce gate done)

abbrev asked : ℕ → String → String → ApprovalRequest
asked t₀ fresh action = record {
  action_id = action;
  nonce = fresh;
  created_at = t₀;
  ttl_seconds = 300;
}

abbrev given : ℕ → String → String → ApprovalGrant
given t₁ fresh action = record {
  action_id = action;
  nonce = fresh;
  granted_at = t₁;
  ttl_seconds = 60;
}

abbrev opened : ℕ → String → String → DualApprovalGate
opened t₀ fresh action = record { pending = (action, asked t₀ fresh action) ∷ []; grants = [] }

abbrev signed : ℕ → ℕ → String → String → DualApprovalGate
signed t₀ t₁ fresh action = record {
  pending = (action, asked t₀ fresh action) ∷ [];
  grants = (fresh, given t₁ fresh action) ∷ [];
}

request-initial :
    (t₀ : ℕ) (fresh action : String)
    → requires_dual_approval action ≡ true
    → (request t₀ t₀ t₀ fresh action initial).1 ≡ opened t₀ fresh action
unfolding request purge_expired expired_actions expired_grants drop_actions drop_grants lookup
    insert
request-initial t₀ fresh action dual = ground (arith, dual)

grant-opened :
    (t₀ t₁ : ℕ) (fresh action pass : String) (store : RoleStore)
    → store.is_configured ≡ true
    → store.verified pass ≡ true
    → t₁ ≤ t₀ + 300 * second
    → (grant t₁ t₁ t₁ fresh pass store (opened t₀ fresh action)).1 ≡ signed t₀ t₁ fresh action
unfolding grant purge_expired expired_actions expired_grants drop_actions drop_grants lookup insert
    find_request_by_nonce request_is_expired
grant-opened t₀ t₁ fresh action pass store configured verified in_time =
    ground (arith, eq_refl fresh)

consume-signed :
    (t₀ t₁ t₂ : ℕ) (fresh action : String)
    → t₂ ≤ t₁ + 60 * second
    → (consume t₂ t₂ action fresh (signed t₀ t₁ fresh action)).0 ≡ (
        if leb t₂ (t₀ + 300 * second)
        then ok (record {
          ok = true;
          reason = "consumed";
          message = "Authorization used. Action may proceed.";
          nonce = "";
        })
        else err (key_error fresh))
unfolding consume purge_expired expired_actions expired_grants drop_actions drop_action drop_grants
    lookup contains erase request_is_expired grant_is_expired
consume-signed t₀ t₁ t₂ fresh action soon = ground (arith, eq_refl fresh, eq_refl action)

-- A grant lives for 60 seconds and a request for 300, but the purge takes the grant away with the
-- request: if an action is requested of a new gate at `t₀`, granted at `t₁` at most 300 seconds
-- later, and consumed at `t₂` at most 60 seconds after that, `consume` succeeds if `t₂` is at most
-- 300 seconds after the request, and if it is later, `consume` raises a `KeyError`.
pub consume_deadline :
    (t₀ t₁ t₂ : ℕ) (fresh action pass : String) (store : RoleStore)
    → requires_dual_approval action ≡ true
    → store.is_configured ≡ true
    → store.verified pass ≡ true
    → t₁ ≤ t₀ + 300 * second
    → t₂ ≤ t₁ + 60 * second
    → (consume t₂ t₂ action fresh
        (grant t₁ t₁ t₁ fresh pass store (request t₀ t₀ t₀ fresh action initial).1).1).0
      ≡ (if leb t₂ (t₀ + 300 * second)
          then ok (record {
            ok = true;
            reason = "consumed";
            message = "Authorization used. Action may proceed.";
            nonce = "";
          })
          else err (key_error fresh))
consume_deadline t₀ t₁ t₂ fresh action pass store dual configured verified in_time soon =
    rw
      (
        request-initial t₀ fresh action dual,
        grant-opened t₀ t₁ fresh action pass store configured verified in_time,
      )
      (consume-signed t₀ t₁ t₂ fresh action soon)
