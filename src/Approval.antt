-- ===== src/Approval.antt =====
-- approval_flow.py: `DualApprovalGate`, by which a supervisor signs off one dangerous action of the
-- operator. Each call of `time.monotonic()` in a method is an argument of it, in the order of the
-- calls, in nanoseconds and above 0 (where the source would read the clock again); the nonce that
-- `os.urandom` gives is an argument too.
mod Messages
pub mod Purge
pub mod SingleUse
pub mod Deadlines
mod Tests
use phantasm.Base.{
  ℕ, ◌+◌, ◌*◌, String, Bool, true, false, not, ◌&&◌, ◌||◌, Option, none, some, List, [], ◌∷◌, ltb,
  str_eq, if◌then◌else◌,
}
use phantasm.Base.Dict.{Dict, lookup, insert, erase, contains}
use phantasm.Base.Except.{Result, ok, err}
use phantasm.Approval.Messages.{
  dual_approval_already_pending, dual_approval_consumed, dual_approval_grant_expired,
  dual_approval_granted, dual_approval_not_enabled, dual_approval_request_created,
  dual_approval_request_expired, dual_approval_request_not_found,
  dual_approval_supervisor_not_configured, dual_approval_wrong_passphrase,
}

-- `DUAL_APPROVAL_ACTIONS`
unfoldable pub requires_dual_approval : String → Bool
requires_dual_approval action_id =
    str_eq action_id "clear_local_access_path" || str_eq action_id "initialize_container"

abbrev pub second : ℕ
second = 1000000000

pub record ApprovalRequest : Type 0 where
  pub action_id : String
  pub nonce : String
  pub created_at : ℕ
  pub ttl_seconds : ℕ

pub record ApprovalGrant : Type 0 where
  pub action_id : String
  pub nonce : String
  pub granted_at : ℕ
  pub ttl_seconds : ℕ

pub record ApprovalFlowResult : Type 0 where
  pub ok : Bool
  pub reason : String
  pub message : String
  pub nonce : String

pub record DualApprovalGate : Type 0 where
  -- from the action
  pub pending : Dict ApprovalRequest
  -- from the nonce
  pub grants : Dict ApprovalGrant

-- What the gate asks of the `RoleStore` that it is handed
pub record RoleStore : Type 0 where
  pub is_configured : Bool
  pub verified : String → Bool

-- `del d[k]` on a missing key
pub data Raised : Type 0 where
  key_error : String → Raised

abbrev pub initial : DualApprovalGate
initial = record { pending = []; grants = [] }

unfoldable pub request_is_expired : ApprovalRequest → ℕ → Bool
request_is_expired r now = ltb (r.created_at + r.ttl_seconds * second) now

unfoldable pub grant_is_expired : ApprovalGrant → ℕ → Bool
grant_is_expired g now = ltb (g.granted_at + g.ttl_seconds * second) now

unfoldable pub expired_actions : ℕ → Dict ApprovalRequest → List String
expired_actions now [] = []
expired_actions now ((aid, req) ∷ d) =
    let rest = expired_actions now d in if request_is_expired req now then aid ∷ rest else rest

unfoldable pub expired_grants : ℕ → Dict ApprovalGrant → List String
expired_grants now [] = []
expired_grants now ((n, g) ∷ d) =
    let rest = expired_grants now d in if grant_is_expired g now then n ∷ rest else rest

-- The action was listed from the keys, so it is there.
unfoldable pub drop_action : String → DualApprovalGate → DualApprovalGate
drop_action aid gate = elim (lookup aid gate.pending) [
  | none ↦ gate
  | some req ↦ record { pending = erase aid gate.pending; grants = erase req.nonce gate.grants }
]

unfoldable pub drop_actions : List String → DualApprovalGate → DualApprovalGate
drop_actions [] gate = gate
drop_actions (aid ∷ aids) gate = drop_actions aids (drop_action aid gate)

unfoldable pub drop_grants : List String → Dict ApprovalGrant → Dict ApprovalGrant
drop_grants [] grants = grants
drop_grants (n ∷ ns) grants = drop_grants ns (erase n grants)

unfoldable pub purge_expired : ℕ → DualApprovalGate → DualApprovalGate
purge_expired now gate =
    let left = drop_actions (expired_actions now gate.pending) gate in
    record left { grants = drop_grants (expired_grants now left.grants) left.grants }

unfoldable pub find_request_by_nonce : String → Dict ApprovalRequest → Option ApprovalRequest
find_request_by_nonce nonce [] = none
find_request_by_nonce nonce ((aid, req) ∷ d) =
    if str_eq req.nonce nonce then some req else find_request_by_nonce nonce d

abbrev pub refused : String → String → ApprovalFlowResult
refused reason message = record { ok = false; reason = reason; message = message; nonce = "" }

abbrev create_request :
    ℕ → String → String → DualApprovalGate → ApprovalFlowResult × DualApprovalGate
create_request now nonce action_id gate = (
  record {
    ok = true;
    reason = "request_created";
    message = dual_approval_request_created;
    nonce = nonce;
  },
  record gate {
    pending =
        insert action_id
          (record { action_id = action_id; nonce = nonce; created_at = now; ttl_seconds = 300 })
          gate.pending;
  },
)

-- The clock is read by the purge, for the request that is there, and for the new one.
unfoldable pub request :
    ℕ → ℕ → ℕ → String → String → DualApprovalGate → ApprovalFlowResult × DualApprovalGate
request t₁ t₂ t₃ fresh action_id before =
    let gate = purge_expired t₁ before in
    if not (requires_dual_approval action_id)
    then (refused "not_required" dual_approval_not_enabled, gate)
    else elim (lookup action_id gate.pending) [
      | none ↦ create_request t₃ fresh action_id gate
      | some existing ↦
          if not (request_is_expired existing t₂)
          then (
            record {
              ok = false;
              reason = "already_pending";
              message = dual_approval_already_pending;
              nonce = existing.nonce;
            },
            gate,
          )
          else create_request t₃ fresh action_id gate
    ]

-- The clock is read by the purge, for the request, and for the grant.
unfoldable pub grant :
    ℕ
    → ℕ
    → ℕ
    → String
    → String
    → RoleStore
    → DualApprovalGate
    → ApprovalFlowResult × DualApprovalGate
grant t₁ t₂ t₃ nonce supervisor_passphrase role_store before =
    let gate = purge_expired t₁ before in
    elim (find_request_by_nonce nonce before.pending) [
      | none ↦ (refused "no_request" dual_approval_request_not_found, gate)
      | some req ↦
          if request_is_expired req t₂
          then (
            refused "request_expired" dual_approval_request_expired,
            record gate { pending = erase req.action_id gate.pending },
          )
          else if not role_store.is_configured
          then (refused "supervisor_not_configured" dual_approval_supervisor_not_configured, gate)
          else if not (role_store.verified supervisor_passphrase)
          then (refused "wrong_passphrase" dual_approval_wrong_passphrase, gate)
          else (
            record {
              ok = true;
              reason = "granted";
              message = dual_approval_granted;
              nonce = nonce;
            },
            record gate {
              grants =
                  insert nonce
                    (record {
                      action_id = req.action_id;
                      nonce = nonce;
                      granted_at = t₃;
                      ttl_seconds = 60;
                    })
                    gate.grants;
            },
          )
    ]

-- The clock is read by the purge and for the grant.
unfoldable pub consume :
    ℕ → ℕ → String → String → DualApprovalGate → Result Raised ApprovalFlowResult × DualApprovalGate
consume t₁ t₂ action_id nonce before =
    let gate = purge_expired t₁ before in
    elim (lookup nonce before.grants) [
      | none ↦ (ok (refused "no_grant" dual_approval_request_not_found), gate)
      | some g ↦
          if not (str_eq g.action_id action_id)
          then (ok (refused "action_mismatch" dual_approval_request_not_found), gate)
          else if grant_is_expired g t₂
          then (
            ok (refused "grant_expired" dual_approval_grant_expired),
            record { pending = erase action_id gate.pending; grants = erase nonce gate.grants },
          )
          else if not (contains nonce gate.grants)
          then (err (key_error nonce), gate)
          else (
            ok (record {
              ok = true;
              reason = "consumed";
              message = dual_approval_consumed;
              nonce = "";
            }),
            record { pending = erase action_id gate.pending; grants = erase nonce gate.grants },
          )
    ]

pub record Status : Type 0 where
  pub action_id : String
  pub requires_dual_approval : Bool
  pub pending_request : Bool
  pub grant_available : Bool
  pub nonce : String

-- The clock is read by the purge and for the request.
unfoldable pub status : ℕ → ℕ → String → DualApprovalGate → Status × DualApprovalGate
status t₁ t₂ action_id before =
    let gate = purge_expired t₁ before in
    let nothing : Status = record {
      action_id = action_id;
      requires_dual_approval = requires_dual_approval action_id;
      pending_request = false;
      grant_available = false;
      nonce = "";
    } in
    let shown : Status = elim (lookup action_id gate.pending) [
      | none ↦ nothing
      | some req ↦ if request_is_expired req t₂ then nothing else record nothing {
        pending_request = true;
        grant_available = contains req.nonce gate.grants;
        nonce = req.nonce;
      }
    ] in
    (shown, gate)
