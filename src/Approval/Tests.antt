-- ===== src/Approval/Tests.antt =====
-- The gate on one request, its grant, and its use.
use phantasm.Base.{
  ◌+◌, ◌*◌, ◌≤◌, ◌≡◌, refl, String, true, List, [], ◌∷◌, if◌then◌else◌, leb, str_eq, arith,
}
use phantasm.Base.Except.{ok, err}
use phantasm.Base.Dict.{lookup, insert, erase, contains}
use phantasm.Approval.{
  second, DualApprovalGate, RoleStore, key_error, initial, requires_dual_approval,
  find_request_by_nonce, request, grant, consume, purge_expired, expired_actions, expired_grants,
  drop_actions, drop_grants, request_is_expired, grant_is_expired,
}
use phantasm.Approval.SingleUse.{
  Call, requests, grants, consumes, total, used, signed_off, used-signed_off,
}
use phantasm.Approval.Deadlines.{consume_deadline}

abbrev supervisor : RoleStore
supervisor = record { is_configured = true; verified = λ pass. str_eq pass "sesame" }

abbrev clearing : String
clearing = "clear_local_access_path"

abbrev request_pending : DualApprovalGate
request_pending = record {
  pending =
      (
        clearing,
        record { action_id = clearing; nonce = "07"; created_at = 5 * second; ttl_seconds = 300 },
      )
      ∷ [];
  grants = [];
}

abbrev grant_pending : DualApprovalGate
grant_pending = record request_pending {
  grants =
      (
        "07",
        record { action_id = clearing; nonce = "07"; granted_at = 20 * second; ttl_seconds = 60 },
      )
      ∷ [];
}

abbrev twice : List Call
twice =
    requests 1 2 3 "07" clearing
    ∷ grants 4 5 6 "07" "sesame" supervisor
    ∷ consumes 7 8 clearing "07"
    ∷ consumes 9 10 clearing "07"
    ∷ []

used-signed_off_example : total (used "07") twice initial ≤ total (signed_off "07") twice initial
used-signed_off_example = used-signed_off "07" twice

used-twice : total (used "07") twice initial ≡ 1
unfolding request grant consume contains lookup insert erase requires_dual_approval purge_expired
    expired_actions expired_grants drop_actions drop_grants find_request_by_nonce request_is_expired
    grant_is_expired
used-twice = refl

consume_deadline_example :
    (consume
      (310 * second)
      (310 * second)
      clearing
      "07"
      (grant
        (290 * second)
        (290 * second)
        (290 * second)
        "07"
        "sesame"
        supervisor
        (request (5 * second) (5 * second) (5 * second) "07" clearing initial).1).1).0
    ≡ (if leb (310 * second) (5 * second + 300 * second)
        then ok (record {
          ok = true;
          reason = "consumed";
          message = "Authorization used. Action may proceed.";
          nonce = "";
        })
        else err (key_error "07"))
unfolding requires_dual_approval
consume_deadline_example =
    consume_deadline (5 * second) (290 * second) (310 * second) "07" clearing "sesame" supervisor
      refl refl refl (omega arith) (omega arith)
