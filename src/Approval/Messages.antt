-- ===== src/Approval/Messages.antt =====
-- strings.py: the texts of the approval flow.
use phantasm.Base.{String}

abbrev pub dual_approval_not_enabled : String
dual_approval_not_enabled = "Dual authorization is not enabled for this action."

abbrev pub dual_approval_supervisor_not_configured : String
dual_approval_supervisor_not_configured = "Supervisor passphrase is not configured."

abbrev pub dual_approval_request_created : String
dual_approval_request_created =
    "Authorization request created. Supervisor must authorize within the time limit."

abbrev pub dual_approval_request_not_found : String
dual_approval_request_not_found = "No pending authorization request found for this action."

abbrev pub dual_approval_request_expired : String
dual_approval_request_expired = "Authorization request has expired. Request again."

abbrev pub dual_approval_grant_expired : String
dual_approval_grant_expired = "Authorization has expired. Request again."

abbrev pub dual_approval_wrong_passphrase : String
dual_approval_wrong_passphrase = "Authorization rejected: passphrase did not match."

abbrev pub dual_approval_granted : String
dual_approval_granted = "Authorization accepted."

abbrev pub dual_approval_consumed : String
dual_approval_consumed = "Authorization used. Action may proceed."

abbrev pub dual_approval_already_pending : String
dual_approval_already_pending = "An authorization request is already pending for this action."
