-- ===== src/Roles/Signing.antt =====
-- The dual approval gate (approval_flow.py) with the stored supervisor (roles.py): who can sign off.
use phantasm.Base.{
  ◌+◌, ◌*◌, ◌≡◌, ℕ, String, Bool, true, false, ◌&&◌, Option, none, some, Bytes, length, leb,
  bytes_eq, arith,
}
use phantasm.Base.Except.{Result, ok, err}
use phantasm.Platform.{Platform}
use phantasm.LocalState.{Files, Secrets}
use phantasm.LocalState.RoundTrip.{files}
use phantasm.Storage.{Error}
use phantasm.Approval.{second, DualApprovalGate, RoleStore, find_request_by_nonce, grant}
use phantasm.Approval.Deadlines.{grant_ok_iff}
use phantasm.Roles.{
  Codec, RoleVerificationResult, hash, verify_supervisor, configure_supervisor, is_configured,
  clear,
}
use phantasm.Roles.Supervisor.{Checks, configure_supervisor-Checks, clear_forgets}

abbrev is_verified : Result Error RoleVerificationResult → Bool
is_verified (ok r) = r.verified
is_verified (err e) = false

module _ (env : Platform) (secrets : Secrets) (codec : Codec) where
  -- The role store that the gate is handed, at these files
  unfoldable pub role_store : Files → RoleStore
  role_store s = record {
    is_configured = is_configured s;
    verified = λ passphrase. is_verified (verify_supervisor env secrets codec passphrase s).0;
  }

  -- A request that is pending under this nonce and not over at `t`
  abbrev pub timely : ℕ → String → DualApprovalGate → Bool
  timely t nonce gate = elim (find_request_by_nonce nonce gate.pending) [
    | none ↦ false
    | some req ↦ leb t (req.created_at + req.ttl_seconds * second)
  ]

  -- Once a passphrase is stored, a grant for a request is given exactly if the request is timely at the
  -- second reading of the clock and the hash of the candidate, under the stored salt, is that of the
  -- passphrase; once the store is cleared, none is given.
  pub grant_signed :
      (passphrase candidate nonce : String) (t₁ t₂ t₃ : ℕ) (gate : DualApprovalGate)
      (o b : Option Bytes) (d : ℕ)
      → leb (length (codec.utf8 passphrase)) 0 ≡ false
      → ((grant t₁ t₂ t₃ nonce candidate
            (role_store (configure_supervisor env secrets codec true passphrase (files o b d)).1)
            gate).0.ok
          ≡ (timely t₂ nonce gate
              && bytes_eq
                  (hash env secrets codec candidate (env.rng.urandom d 32))
                  (hash env secrets codec passphrase (env.rng.urandom d 32))))
        × ((s : Files)
            → (grant t₁ t₂ t₃ nonce candidate
                (role_store (clear env secrets codec true true s).1)
                gate).0.ok
              ≡ false)
  unfolding role_store Checks
  grant_signed passphrase candidate nonce t₁ t₂ t₃ gate o b d given =
      let (s, stored, there, checks) =
        configure_supervisor-Checks env secrets codec passphrase o b d given in
      let store = (configure_supervisor env secrets codec true passphrase (files o b d)).1 in
      (
        ground (
          arith,
          grant_ok_iff t₁ t₂ t₃ nonce candidate (role_store store) gate,
          stored,
          there,
          checks candidate,
        ),
        λ cleared. ground (
          arith,
          grant_ok_iff t₁ t₂ t₃ nonce candidate
              (role_store (clear env secrets codec true true cleared).1) gate,
          (clear_forgets env secrets codec cleared candidate).1,
        ),
      )
