-- ===== src/Approval/SingleUse.antt =====
-- How often a grant can be used, and by whose word it is there.
use phantasm.Base.{
  ap, ℕ, ◌+◌, ◌≤◌, ◌≡◌, String, Bool, true, false, List, [], ◌∷◌, ◌&&◌, str_eq, arith, eq_iff,
}
use phantasm.Base.Dict.{lookup, contains, lookup-insert, lookup-erase}
use phantasm.Base.Except.{Result, ok, err}
use phantasm.Approval.{
  ApprovalFlowResult, DualApprovalGate, RoleStore, Raised, initial, purge_expired, request, grant,
  consume, status,
}
use phantasm.Approval.Purge.{held, held_in, held-purge_expired}

-- A call of the gate with what it reads of the clock, of the random source and of the role store
pub data Call : Type 0 where
  requests : ℕ → ℕ → ℕ → String → String → Call
  grants : ℕ → ℕ → ℕ → String → String → RoleStore → Call
  consumes : ℕ → ℕ → String → String → Call
  looks : ℕ → ℕ → String → Call

abbrev pub after : Call → DualApprovalGate → DualApprovalGate
after (requests t₁ t₂ t₃ fresh action) gate = (request t₁ t₂ t₃ fresh action gate).1
after (grants t₁ t₂ t₃ nonce pass store) gate = (grant t₁ t₂ t₃ nonce pass store gate).1
after (consumes t₁ t₂ action nonce) gate = (consume t₁ t₂ action nonce gate).1
after (looks t₁ t₂ action) gate = (status t₁ t₂ action gate).1

abbrev pub counted : Bool → ℕ
counted false = 0
counted true = 1

abbrev pub succeeds : Result Raised ApprovalFlowResult → Bool
succeeds (ok r) = r.ok
succeeds (err e) = false

-- 1 if the call grants the nonce, and the role store of the call is configured and verifies its passphrase
abbrev pub signed_off : String → Call → DualApprovalGate → ℕ
signed_off n (requests t₁ t₂ t₃ fresh action) gate = 0
signed_off n (grants t₁ t₂ t₃ nonce pass store) gate = counted (
    str_eq nonce n
    && (store.is_configured
        && (store.verified pass && (grant t₁ t₂ t₃ nonce pass store gate).0.ok)))
signed_off n (consumes t₁ t₂ action nonce) gate = 0
signed_off n (looks t₁ t₂ action) gate = 0

-- 1 if the call consumes the nonce with success
abbrev pub used : String → Call → DualApprovalGate → ℕ
used n (requests t₁ t₂ t₃ fresh action) gate = 0
used n (grants t₁ t₂ t₃ nonce pass store) gate = 0
used n (consumes t₁ t₂ action nonce) gate =
    counted (str_eq nonce n && succeeds (consume t₁ t₂ action nonce gate).0)
used n (looks t₁ t₂ action) gate = 0

abbrev pub total : (Call → DualApprovalGate → ℕ) → List Call → DualApprovalGate → ℕ
total f [] gate = 0
total f (c ∷ cs) gate = f c gate + total f cs (after c gate)

request_grants :
    (t₁ t₂ t₃ : ℕ) (fresh action : String) (gate : DualApprovalGate)
    → (request t₁ t₂ t₃ fresh action gate).1.grants ≡ (purge_expired t₁ gate).grants
unfolding request
request_grants t₁ t₂ t₃ fresh action gate = ground arith

grant_balance :
    (n : String) (t₁ t₂ t₃ : ℕ) (nonce pass : String) (store : RoleStore) (gate : DualApprovalGate)
    → held n (after (grants t₁ t₂ t₃ nonce pass store) gate)
      ≤ held n gate + signed_off n (grants t₁ t₂ t₃ nonce pass store) gate
unfolding grant
grant_balance n t₁ t₂ t₃ nonce pass store gate =
    grind (arith, lookup-insert, held-purge_expired t₁ n gate)

consume_balance :
    (n : String) (t₁ t₂ : ℕ) (action nonce : String) (gate : DualApprovalGate)
    → held n (after (consumes t₁ t₂ action nonce) gate) + used n (consumes t₁ t₂ action nonce) gate
      ≤ held n gate
unfolding consume contains
consume_balance n t₁ t₂ action nonce gate = ground (
  arith,
  held-purge_expired t₁ n gate,
  lookup-erase nonce n (purge_expired t₁ gate).grants,
  eq_iff nonce n,
)

balance :
    (n : String) (c : Call) (gate : DualApprovalGate)
    → held n (after c gate) + used n c gate ≤ held n gate + signed_off n c gate
unfolding status
balance n (requests t₁ t₂ t₃ fresh action) gate =
    rw (ap (held_in n) (request_grants t₁ t₂ t₃ fresh action gate))
      (omega (arith, held-purge_expired t₁ n gate))
balance n (grants t₁ t₂ t₃ nonce pass store) gate =
    omega (arith, grant_balance n t₁ t₂ t₃ nonce pass store gate)
balance n (consumes t₁ t₂ action nonce) gate =
    omega (arith, consume_balance n t₁ t₂ action nonce gate)
balance n (looks t₁ t₂ action) gate = omega (arith, held-purge_expired t₁ n gate)

balance_total :
    (n : String) (cs : List Call) (gate : DualApprovalGate)
    → total (used n) cs gate ≤ held n gate + total (signed_off n) cs gate
balance_total n [] gate = omega arith
balance_total n (c ∷ cs) gate = ground (arith, balance n c gate, balance_total n cs (after c gate))

-- Whatever calls are made of a new gate, at whatever times, in whatever order, a nonce is consumed
-- with success at most as often as it was granted by a call whose role store was configured and
-- verified the passphrase that it was given.
pub used-signed_off :
    (n : String) (cs : List Call) → total (used n) cs initial ≤ total (signed_off n) cs initial
unfolding lookup
used-signed_off n cs = omega (arith, balance_total n cs initial)
