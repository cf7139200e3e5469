-- ===== src/Approval/Purge.antt =====
-- What `_purge_expired` does to the grants of a nonce.
use phantasm.Base.{ℕ, suc, ◌≤◌, ◌≡◌, String, none, some, List, [], ◌∷◌, arith, eq_refl, eq_iff}
use phantasm.Base.Dict.{Dict, lookup, insert, erase, lookup-erase, lookup-insert}
use phantasm.Approval.{
  ApprovalGrant, DualApprovalGate, drop_action, drop_actions, drop_grants, expired_actions,
  expired_grants, purge_expired,
}

-- 1 if the nonce has a grant, 0 if not
abbrev pub held_in : String → Dict ApprovalGrant → ℕ
held_in n d = elim (lookup n d) [ none ↦ 0 | some _ ↦ 1 ]

abbrev pub held : String → DualApprovalGate → ℕ
held n gate = held_in n gate.grants

pub held-erase : (n k : String) (d : Dict ApprovalGrant) → held_in n (erase k d) ≤ held_in n d
held-erase n k d = ground (arith, lookup-erase k n d)

pub held-erase_self : (n : String) (d : Dict ApprovalGrant) → held_in n (erase n d) ≡ 0
held-erase_self n d = ground (arith, lookup-erase n n d, eq_refl n)

pub held-insert :
    (n k : String) (g : ApprovalGrant) (d : Dict ApprovalGrant)
    → held_in n (insert k g d) ≤ suc (held_in n d)
held-insert n k g d = ground (arith, lookup-insert k n g d)

held-drop_action :
    (n aid : String) (gate : DualApprovalGate) → held n (drop_action aid gate) ≤ held n gate
unfolding drop_action
held-drop_action n aid gate = grind (arith, lookup-erase, eq_iff)

held-drop_actions :
    (n : String) (aids : List String) (gate : DualApprovalGate)
    → held n (drop_actions aids gate) ≤ held n gate
unfolding drop_actions
held-drop_actions n [] gate = omega arith
held-drop_actions n (aid ∷ aids) gate =
    ground (arith, held-drop_action n aid gate, held-drop_actions n aids (drop_action aid gate))

held-drop_grants :
    (n : String) (ns : List String) (d : Dict ApprovalGrant)
    → held_in n (drop_grants ns d) ≤ held_in n d
unfolding drop_grants
held-drop_grants n [] d = omega arith
held-drop_grants n (k ∷ ns) d = ground (arith, held-erase n k d, held-drop_grants n ns (erase k d))

-- A nonce without a grant has none after the purge.
pub held-purge_expired :
    (now : ℕ) (n : String) (gate : DualApprovalGate) → held n (purge_expired now gate) ≤ held n gate
unfolding purge_expired
held-purge_expired now n gate =
    let left = drop_actions (expired_actions now gate.pending) gate in
    ground (
      arith,
      held-drop_actions n (expired_actions now gate.pending) gate,
      held-drop_grants n (expired_grants now left.grants) left.grants,
    )
