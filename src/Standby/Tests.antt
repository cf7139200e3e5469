-- ===== src/Standby/Tests.antt =====
-- The machine from its start.
use phantasm.Base.{[], ◌∷◌, true, false, ◌≡◌, refl, ◌⊎◌}
use phantasm.Base.Except.{ok, err}
use phantasm.Standby.{
  dummy_disclosure, invalid_transition, StandbyStateMachine, initial, trigger_standby, recover,
  enter_dummy_disclosure, seal_dummy, is_active,
}
use phantasm.Standby.Trace.{trigger, recovery, dummy, seal, call, run}
use phantasm.Standby.History.{is_allowed, call_returns_by_history}

abbrev shut : StandbyStateMachine
shut = record { state = dummy_disclosure }

call_returns_by_history_example :
    (((call trigger shut).0 ≡ ok tt) × (is_allowed trigger (dummy ∷ trigger ∷ []) ≡ true))
    ⊎ (((call trigger shut).0 ≡ err (invalid_transition dummy_disclosure))
        × ((call trigger shut).1 ≡ shut)
        × (is_allowed trigger (dummy ∷ trigger ∷ []) ≡ false))
unfolding initial trigger_standby recover enter_dummy_disclosure seal_dummy
call_returns_by_history_example =
    call_returns_by_history (seal ∷ trigger ∷ trigger ∷ dummy ∷ recovery ∷ []) trigger

pressed : is_active (run (trigger ∷ []) initial) ≡ false
unfolding initial is_active trigger_standby
pressed = refl
