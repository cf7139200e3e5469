-- ===== src/Standby/Trace.antt =====
-- What calls of the machine's methods do to its state, one after the other.
use phantasm.Base.{arith, Bool, true, false, ◌||◌, List, [], ◌∷◌, ◌≡◌, refl}
use phantasm.Standby.{
  StandbyState, active, standby, sealed, dummy_disclosure, same_state, StandbyStateMachine, Standby,
  trigger_standby, recover, enter_dummy_disclosure, seal_dummy, is_active,
}

pub data Call : Type 0 where
  trigger : Call
  recovery : Call
  dummy : Call
  seal : Call

abbrev pub call : Call → Standby (Unit {0})
call trigger = trigger_standby
call recovery = recover
call dummy = enter_dummy_disclosure
call seal = seal_dummy

-- The calls in turn; the caller of one that raises goes on with the next.
abbrev pub run : List Call → StandbyStateMachine → StandbyStateMachine
run [] m = m
run (c ∷ cs) m = run cs (call c m).1

abbrev pub at : StandbyState → StandbyStateMachine
at s = record { state = s }

abbrev pub is_recovery : Call → Bool
is_recovery trigger = false
is_recovery recovery = true
is_recovery dummy = false
is_recovery seal = false

abbrev pub has_recovery : List Call → Bool
has_recovery [] = false
has_recovery (c ∷ cs) = is_recovery c || has_recovery cs

call-not_standby :
    (c : Call) (s : StandbyState)
    → same_state s standby ≡ false
    → same_state (call c (at s)).1.state standby ≡ false
unfolding trigger_standby recover enter_dummy_disclosure seal_dummy
call-not_standby trigger active = λ e. refl
call-not_standby trigger standby = λ e. e
call-not_standby trigger sealed = λ e. refl
call-not_standby trigger dummy_disclosure = λ e. refl
call-not_standby recovery active = λ e. refl
call-not_standby recovery standby = λ e. e
call-not_standby recovery sealed = λ e. refl
call-not_standby recovery dummy_disclosure = λ e. refl
call-not_standby dummy active = λ e. refl
call-not_standby dummy standby = λ e. e
call-not_standby dummy sealed = λ e. refl
call-not_standby dummy dummy_disclosure = λ e. refl
call-not_standby seal active = λ e. refl
call-not_standby seal standby = λ e. e
call-not_standby seal sealed = λ e. refl
call-not_standby seal dummy_disclosure = λ e. refl

-- The state `standby` is passed through and never left behind: after any calls on a machine that is
-- not in it, whether they return or raise, the machine is not in it.
pub run-not_standby :
    (cs : List Call) (m : StandbyStateMachine)
    → same_state m.state standby ≡ false
    → same_state (run cs m).state standby ≡ false
run-not_standby [] m ne = ne
run-not_standby (c ∷ cs) m ne = run-not_standby cs (call c m).1 (call-not_standby c m.state ne)

call-not_active :
    (c : Call) (s : StandbyState)
    → is_active (at s) ≡ false
    → is_recovery c ≡ false
    → is_active (call c (at s)).1 ≡ false
unfolding trigger_standby recover enter_dummy_disclosure seal_dummy is_active
call-not_active trigger active = λ e r. refl
call-not_active trigger standby = λ e r. refl
call-not_active trigger sealed = λ e r. refl
call-not_active trigger dummy_disclosure = λ e r. refl
call-not_active recovery active = λ e r. e
call-not_active recovery standby = λ e r. refl
call-not_active recovery sealed = λ e r. r
call-not_active recovery dummy_disclosure = λ e r. refl
call-not_active dummy active = λ e r. e
call-not_active dummy standby = λ e r. refl
call-not_active dummy sealed = λ e r. refl
call-not_active dummy dummy_disclosure = λ e r. refl
call-not_active seal active = λ e r. e
call-not_active seal standby = λ e r. refl
call-not_active seal sealed = λ e r. refl
call-not_active seal dummy_disclosure = λ e r. refl

-- Once the sensitive screens are away, nothing but a recovery brings them back: from a state that
-- is not `active`, calls among which no `recover` is leave the machine not active.
pub run-not_active :
    (cs : List Call) (m : StandbyStateMachine)
    → is_active m ≡ false
    → has_recovery cs ≡ false
    → is_active (run cs m) ≡ false
run-not_active [] m away none_recovers = away
run-not_active (c ∷ cs) m away none_recovers =
    ground (arith, call-not_active c m.state, run-not_active cs (call c m).1)
