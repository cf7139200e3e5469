-- ===== src/Standby.antt =====
-- standby_state.py: the state machine that takes the sensitive screens away. The lock makes each
-- method one step; two writes under it are two changes of the state.
mod Trace
mod History
mod Tests
use phantasm.Base.{ℕ, Bool, ◌||◌}
use phantasm.Base.Except.{Method, gets, require, modify, ◌>>=◌, ◌>>◌}

pub data StandbyState : Type 0 where
  active : StandbyState
  standby : StandbyState
  sealed : StandbyState
  dummy_disclosure : StandbyState

pub data InvalidTransitionError : Type 0 where
  invalid_transition : StandbyState → InvalidTransitionError

abbrev code : StandbyState → ℕ
code active = 0
code standby = 1
code sealed = 2
code dummy_disclosure = 3

abbrev pub same_state : StandbyState → StandbyState → Bool
same_state s t = phantasm.Base.◌==◌ (code s) (code t)

pub record StandbyStateMachine : Type 0 where
  pub state : StandbyState

unfoldable pub initial : StandbyStateMachine
initial = record { state = active }

abbrev pub Standby : Type 0 → Type 0
Standby A = Method StandbyStateMachine InvalidTransitionError A

-- `if self._state != s: raise InvalidTransitionError`
abbrev must_be : StandbyState → Standby (Unit {0})
must_be s = gets (λ (m : StandbyStateMachine). m.state) >>= λ t.
    require (same_state t s) (invalid_transition t)

abbrev set_state : StandbyState → Standby (Unit {0})
set_state s = modify (λ m. record m { state = s })

unfoldable pub trigger_standby : Standby (Unit {0})
trigger_standby = must_be active >> set_state standby >> set_state sealed

unfoldable pub recover : Standby (Unit {0})
recover = must_be sealed >> set_state active

unfoldable pub enter_dummy_disclosure : Standby (Unit {0})
enter_dummy_disclosure = must_be sealed >> set_state dummy_disclosure

unfoldable pub seal_dummy : Standby (Unit {0})
seal_dummy = must_be dummy_disclosure >> set_state sealed

unfoldable pub is_active : StandbyStateMachine → Bool
is_active m = same_state m.state active

unfoldable pub is_sealed : StandbyStateMachine → Bool
is_sealed m = same_state m.state sealed

unfoldable pub is_in_standby_or_sealed : StandbyStateMachine → Bool
is_in_standby_or_sealed m = same_state m.state standby || same_state m.state sealed

unfoldable pub is_dummy_disclosure : StandbyStateMachine → Bool
is_dummy_disclosure m = same_state m.state dummy_disclosure
