-- ===== src/AttemptLimiter.antt =====
-- attempt_limiter.py: failures counted by scope, and a lockout once there are too many. The methods of
-- `AttemptLimiter` are run under the clock's reading, in whole seconds.
pub mod Lockout
mod Tests
use phantasm.Base.{
  ℕ, zero, suc, ◌+◌, ◌-◌, String, Bool, true, false, not, Option, none, some, [], ltb, leb, ◌==◌,
  if◌then◌else◌,
}
use phantasm.Base.Dict.{Dict, lookup, insert, erase}

pub record AttemptState : Type 0 where
  pub failures : ℕ
  pub locked_until : ℕ

pub record AttemptDecision : Type 0 where
  pub allowed : Bool
  pub wait_seconds : ℕ

pub record AttemptLimiter : Type 0 where
  pub max_failures : ℕ
  pub lockout_seconds : ℕ
  pub state : Dict AttemptState

abbrev or_new : Option AttemptState → AttemptState
or_new none = record { failures = 0; locked_until = 0 }
or_new (some state) = state

-- `self._state.get(scope, AttemptState())`
unfoldable pub state_of : AttemptLimiter → String → AttemptState
state_of l scope = or_new (lookup scope l.state)

-- A `max_failures` or `lockout_seconds` of None or 0 falls back to the configuration's.
or_config : Option ℕ → ℕ → ℕ
or_config none config = config
or_config (some zero) config = config
or_config (some (suc n)) config = suc n

unfoldable pub new : Option ℕ → Option ℕ → ℕ → ℕ → AttemptLimiter
unfolding or_config
new max_failures lockout_seconds access_max_failures access_lockout_seconds = record {
  max_failures = or_config max_failures access_max_failures;
  lockout_seconds = or_config lockout_seconds access_lockout_seconds;
  state = [];
}

unfoldable pub forget : AttemptLimiter → String → AttemptLimiter
forget l scope = record l { state = erase scope l.state }

unfoldable pub check : AttemptLimiter → String → ℕ → AttemptDecision × AttemptLimiter
unfolding state_of
check l scope now =
    let state = state_of l scope in
    if ltb now state.locked_until
    then (record { allowed = false; wait_seconds = state.locked_until - now }, l)
    else (
      record { allowed = true; wait_seconds = 0 },
      if not (state.locked_until == 0) then forget l scope else l,
    )

unfoldable pub record_failure : AttemptLimiter → String → ℕ → AttemptLimiter
unfolding state_of
record_failure l scope now =
    let failures = (state_of l scope).failures + 1 in
    let locked_until = if leb l.max_failures failures then now + l.lockout_seconds else 0 in
    record l {
      state = insert scope (record { failures = failures; locked_until = locked_until }) l.state;
    }

unfoldable pub record_success : AttemptLimiter → String → AttemptLimiter
record_success l scope = record l { state = erase scope l.state }
