-- ===== src/AttemptLimiter/Tests.antt =====
-- The lockout on a limiter of three failures and sixty seconds.
use phantasm.Base.{
  ℕ, zero, suc, ◌+◌, ◌-◌, ◌≤◌, ◌<◌, ◌≡◌, ◌≢◌, refl, ap, String, Bool, true, false, Option, none,
  some, arith, false≢true, str_eq,
}
use phantasm.AttemptLimiter.{AttemptLimiter, new, state_of, check}
use phantasm.AttemptLimiter.Lockout.{fail_times, check-fail_times}

abbrev minute : AttemptLimiter
unfolding new
minute = new (some 3) none 5 60

abbrev seconds : ℕ → ℕ
seconds n = 100 + n

check-fail_times_example :
    (check (fail_times 3 seconds "restore" minute) "restore" 110).0
    ≡ record { allowed = false; wait_seconds = 52 }
unfolding state_of phantasm.Base.Dict.lookup minute
check-fail_times_example = check-fail_times 2 seconds "restore" minute 110 refl

abbrev restore : String
restore = "restore"

restore_is_no_store : restore ≢ "store"
restore_is_no_store e = false≢true (ap (λ s. str_eq s "store") e)
