-- ===== src/AttemptLimiter/Lockout.antt =====
-- When an attempt is let through, and when not.
use phantasm.Base.{
  ℕ, zero, suc, ◌+◌, ◌-◌, ◌≤◌, ◌<◌, ◌&&◌, ltb, leb, if◌then◌else◌, ap, ◌≡◌, ◌≢◌, refl, String, true,
  false, arith, eq_iff, eq_refl,
}
use phantasm.Base.Dict.{lookup-insert, lookup-erase}
use phantasm.AttemptLimiter.{
  AttemptState, AttemptLimiter, state_of, forget, check, record_failure, record_success,
}

-- n failures in a row at the times that `clock` gives
abbrev pub fail_times : ℕ → (ℕ → ℕ) → String → AttemptLimiter → AttemptLimiter
fail_times zero clock scope l = l
fail_times (suc n) clock scope l = record_failure (fail_times n clock scope l) scope (clock n)

abbrev pub untried : AttemptState
untried = record { failures = 0; locked_until = 0 }

abbrev blocks : ℕ → ℕ → ℕ → ℕ → ℕ
blocks max_failures failures at lockout = if leb max_failures failures then at + lockout else 0

state_of-record_failure :
    (l : AttemptLimiter) (scope : String) (now : ℕ)
    → state_of (record_failure l scope now) scope ≡ record {
      failures = (state_of l scope).failures + 1;
      locked_until = blocks l.max_failures ((state_of l scope).failures + 1) now l.lockout_seconds;
    }
unfolding state_of record_failure
state_of-record_failure l scope now = simp (lookup-insert, eq_refl)

pub limits-fail_times :
    (n : ℕ) (clock : ℕ → ℕ) (scope : String) (l : AttemptLimiter)
    → ((fail_times n clock scope l).max_failures ≡ l.max_failures)
      × ((fail_times n clock scope l).lockout_seconds ≡ l.lockout_seconds)
unfolding record_failure
limits-fail_times zero clock scope l = (refl, refl)
limits-fail_times (suc n) clock scope l = limits-fail_times n clock scope l

failures-fail_times :
    (n : ℕ) (clock : ℕ → ℕ) (scope : String) (l : AttemptLimiter)
    → (state_of (fail_times n clock scope l) scope).failures ≡ (state_of l scope).failures + n
failures-fail_times zero clock scope l = omega arith
failures-fail_times (suc n) clock scope l =
    rw (state_of-record_failure (fail_times n clock scope l) scope (clock n))
      (omega (arith, failures-fail_times n clock scope l))

check_lem :
    (l : AttemptLimiter) (scope : String) (now : ℕ)
    → (check l scope now).0 ≡ (
        if ltb now (state_of l scope).locked_until
        then record { allowed = false; wait_seconds = (state_of l scope).locked_until - now }
        else record { allowed = true; wait_seconds = 0 })
unfolding check
check_lem l scope now = ground arith

-- After n + 1 failures in a row in a scope that had none, the last at the time `clock n`, an attempt
-- at `now` is let through exactly if the failures are fewer than the limit or the lockout that
-- began with the last failure is over; and if not, the answer says how many seconds are left.
pub check-fail_times :
    (n : ℕ) (clock : ℕ → ℕ) (scope : String) (l : AttemptLimiter) (now : ℕ)
    → state_of l scope ≡ untried
    → (check (fail_times (suc n) clock scope l) scope now).0 ≡ (
        if leb l.max_failures (suc n) && ltb now (clock n + l.lockout_seconds)
        then record { allowed = false; wait_seconds = clock n + l.lockout_seconds - now }
        else record { allowed = true; wait_seconds = 0 })
check-fail_times n clock scope l now fresh =
    let before = fail_times n clock scope l in
    let (m, s) = limits-fail_times n clock scope l in
    let count : (state_of before scope).failures + 1 ≡ suc n =
      omega
        (arith, failures-fail_times n clock scope l, ap (λ (x : AttemptState). x.failures) fresh) in
    rw
      (
        check_lem (record_failure before scope (clock n)) scope now,
        state_of-record_failure before scope (clock n),
      )
      (rw (count, m, s) (ground arith))

check-over :
    (l : AttemptLimiter) (scope : String) (now : ℕ)
    → 0 < (state_of l scope).locked_until
    → (state_of l scope).locked_until ≤ now
    → (check l scope now).1 ≡ forget l scope
unfolding check
check-over l scope now locked over = ground arith

state_of-forget : (l : AttemptLimiter) (scope : String) → state_of (forget l scope) scope ≡ untried
unfolding state_of forget
state_of-forget l scope = simp (lookup-erase, eq_refl)

-- A lockout that is over is forgotten by the next check: the attempt is let through, and the scope
-- has no failures left, so that it takes the full number of them to lock it again.
pub check_served :
    (l : AttemptLimiter) (scope : String) (now : ℕ)
    → 0 < (state_of l scope).locked_until
    → (state_of l scope).locked_until ≤ now
    → ((check l scope now).0 ≡ record { allowed = true; wait_seconds = 0 })
      × (state_of (check l scope now).1 scope ≡ untried)
check_served l scope now locked over = (
  rw (check_lem l scope now) (ground arith),
  rw (ap (λ x. state_of x scope) (check-over l scope now locked over)) (state_of-forget l scope),
)

-- What is done in one scope, whichever method it is, leaves the state of every other scope alone.
pub scopes_apart :
    (l : AttemptLimiter) (scope other : String) (now : ℕ)
    → scope ≢ other
    → (state_of (check l scope now).1 other ≡ state_of l other)
      × (state_of (record_failure l scope now) other ≡ state_of l other)
      × (state_of (record_success l scope) other ≡ state_of l other)
unfolding state_of check forget record_failure record_success
scopes_apart l scope other now ne = grind (arith, lookup-insert, lookup-erase, eq_iff scope other)
