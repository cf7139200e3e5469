-- ===== src/FileAttemptLimiter/Tests.antt =====
-- Three processes that fail, over a new store whose attributes are the counts.
use phantasm.Base.{
  ℕ, ◌+◌, ◌-◌, ◌≡◌, refl, String, true, false, ◌&&◌, Option, none, some, [], ltb, leb,
  if◌then◌else◌, inl,
}
use phantasm.Base.Dict.{Dict, lookup}
use phantasm.Base.Except.{ok}
use phantasm.AttemptLimiter.{AttemptState, AttemptLimiter, state_of}
use phantasm.StateStore.{
  Integer, nonnegative, Value, integer, text, dict, other, absent, Builtins, read_record,
}
use phantasm.FileAttemptLimiter.{mapping, states, Attributes, FileAttemptLimiter, load, check}
use phantasm.FileAttemptLimiter.Restart.{Usable, fail_processes, check-fail_processes}

abbrev int : Value (Dict AttemptState) ℕ → Option Integer
int (integer i) = some i
int (text s) = none
int (dict a) = none
int (other o) = some (nonnegative o)

abbrev str : Value (Dict AttemptState) ℕ → String
str (text s) = s
str _ = "value"

abbrev builtins : Builtins (Dict AttemptState) ℕ
builtins = record {
  int = int;
  str = str;
  int_integer = λ i. refl;
  str_text = λ s. refl;
  no_attributes = [];
}

abbrev attributes : Attributes (Dict AttemptState)
attributes = record {
  attempts = λ d. d;
  attempts_of = λ d. mapping (states d);
  attempts_of-attempts = λ d. refl;
}

abbrev limits : AttemptLimiter
limits = record { max_failures = 3; lockout_seconds = 60; state = [] }

check-fail_processes_example :
    (f : FileAttemptLimiter (Dict AttemptState) ℕ) × (load builtins attributes limits
        (fail_processes builtins attributes 3 (λ k. 100 + k) "cli" limits absent)
      ≡ ok f)
    × ((check builtins attributes "cli" 120 f).0
        ≡ ok (
            if leb limits.max_failures 3 && ltb 120 (100 + 2 + limits.lockout_seconds)
            then record { allowed = false; wait_seconds = 100 + 2 + limits.lockout_seconds - 120 }
            else record { allowed = true; wait_seconds = 0 }))
unfolding load read_record Usable state_of lookup
check-fail_processes_example =
    check-fail_processes builtins attributes 2 (λ k. 100 + k) "cli" limits absent 120 (inl refl)
      refl refl
