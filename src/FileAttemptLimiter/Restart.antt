-- ===== src/FileAttemptLimiter/Restart.antt =====
-- The counts outlive the process: what a new limiter finds in the store that an old one wrote.
use phantasm.Base.{
  ℕ, zero, suc, ◌+◌, ◌-◌, ◌≡◌, refl, ap, sym, ◌∙◌, String, true, false, ◌&&◌, [], ◌∷◌, ltb, leb,
  if◌then◌else◌, arith, ◌⊎◌, inl, inr,
}
use phantasm.Base.Dict.{Dict}
use phantasm.Base.Except.{Result, ok, err}
use phantasm.AttemptLimiter as Memory
use phantasm.AttemptLimiter.{AttemptState, AttemptDecision, AttemptLimiter, state_of}
use phantasm.AttemptLimiter.Lockout.{fail_times, limits-fail_times, untried, check-fail_times}
use phantasm.StateStore.{
  File, Builtins, initialized, uninitialized, read_record, write_record, allowed_transitions,
}
use phantasm.StateStore.Phases.{allowed, read_record-write_record}
use phantasm.FileAttemptLimiter.{
  states, restored, Attributes, Raised, FileAttemptLimiter, attempts_record, load, save, forget,
  check, record_failure,
}

restored-states : (d : Dict AttemptState) → restored (states d) ≡ ok d
restored-states [] = refl
restored-states ((scope, s) ∷ d) = rw (restored-states d) refl

module _ {A O : Type 0} (builtins : Builtins A O) (attributes : Attributes A) where
  -- The store is new, or holds a record of the limiter.
  unfoldable pub Usable : File A O → Type 0
  Usable store =
      ((read_record builtins store).phase ≡ uninitialized)
      ⊎ ((read_record builtins store).phase ≡ initialized)

  Usable-allowed :
      (d : Dict AttemptState) (store : File A O)
      → Usable store
      → allowed builtins (attempts_record builtins attributes d) store ≡ true
  unfolding Usable allowed_transitions
  Usable-allowed d store (inl fresh) = ground (arith, fresh)
  Usable-allowed d store (inr used) = ground (arith, used)

  -- A save to a usable store returns, leaves it usable, and a limiter that is made with the same limits
  -- has the counts that were saved.
  save-load :
      (now : ℕ) (f : FileAttemptLimiter A O)
      → Usable f.store
      → (store : File A O) × (save builtins attributes now f ≡ (ok tt, record f { store = store }))
        × Usable store
        × ((l : AttemptLimiter)
            → load builtins attributes l store
              ≡ ok (record { limiter = record l { state = f.limiter.state }; store = store }))
  unfolding save load Usable
  save-load now f usable =
      let r = attempts_record builtins attributes f.limiter.state in
      let store = (write_record builtins now r f.store).1 in
      let (done, found) =
        (read_record-write_record builtins now r f.store).0
          (Usable-allowed f.limiter.state f.store usable) in
      (
        store,
        ground (arith, done),
        inr (ap (λ x. x.phase) found),
        λ l. ground (
          arith,
          found,
          attributes.attempts_of-attempts f.limiter.state,
          restored-states f.limiter.state,
        ),
      )

  -- One process that loads the limiter, and counts one failure
  abbrev fail_in_process :
      AttemptLimiter → String → ℕ → File A O → Result Raised (Unit {0}) × File A O
  fail_in_process l scope now store = elim (load builtins attributes l store) [
    | err e ↦ (err e, store)
    | ok f ↦ let (r, after) = record_failure builtins attributes scope now f in (r, after.store)
  ]

  -- The store after n processes, each of which fails once, at the times that `clock` gives
  abbrev pub fail_processes : ℕ → (ℕ → ℕ) → String → AttemptLimiter → File A O → File A O
  fail_processes zero clock scope l store = store
  fail_processes (suc n) clock scope l store =
      (fail_in_process l scope (clock n) (fail_processes n clock scope l store)).1

  fail_times_limits :
      (n : ℕ) (clock : ℕ → ℕ) (scope : String) (l : AttemptLimiter)
      → record l { state = (fail_times n clock scope l).state } ≡ fail_times n clock scope l
  fail_times_limits n clock scope l =
      let (m, t) = limits-fail_times n clock scope l in
      λ i. record {
        max_failures = sym m i;
        lockout_seconds = sym t i;
        state = (fail_times n clock scope l).state;
      }

  processes-fail_times :
      (n : ℕ) (clock : ℕ → ℕ) (scope : String) (l : AttemptLimiter) (store : File A O)
      → Usable store
      → load builtins attributes l store ≡ ok (record { limiter = l; store = store })
      → let after = fail_processes n clock scope l store in
        Usable after
        × (load builtins attributes l after
            ≡ ok (record { limiter = fail_times n clock scope l; store = after }))
  unfolding record_failure
  processes-fail_times zero clock scope l store usable loaded = (usable, loaded)
  processes-fail_times (suc n) clock scope l store usable loaded =
      let before = fail_processes n clock scope l store in
      let (usable_before, loaded_before) =
        processes-fail_times n clock scope l store usable loaded in
      let counted = fail_times (suc n) clock scope l in
      let (after, saved, usable_after, loads) =
        save-load (clock n) (record { limiter = counted; store = before }) usable_before in
      let same : (fail_in_process l scope (clock n) before).1 ≡ after =
        ground (arith, loaded_before, saved) in
      rw same (
        usable_after,
        loads l
            ∙ ap (λ x. ok (record { limiter = x; store = after }))
                (fail_times_limits (suc n) clock scope l),
      )

  check_memory :
      (scope : String) (now : ℕ) (f : FileAttemptLimiter A O)
      → Usable f.store
      → (check builtins attributes scope now f).0 ≡ ok (Memory.check f.limiter scope now).0
  unfolding check forget Memory.check
  check_memory scope now f usable =
      let (after, saved, usable_after, loads) =
        save-load now (record f { limiter = Memory.forget f.limiter scope }) usable in
      ground (arith, saved)

  -- n + 1 failures, each counted by a process of its own that begins from the store, over a store that is
  -- new or the limiter's, where the scope has none: the next process lets an attempt at `now` through
  -- exactly if the failures are fewer than the limit or the lockout that began with the last failure is
  -- over.
  pub check-fail_processes :
      (n : ℕ) (clock : ℕ → ℕ) (scope : String) (l : AttemptLimiter) (store : File A O) (now : ℕ)
      → Usable store
      → load builtins attributes l store ≡ ok (record { limiter = l; store = store })
      → state_of l scope ≡ untried
      → (f : FileAttemptLimiter A O) × (load builtins attributes l
            (fail_processes (suc n) clock scope l store)
          ≡ ok f)
        × ((check builtins attributes scope now f).0
            ≡ ok (
                if leb l.max_failures (suc n) && ltb now (clock n + l.lockout_seconds)
                then record { allowed = false; wait_seconds = clock n + l.lockout_seconds - now }
                else record { allowed = true; wait_seconds = 0 }))
  check-fail_processes n clock scope l store now usable loaded fresh =
      let after = fail_processes (suc n) clock scope l store in
      let (usable_after, loaded_after) =
        processes-fail_times (suc n) clock scope l store usable loaded in
      let f : FileAttemptLimiter A O = record {
        limiter = fail_times (suc n) clock scope l;
        store = after;
      } in
      (
        f,
        loaded_after,
        check_memory scope now f usable_after ∙ ap ok (check-fail_times n clock scope l now fresh),
      )
