-- ===== src/StateStore/Phases.antt =====
-- The round trip of a record and the ways of its phase.
use phantasm.Base.{ℕ, ◌≡◌, refl, ap, ◌∙◌, Bool, true, false, ◌||◌, some, List, [], ◌∷◌, arith}
use phantasm.Base.Dict.{lookup}
use phantasm.Base.Except.{ok, err}
use phantasm.StateStore.{
  StatePhase, uninitialized, initialized, enrolled, ready, restricted_pending, bricked, corrupt,
  same_phase, may_follow, allowed_transitions, value, phase_of, nonnegative, object, File, holds,
  StateRecord, state_store_error, Builtins, to_dict, from_dict, read_record, write_record,
}

-- The text of a phase is read back as the phase.
pub phase_of-value : (p : StatePhase) → phase_of (value p) ≡ some p
unfolding phase_of value
phase_of-value uninitialized = refl
phase_of-value initialized = refl
phase_of-value enrolled = refl
phase_of-value ready = refl
phase_of-value restricted_pending = refl
phase_of-value bricked = refl
phase_of-value corrupt = refl

module _ {A O : Type 0} (builtins : Builtins A O) where
  -- A record of the schema's version is read back from its dictionary as it was.
  pub from_dict-to_dict :
      (r : StateRecord A)
      → r.schema_version ≡ nonnegative 1
      → from_dict builtins (object (to_dict builtins r)) ≡ ok r
  unfolding from_dict to_dict lookup
  from_dict-to_dict r version = ground (
    arith,
    builtins.int_integer r.schema_version,
    builtins.int_integer r.updated_at,
    builtins.str_text r.category,
    builtins.str_text (value r.phase),
    phase_of-value r.phase,
    version,
  )

  -- May this write be done, by the phase that is read before it?
  abbrev pub allowed : StateRecord A → File A O → Bool
  allowed r file =
      same_phase r.phase (read_record builtins file).phase
      || may_follow (read_record builtins file).phase r.phase

  -- What is written of a record
  abbrev stamped : ℕ → StateRecord A → StateRecord A
  stamped now r = record r { schema_version = nonnegative 1; updated_at = nonnegative now }

  write_allowed :
      (now : ℕ) (r : StateRecord A) (file : File A O)
      → allowed r file ≡ true
      → write_record builtins now r file
        ≡ (ok tt, holds (object (to_dict builtins (stamped now r))))
  unfolding write_record
  write_allowed now r file may = ground (arith, may)

  write_refused :
      (now : ℕ) (r : StateRecord A) (file : File A O)
      → allowed r file ≡ false
      → write_record builtins now r file
        ≡ (err (state_store_error "state transition rejected"), file)
  unfolding write_record
  write_refused now r file may_not = ground (arith, may_not)

  read_written :
      (r : StateRecord A)
      → r.schema_version ≡ nonnegative 1
      → read_record builtins (holds (object (to_dict builtins r))) ≡ r
  unfolding read_record
  read_written r version = ground (arith, from_dict-to_dict r version)

  -- A write whose phase is the one in the file or may follow it returns, and the next read gives
  -- the record with the time of the write; any other raises and leaves the file.
  pub read_record-write_record :
      (now : ℕ) (r : StateRecord A) (file : File A O)
      → let after = write_record builtins now r file in
        (allowed r file ≡ true
          → (after.0 ≡ ok tt)
            × (read_record builtins after.1
                ≡ record r { schema_version = nonnegative 1; updated_at = nonnegative now }))
        × (allowed r file ≡ false
            → after ≡ (err (state_store_error "state transition rejected"), file))
  read_record-write_record now r file = (
    λ may.
        let done = write_allowed now r file may in
        (
          ap (λ x. x.0) done,
          ap (λ x. read_record builtins x.1) done ∙ read_written (stamped now r) refl,
        ),
    λ may_not. write_refused now r file may_not,
  )

  -- Writes one after the other; the caller of one that raises goes on with the next.
  abbrev pub write_all : List (ℕ × StateRecord A) → File A O → File A O
  write_all [] file = file
  write_all ((now, r) ∷ rs) file = write_all rs (write_record builtins now r file).1

  abbrev pub some_corrupt : List (ℕ × StateRecord A) → Bool
  some_corrupt [] = false
  some_corrupt ((now, r) ∷ rs) = same_phase r.phase corrupt || some_corrupt rs

  refused_on_corrupt :
      (now : ℕ) (r : StateRecord A) (file : File A O)
      → (read_record builtins file).phase ≡ corrupt
      → same_phase r.phase corrupt ≡ false
      → (write_record builtins now r file).1 ≡ file
  unfolding write_record allowed_transitions
  refused_on_corrupt now r file broken differs = ground (arith, broken, differs)

  -- A file that reads as corrupt stays as it is, whatever records are written to it, unless one has
  -- itself the phase `corrupt`.
  pub write_all_corrupt :
      (rs : List (ℕ × StateRecord A)) (file : File A O)
      → (read_record builtins file).phase ≡ corrupt
      → some_corrupt rs ≡ false
      → write_all rs file ≡ file
  write_all_corrupt [] file broken none_corrupt = refl
  write_all_corrupt ((now, r) ∷ rs) file broken none_corrupt =
      let same = refused_on_corrupt now r file broken (ground (arith, none_corrupt)) in
      rw same (write_all_corrupt rs file broken (ground (arith, none_corrupt)))
