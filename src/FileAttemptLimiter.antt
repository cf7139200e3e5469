-- ===== src/FileAttemptLimiter.antt =====
-- attempt_limiter.py: `FileAttemptLimiter`, the limiter whose counts a state record keeps for the next
-- process. Each method is run under the clock's reading in whole seconds, which is also the time of the
-- write.
pub mod Restart
mod Tests
use phantasm.Base.{
  ℕ, ◌≡◌, ◌-◌, String, Bool, true, false, not, ◌&&◌, Option, none, some, List, [], ◌∷◌, ltb, ◌==◌,
  if◌then◌else◌,
}
use phantasm.Base.Dict.{Dict}
use phantasm.Base.Except.{Result, ok, err, Method, pure, ◌>>=◌, ◌>>◌}
use phantasm.AttemptLimiter as Memory
use phantasm.AttemptLimiter.{AttemptState, AttemptDecision, AttemptLimiter, state_of}
use phantasm.StateStore.{
  Error, File, StateRecord, Builtins, initialized, corrupt, same_phase, nonnegative, read_record,
  write_record,
}

-- A value of the mapping: no dict, a dict that `AttemptState(**val)` refuses, or one that it takes
pub data Stored : Type 0 where
  no_dict : Stored
  refused : Stored
  state : AttemptState → Stored

-- `attributes["attempts"]`
pub data Attempts : Type 0 where
  missing : Attempts
  no_mapping : Attempts
  mapping : Dict Stored → Attempts

abbrev pub states : Dict AttemptState → Dict Stored
states [] = []
states ((scope, s) ∷ d) = (scope, state s) ∷ states d

-- How the attributes hold the attempts
pub record Attributes (A : Type 0) : Type 0 where
  pub attempts : Dict AttemptState → A
  pub attempts_of : A → Attempts
  pub attempts_of-attempts : (d : Dict AttemptState) → attempts_of (attempts d) ≡ mapping (states d)

pub data Raised : Type 0 where
  store_error : Error → Raised
  type_error : Raised
  attribute_error : Raised

pub record FileAttemptLimiter (A O : Type 0) : Type 0 where
  pub limiter : AttemptLimiter
  pub store : File A O

abbrev with_value :
    String → Stored → Result Raised (Dict AttemptState) → Result Raised (Dict AttemptState)
with_value scope no_dict rest = rest
with_value scope refused rest = err type_error
with_value scope (state s) (err e) = err e
with_value scope (state s) (ok d) = ok ((scope, s) ∷ d)

abbrev pub restored : Dict Stored → Result Raised (Dict AttemptState)
restored [] = ok []
restored ((scope, v) ∷ d) = with_value scope v (restored d)

abbrev of_attempts : Attempts → Result Raised (Dict AttemptState)
of_attempts missing = ok []
of_attempts no_mapping = err attribute_error
of_attempts (mapping d) = restored d

module _ {A O : Type 0} (builtins : Builtins A O) (attributes : Attributes A) where
  abbrev attempts_in : StateRecord A → Result Raised (Dict AttemptState)
  attempts_in r =
      if same_phase r.phase corrupt
      then ok []
      else of_attempts (attributes.attempts_of r.attributes)

  abbrev with_state :
      AttemptLimiter
      → File A O
      → Result Raised (Dict AttemptState)
      → Result Raised (FileAttemptLimiter A O)
  with_state l store (err e) = err e
  with_state l store (ok d) = ok (record { limiter = record l { state = d }; store = store })

  -- The construction: a limiter with these limits, and the counts of the store
  unfoldable pub load : AttemptLimiter → File A O → Result Raised (FileAttemptLimiter A O)
  load l store = with_state l store (attempts_in (read_record builtins store))

  abbrev from_store : Result Error (Unit {0}) → Result Raised (Unit {0})
  from_store (ok u) = ok u
  from_store (err e) = err (store_error e)

  abbrev attempts_record : Dict AttemptState → StateRecord A
  attempts_record d = record {
    category = "access_limiter";
    phase = initialized;
    schema_version = nonnegative 1;
    updated_at = nonnegative 0;
    attributes = attributes.attempts d;
  }

  -- The counts as they now are in memory are written.
  unfoldable pub save : ℕ → Method (FileAttemptLimiter A O) Raised (Unit {0})
  save now f =
      let (r, store) = write_record builtins now (attempts_record f.limiter.state) f.store in
      (from_store r, record f { store = store })

  unfoldable pub forget : String → ℕ → Method (FileAttemptLimiter A O) Raised (Unit {0})
  forget scope now f = save now (record f { limiter = Memory.forget f.limiter scope })

  -- The inherited check, which calls the `_forget` above
  unfoldable pub check : String → ℕ → Method (FileAttemptLimiter A O) Raised AttemptDecision
  check scope now f =
      let s = state_of f.limiter scope in
      if ltb now s.locked_until
      then (ok (record { allowed = false; wait_seconds = s.locked_until - now }), f)
      else if s.locked_until == 0
      then (ok (record { allowed = true; wait_seconds = 0 }), f)
      else (forget scope now >> pure (record { allowed = true; wait_seconds = 0 })) f

  unfoldable pub record_failure : String → ℕ → Method (FileAttemptLimiter A O) Raised (Unit {0})
  record_failure scope now f =
      save now (record f { limiter = Memory.record_failure f.limiter scope now })

  unfoldable pub record_success : String → ℕ → Method (FileAttemptLimiter A O) Raised (Unit {0})
  record_success scope now f =
      save now (record f { limiter = Memory.record_success f.limiter scope })
