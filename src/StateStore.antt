-- ===== src/StateStore.antt =====
-- state_store.py: the phases of a state record, its reading, and the write that checks the change of
-- phase. A record's file is absent, not readable as JSON, or a JSON value; the write that replaces the
-- file is one step that the file system does not refuse. A file that is no UTF-8, and the test of the
-- file's name, are left out.
pub mod Phases
mod Tests
use phantasm.Base.{
  ◌≡◌, ℕ, String, Bool, true, false, not, ◌&&◌, Option, none, some, List, [], ◌∷◌, ◌==◌, str_eq,
  if◌then◌else◌,
}
use phantasm.Base.Dict.{Dict, lookup, insert}
use phantasm.Base.Except.{Result, ok, err, Method}

pub data StatePhase : Type 0 where
  uninitialized : StatePhase
  initialized : StatePhase
  enrolled : StatePhase
  ready : StatePhase
  restricted_pending : StatePhase
  bricked : StatePhase
  corrupt : StatePhase

abbrev number : StatePhase → ℕ
number uninitialized = 0
number initialized = 1
number enrolled = 2
number ready = 3
number restricted_pending = 4
number bricked = 5
number corrupt = 6

abbrev pub same_phase : StatePhase → StatePhase → Bool
same_phase p q = number p == number q

abbrev includes : List StatePhase → StatePhase → Bool
includes [] q = false
includes (p ∷ ps) q = if same_phase p q then true else includes ps q

unfoldable pub allowed_transitions : StatePhase → List StatePhase
allowed_transitions uninitialized = initialized ∷ corrupt ∷ []
allowed_transitions initialized = enrolled ∷ ready ∷ restricted_pending ∷ bricked ∷ corrupt ∷ []
allowed_transitions enrolled = ready ∷ restricted_pending ∷ bricked ∷ corrupt ∷ []
allowed_transitions ready = restricted_pending ∷ bricked ∷ corrupt ∷ []
allowed_transitions restricted_pending = ready ∷ bricked ∷ corrupt ∷ []
allowed_transitions bricked = initialized ∷ corrupt ∷ []
allowed_transitions corrupt = []

abbrev pub may_follow : StatePhase → StatePhase → Bool
may_follow p q = includes (allowed_transitions p) q

-- `StatePhase.value`
unfoldable pub value : StatePhase → String
value uninitialized = "uninitialized"
value initialized = "initialized"
value enrolled = "enrolled"
value ready = "ready"
value restricted_pending = "restricted_pending"
value bricked = "bricked"
value corrupt = "corrupt"

-- `StatePhase(text)`
unfoldable pub phase_of : String → Option StatePhase
phase_of s =
    if str_eq s "uninitialized"
    then some uninitialized
    else if str_eq s "initialized"
    then some initialized
    else if str_eq s "enrolled"
    then some enrolled
    else if str_eq s "ready"
    then some ready
    else if str_eq s "restricted_pending"
    then some restricted_pending
    else if str_eq s "bricked"
    then some bricked
    else if str_eq s "corrupt"
    then some corrupt
    else none

pub data Integer : Type 0 where
  nonnegative : ℕ → Integer
  -- -(n + 1)
  negative : ℕ → Integer

abbrev is_version : Integer → Bool
is_version (nonnegative n) = n == 1
is_version (negative n) = false

-- A value of the parsed file: `A` is the type of the objects that stand for attributes, `O` that of
-- the values that the code only turns to a number or a text.
pub data Value (A O : Type 0) : Type 0 where
  integer : Integer → Value A O
  text : String → Value A O
  dict : A → Value A O
  other : O → Value A O

pub data Document (A O : Type 0) : Type 0 where
  object : Dict (Value A O) → Document A O
  not_object : Document A O

pub data File (A O : Type 0) : Type 0 where
  absent : File A O
  -- the file cannot be opened, or is no JSON
  unreadable : File A O
  holds : Document A O → File A O

pub record StateRecord (A : Type 0) : Type 0 where
  pub category : String
  pub phase : StatePhase
  pub schema_version : Integer
  pub updated_at : Integer
  pub attributes : A

pub data Error : Type 0 where
  state_store_error : String → Error

-- `int` and `str` of the interpreter: `int` gives none where it raises TypeError or ValueError.
pub record Builtins (A O : Type 0) : Type 0 where
  pub int : Value A O → Option Integer
  pub str : Value A O → String
  pub int_integer : (i : Integer) → int (integer i) ≡ some i
  pub str_text : (s : String) → str (text s) ≡ s
  -- `{}`
  pub no_attributes : A

module _ {A O : Type 0} (builtins : Builtins A O) where
  unfoldable pub to_dict : StateRecord A → Dict (Value A O)
  to_dict r =
      ("category", text r.category)
      ∷ ("phase", text (value r.phase))
      ∷ ("schema_version", integer r.schema_version)
      ∷ ("updated_at", integer r.updated_at)
      ∷ ("attributes", dict r.attributes)
      ∷ []

  abbrev int_or_zero : Option (Value A O) → Option Integer
  int_or_zero none = some (nonnegative 0)
  int_or_zero (some v) = builtins.int v

  abbrev int_at : Option (Value A O) → Option Integer
  int_at none = none
  int_at (some v) = builtins.int v

  abbrev phase_at : Option (Value A O) → Option StatePhase
  phase_at none = none
  phase_at (some v) = phase_of (builtins.str v)

  -- `data.get("attributes", {})`, if it is a dict
  abbrev attributes_at : Option (Value A O) → Option A
  attributes_at none = some builtins.no_attributes
  attributes_at (some (integer i)) = none
  attributes_at (some (text s)) = none
  attributes_at (some (dict a)) = some a
  attributes_at (some (other o)) = none

  abbrev rejected : Result Error (StateRecord A)
  rejected = err (state_store_error "state record rejected")

  abbrev built : Integer → String → StatePhase → Integer → Option A → Result Error (StateRecord A)
  built version category phase updated_at attributes =
      if not (is_version version)
      then err (state_store_error "state schema unsupported")
      else elim attributes [
        | none ↦ rejected
        | some a ↦ ok (record {
          category = category;
          phase = phase;
          schema_version = version;
          updated_at = updated_at;
          attributes = a;
        })
      ]

  abbrev from_object : Dict (Value A O) → Result Error (StateRecord A)
  from_object fields = elim (int_at (lookup "schema_version" fields)) [
    | none ↦ rejected
    | some version ↦ elim (lookup "category" fields) [
      | none ↦ rejected
      | some category ↦ elim (phase_at (lookup "phase" fields)) [
        | none ↦ rejected
        | some phase ↦ elim (int_or_zero (lookup "updated_at" fields)) [
          | none ↦ rejected
          | some updated_at ↦
              built version (builtins.str category) phase updated_at
                (attributes_at (lookup "attributes" fields))
        ]
      ]
    ]
  ]

  unfoldable pub from_dict : Document A O → Result Error (StateRecord A)
  from_dict not_object = rejected
  from_dict (object fields) = from_object fields

  abbrev local_state : StatePhase → StateRecord A
  local_state phase = record {
    category = "local_state";
    phase = phase;
    schema_version = nonnegative 1;
    updated_at = nonnegative 0;
    attributes = builtins.no_attributes;
  }

  abbrev or_corrupt : Result Error (StateRecord A) → StateRecord A
  or_corrupt (ok r) = r
  or_corrupt (err e) = local_state corrupt

  unfoldable pub read_record : File A O → StateRecord A
  read_record absent = local_state uninitialized
  read_record unreadable = local_state corrupt
  read_record (holds document) = or_corrupt (from_dict document)

  -- The write that is done at `now`, where the file system does not refuse it
  unfoldable pub write_record : ℕ → StateRecord A → Method (File A O) Error (Unit {0})
  write_record now r file =
      let current = read_record file in
      if not (same_phase r.phase current.phase) && not (may_follow current.phase r.phase)
      then (err (state_store_error "state transition rejected"), file)
      else (
        ok tt,
        holds (
            object (
              to_dict (record {
                category = r.category;
                phase = r.phase;
                schema_version = nonnegative 1;
                updated_at = nonnegative now;
                attributes = r.attributes;
              }))),
      )
