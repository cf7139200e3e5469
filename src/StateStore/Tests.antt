-- ===== src/StateStore/Tests.antt =====
-- Records in the file, with no attributes but a number.
use phantasm.Base.{ℕ, ◌≡◌, refl, String, true, false, Option, none, some, [], ◌∷◌}
use phantasm.Base.Except.{ok, err}
use phantasm.StateStore.{
  initialized, Integer, nonnegative, Value, integer, text, dict, other, object, absent, unreadable,
  StateRecord, state_store_error, Builtins, to_dict, from_dict, read_record, write_record,
}
use phantasm.StateStore.Phases.{
  allowed, from_dict-to_dict, read_record-write_record, write_all, write_all_corrupt,
}

abbrev int : Value ℕ ℕ → Option Integer
int (integer i) = some i
int (text s) = none
int (dict a) = none
int (other o) = some (nonnegative o)

abbrev str : Value ℕ ℕ → String
str (integer i) = "number"
str (text s) = s
str (dict a) = "dict"
str (other o) = "other"

abbrev builtins : Builtins ℕ ℕ
builtins = record {
  int = int;
  str = str;
  int_integer = λ i. refl;
  str_text = λ s. refl;
  no_attributes = 0;
}

abbrev attempts : StateRecord ℕ
attempts = record {
  category = "access_limiter";
  phase = initialized;
  schema_version = nonnegative 1;
  updated_at = nonnegative 0;
  attributes = 7;
}

from_dict-to_dict_example : from_dict builtins (object (to_dict builtins attempts)) ≡ ok attempts
from_dict-to_dict_example = from_dict-to_dict builtins attempts refl

read_record-write_record_example :
    let after = write_record builtins 9 attempts absent in
    (allowed builtins attempts absent ≡ true
      → (after.0 ≡ ok tt)
        × (read_record builtins after.1
            ≡ record attempts { schema_version = nonnegative 1; updated_at = nonnegative 9 }))
    × (allowed builtins attempts absent ≡ false
        → after ≡ (err (state_store_error "state transition rejected"), absent))
read_record-write_record_example = read_record-write_record builtins 9 attempts absent

write_all_corrupt_example :
    write_all builtins ((5, attempts) ∷ (6, attempts) ∷ []) unreadable ≡ unreadable
unfolding read_record
write_all_corrupt_example =
    write_all_corrupt builtins ((5, attempts) ∷ (6, attempts) ∷ []) unreadable refl refl
