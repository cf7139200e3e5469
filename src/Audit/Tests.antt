-- ===== src/Audit/Tests.antt =====
-- A log of two events, under hashes that count.
use phantasm.Base.{
  ℕ, ◌≡◌, refl, Bool, true, false, Option, none, some, [], ◌∷◌, Bytes, length, codes, bytes_eq,
  bytes_eq_refl, ◌==◌, ==_refl, replicate, arith,
}
use phantasm.Base.Dict.{Dict, lookup, insert, update, erase}
use phantasm.Base.Except.{ok}
use phantasm.Metadata.{starts_with}
use phantasm.Audit.{
  Codec, Files, Config, Event, Line, holds, Value, integer, text, other, Integer, nonnegative,
  negative, genesis_hash, sanitize_fields, entry_hash, record_hmac, event_record,
  verify_log_integrity, record_errors,
}
use phantasm.Audit.Records.{Plain}
use phantasm.Audit.Chain.{audit_events, audit_events_verify}
use phantasm.Audit.Deletion.{verify_log_integrity_deletion}

abbrev same_integer : Integer → Integer → Bool
same_integer (nonnegative m) (nonnegative n) = m == n
same_integer (negative m) (negative n) = m == n
same_integer _ _ = false

abbrev same_value : Value → Value → Bool
same_value (integer i) (integer j) = same_integer i j
same_value (text a) (text b) = bytes_eq a b
same_value _ _ = false

same_integer_refl : (i : Integer) → same_integer i i ≡ true
same_integer_refl (nonnegative n) = ==_refl n
same_integer_refl (negative n) = ==_refl n

same_value_number :
    (v : Value) (m n : ℕ)
    → same_value v (integer (nonnegative m)) ≡ true
    → same_value v (integer (nonnegative n)) ≡ true
    → m ≡ n
same_value_number (integer (nonnegative k)) m n a b = ground (arith, a, b)
same_value_number (integer (negative k)) m n a b = absurd (cc a)
same_value_number (text t) m n a b = absurd (cc a)
same_value_number (other t j) m n a b = absurd (cc a)

abbrev text_of : Value → Bytes
text_of (text b) = b
text_of _ = []

abbrev integer_of : Value → Option Integer
integer_of (integer i) = some i
integer_of _ = none

abbrev lines : Codec Line
lines = record {
  dumps = holds;
  read_line = λ l. l;
  read_line-dumps = λ r. refl;
  canonical_json = λ r. length r ∷ [];
  sha256_hex = λ b. b;
  hmac_hex = λ key message. 65 ∷ [];
  hmac_hex_ascii = λ key message. refl;
  str = text_of;
  str_text = λ b. refl;
  int = integer_of;
  int_integer = λ i. refl;
  same = same_value;
  same_integer = same_integer_refl;
  same_text = bytes_eq_refl;
  same_number = same_value_number;
  basename = λ b. b;
  urandom = λ k size. replicate size k;
}

abbrev config : Config
config = record { enabled = true; hash_filenames = true }

abbrev opened : Event lines
opened = record {
  ts = 10;
  timestamp = codes "noon";
  pid = 7;
  event = codes "retrieve";
  given = ("filename", text (codes "plan.txt")) ∷ ("profile_id", text (codes "a")) ∷ [];
}

abbrev closed : Event lines
closed = record { ts = 11; timestamp = codes "later"; pid = 7; event = codes "lock"; given = [] }

audit_events_verify_example :
    (s : Files Line) × (audit_events lines config
        (opened ∷ closed ∷ [])
        (record { auth = none; log = none; draws = 0 })
      ≡ (ok tt, s))
    × (verify_log_integrity lines s ≡ ok (true, []))
unfolding Plain lookup
audit_events_verify_example =
    audit_events_verify lines config opened (closed ∷ []) none 0 refl (refl, refl, refl)
      ((refl, refl, refl), tt)

abbrev first : Dict Value
unfolding update sanitize_fields insert entry_hash erase record_hmac
first = event_record lines config opened (nonnegative 1) genesis_hash (1 ∷ [])

abbrev second : Dict Value
unfolding update sanitize_fields insert entry_hash erase record_hmac
second = event_record lines config closed (nonnegative 2) (entry_hash lines first) (1 ∷ [])

verify_log_integrity_deletion_example : ¬ (
    verify_log_integrity lines
      (record { auth = some (1 ∷ []); log = some (holds second ∷ []); draws = 0 })
    ≡ ok (true, []))
unfolding verify_log_integrity record_errors entry_hash erase record_hmac lookup insert update
    sanitize_fields starts_with bytes_eq
verify_log_integrity_deletion_example =
    verify_log_integrity_deletion lines (1 ∷ []) 0 [] [] (holds first) (holds second) first second
      refl refl refl
