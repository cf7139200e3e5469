-- ===== src/Audit.antt =====
-- audit.py: the audit log, a line of JSON for each event, chained by hashes and sealed by an HMAC. The
-- clock's readings and the process id are arguments of `audit_event`. The file system refuses nothing.
pub mod Records
pub mod Chain
pub mod Deletion
mod Tests
use phantasm.Base.{
  ℕ, zero, suc, ◌≡◌, String, Bool, true, false, not, ◌&&◌, ◌||◌, Option, none, some, List, [], ◌∷◌,
  ◌++◌, Bytes, codes, bytes_eq, str_eq, ltb, ◌==◌, if◌then◌else◌,
}
use phantasm.Base.Dict.{Dict, lookup, insert, update, erase, contains}
use phantasm.Base.Except.{Result, ok, err, Method, pure, lift, modify, ◌>>=◌, ◌>>◌}
use phantasm.Storage.{Error, value_error, type_error, attribute_error}
use phantasm.Metadata.{occurs}

pub data Integer : Type 0 where
  nonnegative : ℕ → Integer
  -- -(n + 1)
  negative : ℕ → Integer

-- A JSON value; of what is no whole number and no text, the truth value and the JSON text
pub data Value : Type 0 where
  integer : Integer → Value
  text : Bytes → Value
  other : Bool → Bytes → Value

-- What `json.loads` makes of a line that is stripped. Of a value that is no object, only this counts:
-- whether `"entry_hash" in value` is false, or this test or the reading that follows raises.
pub data Line : Type 0 where
  blank : Line
  no_json : Line
  no_object : Bool → Line
  holds : Dict Value → Line

abbrev is_ascii : Bytes → Bool
is_ascii [] = true
is_ascii (c ∷ s) = ltb c 128 && is_ascii s

-- The interpreter, JSON and hashlib; `Text` is the type of the lines of the log.
pub record Codec (Text : Type 0) : Type 0 where
  pub dumps : Dict Value → Text
  pub read_line : Text → Line
  pub read_line-dumps : (r : Dict Value) → read_line (dumps r) ≡ holds r
  -- with `sort_keys=True`, in UTF-8
  pub canonical_json : Dict Value → Bytes
  pub sha256_hex : Bytes → Bytes
  -- hmac.new(key, message, sha256).hexdigest()
  pub hmac_hex : Bytes → Bytes → Bytes
  pub hmac_hex_ascii : (key message : Bytes) → is_ascii (hmac_hex key message) ≡ true
  -- `str`, `int` (none for ValueError and TypeError) and `==`
  pub str : Value → Bytes
  pub str_text : (b : Bytes) → str (text b) ≡ b
  pub int : Value → Option Integer
  pub int_integer : (i : Integer) → int (integer i) ≡ some i
  pub same : Value → Value → Bool
  pub same_integer : (i : Integer) → same (integer i) (integer i) ≡ true
  pub same_text : (b : Bytes) → same (text b) (text b) ≡ true
  pub same_number :
      (v : Value) (m n : ℕ)
      → same v (integer (nonnegative m)) ≡ true
      → same v (integer (nonnegative n)) ≡ true
      → m ≡ n
  -- os.path.basename
  pub basename : Bytes → Bytes
  pub urandom : ℕ → ℕ → Bytes

pub record Files (Text : Type 0) : Type 0 where
  pub auth : Option Bytes
  pub log : Option (List Text)
  pub draws : ℕ

-- `audit_enabled()`, and whether `audit_filename_mode()` is "hash"
pub record Config : Type 0 where
  pub enabled : Bool
  pub hash_filenames : Bool

-- What an error of `verify_log_integrity` is about
pub data Reason : Type 0 where
  record_rejected : Reason
  version_rejected : Reason
  sequence_rejected : Reason
  chain_rejected : Reason
  event_hash_rejected : Reason
  verifier_rejected : Reason
  log_not_present : Reason
  material_not_present : Reason

-- `value + 1`
abbrev pub next : Integer → Integer
next (nonnegative n) = nonnegative (suc n)
next (negative zero) = nonnegative 0
next (negative (suc n)) = negative n

abbrev truthy : Value → Bool
truthy (integer (nonnegative zero)) = false
truthy (integer i) = true
truthy (text []) = false
truthy (text (c ∷ s)) = true
truthy (other truth json) = truth

abbrev pub genesis_hash : Bytes
genesis_hash = codes "sha256:GENESIS"

module _ {Text : Type 0} (codec : Codec Text) where
  -- One field of the event, added to the fields that are sanitized already
  abbrev sanitize_field : Bool → String → Value → Dict Value → Dict Value
  sanitize_field hash_filenames key value d =
      if occurs (codes "profile") (codes key)
      then insert "entry" (text (codes "local_entry")) d
      else if str_eq key "filename"
      then (if truthy value
          then (let present = insert "filename_present" (text (codes "yes")) d in
              if hash_filenames
              then insert "filename_hash"
                  (text (codec.sha256_hex (codec.basename (codec.str value)))) present
              else present)
          else insert "filename_present" (text (codes "no")) d)
      else insert key value d

  abbrev sanitize_from : Bool → Dict Value → Dict Value → Dict Value
  sanitize_from hash_filenames d [] = d
  sanitize_from hash_filenames d ((key, value) ∷ fields) =
      sanitize_from hash_filenames (sanitize_field hash_filenames key value d) fields

  unfoldable pub sanitize_fields : Bool → Dict Value → Dict Value
  sanitize_fields hash_filenames fields = sanitize_from hash_filenames [] fields

  unfoldable pub entry_hash : Dict Value → Bytes
  entry_hash r =
      codes "sha256:"
      ++ codec.sha256_hex (codec.canonical_json (erase "hmac_sha256" (erase "entry_hash" r)))

  unfoldable pub record_hmac : Dict Value → Bytes → Bytes
  record_hmac r auth_material =
      codec.hmac_hex auth_material (codec.canonical_json (erase "hmac_sha256" r))

  abbrev int_or : Integer → Option Value → Option Integer
  int_or sequence none = some sequence
  int_or sequence (some v) = codec.int v

  abbrev chain_of : Line → Integer → Bytes → Result Error (Integer × Bytes)
  chain_of blank sequence previous_hash = ok (sequence, previous_hash)
  chain_of no_json sequence previous_hash = ok (sequence, previous_hash)
  chain_of (no_object passed) sequence previous_hash =
      if passed then ok (sequence, previous_hash) else err type_error
  chain_of (holds r) sequence previous_hash = elim (lookup "entry_hash" r) [
    | none ↦ ok (sequence, previous_hash)
    | some v ↦ elim (int_or sequence (lookup "sequence" r)) [
      | none ↦ err (value_error "int")
      | some i ↦ ok (next i, codec.str v)
    ]
  ]

  abbrev pub chain_from : List Text → Integer → Bytes → Result Error (Integer × Bytes)
  chain_from [] sequence previous_hash = ok (sequence, previous_hash)
  chain_from (line ∷ lines) sequence previous_hash =
      elim (chain_of (codec.read_line line) sequence previous_hash) [
        | err e ↦ err e
        | ok (i, h) ↦ chain_from lines i h
      ]

  abbrev lines_of : Option (List Text) → List Text
  lines_of none = []
  lines_of (some lines) = lines

  unfoldable pub next_chain_state : Option (List Text) → Result Error (Integer × Bytes)
  next_chain_state log = chain_from (lines_of log) (nonnegative 1) genesis_hash

  unfoldable pub load_or_create_auth_material : Method (Files Text) Error Bytes
  load_or_create_auth_material s = elim s.auth [
    | some material ↦ (ok material, s)
    | none ↦
        let material = codec.urandom s.draws 32 in
        (ok material, record s { auth = some material; draws = suc s.draws })
  ]

  -- What one event is given: the time in seconds, the time stamp, the process, its name and its fields
  pub record Event : Type 0 where
    pub ts : ℕ
    pub timestamp : Bytes
    pub pid : ℕ
    pub event : Bytes
    pub given : Dict Value

  abbrev pub base_record : Event → Integer → Bytes → Dict Value
  base_record e sequence previous_hash =
      ("version", text (codes "2.0"))
      ∷ ("sequence", integer sequence)
      ∷ ("ts", integer (nonnegative e.ts))
      ∷ ("timestamp", text e.timestamp)
      ∷ ("event", text e.event)
      ∷ ("pid", integer (nonnegative e.pid))
      ∷ ("previous_hash", text previous_hash)
      ∷ []

  abbrev pub sealed : Dict Value → Bytes → Dict Value
  sealed r auth_material =
      let hashed = insert "entry_hash" (text (entry_hash r)) r in
      insert "hmac_sha256" (text (record_hmac hashed auth_material)) hashed

  abbrev pub event_record : Config → Event → Integer → Bytes → Bytes → Dict Value
  event_record config e sequence previous_hash auth_material =
      sealed
        (update (base_record e sequence previous_hash)
          (sanitize_fields config.hash_filenames e.given))
        auth_material

  unfoldable pub audit_event : Config → Event → Method (Files Text) Error (Unit {0})
  audit_event config e =
      if not config.enabled
      then pure tt
      else (load_or_create_auth_material >>= λ auth_material.
          (λ s. (next_chain_state s.log, s)) >>= λ state. modify (λ s. record s {
            log = some (
                lines_of s.log
                ++ (codec.dumps (event_record config e state.0 state.1 auth_material) ∷ []));
          }))

  abbrev is_at : String → Value → Dict Value → Bool
  is_at key v r = elim (lookup key r) [ none ↦ false | some w ↦ codec.same w v ]

  abbrev str_at : String → Bytes → Dict Value → Bytes
  str_at key fallback r = elim (lookup key r) [ none ↦ fallback | some v ↦ codec.str v ]

  abbrev unless : Bool → ℕ → Reason → List (ℕ × Reason)
  unless passed number reason = if passed then [] else (number, reason) ∷ []

  -- What is wrong with one record; the comparison of texts takes ASCII only.
  unfoldable pub record_errors :
      Bytes → ℕ → ℕ → Bytes → Dict Value → Result Error (List (ℕ × Reason))
  record_errors auth_material number sequence previous_hash r =
      let found = str_at "hmac_sha256" [] r in
      if is_ascii found && is_ascii (record_hmac r auth_material)
      then ok (
          unless (is_at "version" (text (codes "2.0")) r) number version_rejected
          ++ unless (is_at "sequence" (integer (nonnegative sequence)) r) number sequence_rejected
          ++ unless (is_at "previous_hash" (text previous_hash) r) number chain_rejected
          ++ unless (is_at "entry_hash" (text (entry_hash r)) r) number event_hash_rejected
          ++ unless (bytes_eq found (record_hmac r auth_material)) number verifier_rejected)
      else err type_error

  abbrev joined :
      Result Error (List (ℕ × Reason))
      → Result Error (List (ℕ × Reason))
      → Result Error (List (ℕ × Reason))
  joined (err e) rest = err e
  joined (ok errors) (err e) = err e
  joined (ok errors) (ok more) = ok (errors ++ more)

  abbrev pub log_errors : Bytes → List Text → ℕ → ℕ → Bytes → Result Error (List (ℕ × Reason))
  log_errors auth_material [] number sequence previous_hash = ok []
  log_errors auth_material (line ∷ lines) number sequence previous_hash =
      elim (codec.read_line line) [
        | blank ↦ log_errors auth_material lines (suc number) sequence previous_hash
        | no_json ↦
            joined (ok ((number, record_rejected) ∷ []))
              (log_errors auth_material lines (suc number) sequence previous_hash)
        | no_object passed ↦ err attribute_error
        | holds r ↦ joined (record_errors auth_material number sequence previous_hash r) (
            log_errors auth_material lines (suc number) (suc sequence)
              (str_at "entry_hash" previous_hash r))
      ]

  abbrev verdict : Result Error (List (ℕ × Reason)) → Result Error (Bool × List (ℕ × Reason))
  verdict (err e) = err e
  verdict (ok []) = ok (true, [])
  verdict (ok (e ∷ errors)) = ok (false, e ∷ errors)

  -- An error is the number of a line, 0 where it is about a file, and what is wrong.
  unfoldable pub verify_log_integrity : Files Text → Result Error (Bool × List (ℕ × Reason))
  verify_log_integrity s = elim s.log [
    | none ↦ ok (true, (0, log_not_present) ∷ [])
    | some lines ↦ elim s.auth [
      | none ↦ ok (false, (0, material_not_present) ∷ [])
      | some auth_material ↦ verdict (log_errors auth_material lines 1 1 genesis_hash)
    ]
  ]
