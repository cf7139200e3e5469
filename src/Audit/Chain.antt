-- ===== src/Audit/Chain.antt =====
-- The log that `audit_event` writes is one that `verify_log_integrity` accepts.
use phantasm.Base.{
  ℕ, suc, ◌≡◌, refl, ◌∙◌, true, Option, none, some, List, [], ◌∷◌, ◌++◌, append_assoc, append-nil,
  Bytes, arith,
}
use phantasm.Base.Dict.{Dict, lookup, erase}
use phantasm.Base.Except.{Result, ok, err, Method, pure, ◌>>◌}
use phantasm.Storage.{Error}
use phantasm.Audit.{
  lines_of, is_ascii, Codec, Files, Config, Value, integer, text, nonnegative, log_errors,
  record_errors, verify_log_integrity, Reason, genesis_hash, joined, record_hmac, entry_hash, Event,
  audit_event, chain_from, next_chain_state, load_or_create_auth_material,
}
use phantasm.Audit.Records.{Plain, record_of, record_errors_clean, record_of-Written}

module _ {Text : Type 0} (codec : Codec Text) where
  joined_nil : (x : Result Error (List (ℕ × Reason))) → joined codec (ok []) x ≡ x
  joined_nil (ok errors) = refl
  joined_nil (err e) = refl

  -- However the log goes on after these lines, both walks go on after them as from here.
  Reaches : Bytes → List Text → ℕ × ℕ × Bytes → Type 0
  Reaches key lines (number, sequence, previous) =
      ((more : List Text)
        → log_errors codec key (lines ++ more) 1 1 genesis_hash
          ≡ log_errors codec key more number sequence previous)
      × ((more : List Text)
          → chain_from codec (lines ++ more) (nonnegative 1) genesis_hash
            ≡ chain_from codec more (nonnegative sequence) previous)

  line_walk :
      (r : Dict Value) (number sequence : ℕ) (previous key hash : Bytes)
      → record_errors codec key number sequence previous r ≡ ok []
      → lookup "sequence" r ≡ some (integer (nonnegative sequence))
      → lookup "entry_hash" r ≡ some (text hash)
      → ((more : List Text)
          → log_errors codec key (codec.dumps r ∷ more) number sequence previous
            ≡ log_errors codec key more (suc number) (suc sequence) hash)
        × ((more : List Text)
            → chain_from codec (codec.dumps r ∷ more) (nonnegative sequence) previous
              ≡ chain_from codec more (nonnegative (suc sequence)) hash)
  line_walk r number sequence previous key hash clean numbered hashed = (
    λ more.
        let rest = joined_nil (log_errors codec key more (suc number) (suc sequence) hash) in
        ground (arith, codec.read_line-dumps r, clean, hashed, codec.str_text hash, rest),
    λ more. ground (
      arith,
      codec.read_line-dumps r,
      numbered,
      hashed,
      codec.str_text hash,
      codec.int_integer (nonnegative sequence),
    ),
  )

  record_hmac-ascii : (r : Dict Value) (key : Bytes) → is_ascii (record_hmac codec r key) ≡ true
  unfolding record_hmac
  record_hmac-ascii r key = codec.hmac_hex_ascii key (codec.canonical_json (erase "hmac_sha256" r))

  Reaches-audit_event :
      (config : Config) (e : Event codec) (lines : List Text) (number sequence : ℕ)
      (previous key : Bytes)
      → Plain e.given
      → Reaches key lines (number, sequence, previous)
      → (hash : Bytes) × Reaches key
          (lines ++ codec.dumps (record_of codec config e sequence previous key) ∷ [])
          (suc number, suc sequence, hash)
  unfolding Reaches
  Reaches-audit_event config e lines number sequence previous key plain (errors, chain) =
      let r = record_of codec config e sequence previous key in
      let (version, numbered, chained, hashed, signed) =
        record_of-Written codec config e sequence previous key plain in
      let clean =
        record_errors_clean codec r number sequence previous key version numbered chained hashed
          signed (record_hmac-ascii r key) in
      let (more_errors, more_chain) =
        line_walk r number sequence previous key (entry_hash codec r) clean numbered hashed in
      (
        entry_hash codec r,
        (
          λ more.
              rw (append_assoc lines (codec.dumps r ∷ []) more)
                (errors (codec.dumps r ∷ more) ∙ more_errors more),
          λ more.
              rw (append_assoc lines (codec.dumps r ∷ []) more)
                (chain (codec.dumps r ∷ more) ∙ more_chain more),
        ),
      )

  -- A log that is absent or is reached so, with the material that seals it
  Trail : Bytes → Files Text → Type 0
  Trail key s = (at : ℕ × ℕ × Bytes) × Reaches key (lines_of codec s.log) at

  audit_event-Trail :
      (config : Config) (e : Event codec) (key : Bytes) (log : Option (List Text)) (draws : ℕ)
      → config.enabled ≡ true
      → Plain e.given
      → Trail key (record { auth = some key; log = log; draws = draws })
      → (lines : List Text) × (audit_event codec config e
            (record { auth = some key; log = log; draws = draws })
          ≡ (ok tt, record { auth = some key; log = some lines; draws = draws }))
        × Trail key (record { auth = some key; log = some lines; draws = draws })
  unfolding Trail Reaches audit_event load_or_create_auth_material next_chain_state
  audit_event-Trail config e key log draws on plain ((number, sequence, previous), reached) =
      let lines = lines_of codec log in
      let (hash, onward) =
        Reaches-audit_event config e lines number sequence previous key plain reached in
      let state : chain_from codec lines (nonnegative 1) genesis_hash
          ≡ ok (nonnegative sequence, previous) =
        rw (append-nil lines) at (reached.1 []) in
      (
        lines ++ codec.dumps (record_of codec config e sequence previous key) ∷ [],
        ground (arith, on, state),
        ((suc number, suc sequence, hash), onward),
      )

  -- The events of a session, one after the other
  abbrev pub audit_events : Config → List (Event codec) → Method (Files Text) Error (Unit {0})
  audit_events config [] = pure tt
  audit_events config (e ∷ es) = audit_event codec config e >> audit_events config es

  abbrev pub AllPlain : List (Event codec) → Type 0
  AllPlain [] = Unit
  AllPlain (e ∷ es) = Plain e.given × AllPlain es

  audit_events-Trail :
      (config : Config) (es : List (Event codec)) (key : Bytes) (lines : List Text) (draws : ℕ)
      → config.enabled ≡ true
      → AllPlain es
      → Trail key (record { auth = some key; log = some lines; draws = draws })
      → (after : List Text) × (audit_events config es
            (record { auth = some key; log = some lines; draws = draws })
          ≡ (ok tt, record { auth = some key; log = some after; draws = draws }))
        × Trail key (record { auth = some key; log = some after; draws = draws })
  audit_events-Trail config [] key lines draws on plain trail = (lines, refl, trail)
  audit_events-Trail config (e ∷ es) key lines draws on (plain, all) trail =
      let (lines', ran, trail') =
        audit_event-Trail config e key (some lines) draws on plain trail in
      let (after, ran', trail_after) =
        audit_events-Trail config es key lines' draws on all trail' in
      (after, ground (arith, ran, ran'), trail_after)

  verified :
      (key : Bytes) (lines : List Text) (draws : ℕ)
      → Trail key (record { auth = some key; log = some lines; draws = draws })
      → verify_log_integrity codec (record { auth = some key; log = some lines; draws = draws })
        ≡ ok (true, [])
  unfolding Trail Reaches verify_log_integrity
  verified key lines draws ((number, sequence, previous), reached) =
      let clean : log_errors codec key lines 1 1 genesis_hash ≡ ok [] =
        rw (append-nil lines) at (reached.0 []) in
      rw clean refl

  first_event :
      (config : Config) (e : Event codec) (o : Option Bytes) (draws : ℕ)
      → config.enabled ≡ true
      → (key : Bytes) × (d : ℕ) × (audit_event codec config e
            (record { auth = o; log = none; draws = draws })
          ≡ audit_event codec config e (record { auth = some key; log = none; draws = d }))
  unfolding audit_event load_or_create_auth_material
  first_event config e none draws on = (codec.urandom draws 32, suc draws, ground (arith, on))
  first_event config e (some key) draws on = (key, draws, refl)

  -- A log that is begun afresh, by at least one event, with or without verifier material on the device,
  -- and to which events are written that have no field of the names `version`, `sequence` and
  -- `previous_hash`, is written without an exception, and is verified without an error.
  pub audit_events_verify :
      (config : Config) (e : Event codec) (es : List (Event codec)) (o : Option Bytes) (draws : ℕ)
      → config.enabled ≡ true
      → Plain e.given
      → AllPlain es
      → (s : Files Text) × (audit_events config
            (e ∷ es)
            (record { auth = o; log = none; draws = draws })
          ≡ (ok tt, s))
        × (verify_log_integrity codec s ≡ ok (true, []))
  unfolding Trail Reaches
  audit_events_verify config e es o draws on plain all =
      let (key, d, same) = first_event config e o draws on in
      let (lines, ran, trail) =
        audit_event-Trail config e key none d on plain
          ((1, 1, genesis_hash), (λ more. refl, λ more. refl)) in
      let (after, ran', trail_after) = audit_events-Trail config es key lines d on all trail in
      (
        record { auth = some key; log = some after; draws = d },
        ground (arith, same, ran, ran'),
        verified key after d trail_after,
      )
