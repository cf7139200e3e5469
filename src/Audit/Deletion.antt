-- ===== src/Audit/Deletion.antt =====
-- A record that is cut out of the middle of a log does not go unseen.
use phantasm.Base.{
  ℕ, suc, ◌≡◌, refl, true, Option-cases, some, List, [], ◌∷◌, ◌++◌, Bytes, arith, inl, inr,
}
use phantasm.Base.Dict.{Dict, lookup}
use phantasm.Base.Except.{Result, ok, err}
use phantasm.Storage.{Error}
use phantasm.Audit.{
  Codec, Line, blank, no_json, no_object, holds, Value, integer, nonnegative, log_errors,
  record_errors, verify_log_integrity, Reason, record_rejected, genesis_hash, joined, is_at, str_at,
  verdict,
}

module _ {Text : Type 0} (codec : Codec Text) where
  -- No error is found in a record only if its sequence number is the one that is expected.
  record_errors_sequence :
      (key : Bytes) (number sequence : ℕ) (previous : Bytes) (r : Dict Value)
      → record_errors codec key number sequence previous r ≡ ok []
      → is_at codec "sequence" (integer (nonnegative sequence)) r ≡ true
  unfolding record_errors
  record_errors_sequence key number sequence previous r clean = ground (arith, clean)

  is_at_unique :
      (r : Dict Value) (m n : ℕ)
      → is_at codec "sequence" (integer (nonnegative m)) r ≡ true
      → is_at codec "sequence" (integer (nonnegative n)) r ≡ true
      → m ≡ n
  is_at_unique r m n at_m at_n = elim (Option-cases (lookup "sequence" r)) [
    | inl absent ↦ absurd (cc (at_m, absent))
    | inr (v, there) ↦
        codec.same_number v m n (rw (there, is_at) at at_m) (rw (there, is_at) at at_n)
  ]

  -- Where the walk stands after these lines: the number, the sequence and the hash that come next
  moved : Line → ℕ × ℕ × Bytes → ℕ × ℕ × Bytes
  moved blank (number, sequence, previous) = (suc number, sequence, previous)
  moved no_json (number, sequence, previous) = (suc number, sequence, previous)
  moved (no_object passed) at = at
  moved (holds r) (number, sequence, previous) =
      (suc number, suc sequence, str_at codec "entry_hash" previous r)

  after : List Text → ℕ × ℕ × Bytes → ℕ × ℕ × Bytes
  unfolding moved
  after [] at = at
  after (line ∷ lines) at = after lines (moved (codec.read_line line) at)

  abbrev pub Clean : Bytes → List Text → ℕ × ℕ × Bytes → Type 0
  Clean key lines (number, sequence, previous) =
      log_errors codec key lines number sequence previous ≡ ok []

  joined_clean :
      (x y : Result Error (List (ℕ × Reason)))
      → joined codec x y ≡ ok []
      → (x ≡ ok []) × (y ≡ ok [])
  joined_clean (err e) y h = absurd (cc h)
  joined_clean (ok errors) (err e) h = absurd (cc h)
  joined_clean (ok []) (ok more) h = (refl, h)
  joined_clean (ok (e ∷ errors)) (ok more) h = absurd (cc h)

  Clean-line :
      (key : Bytes) (line : Text) (lines : List Text) (at : ℕ × ℕ × Bytes)
      → Clean key (line ∷ lines) at
      → Clean key lines (moved (codec.read_line line) at)
  unfolding moved
  Clean-line key line lines (number, sequence, previous) clean =
      elim (codec.read_line line)
          as (λ l.
            codec.read_line line ≡ l → Clean key lines (moved l (number, sequence, previous))) [
              | blank ↦ λ e. rw (e, log_errors) at clean
              | no_json ↦ λ e.
                  (joined_clean (ok ((number, record_rejected) ∷ []))
                    (log_errors codec key lines (suc number) sequence previous)
                    (rw (e, log_errors) at clean)).1
              | no_object passed ↦ λ e. absurd (cc (rw (e, log_errors) at clean))
              | holds r ↦ λ e.
                  (joined_clean (record_errors codec key number sequence previous r)
                    (log_errors codec key lines (suc number) (suc sequence)
                      (str_at codec "entry_hash" previous r))
                    (rw (e, log_errors) at clean)).1
            ]
        refl

  Clean-after :
      (key : Bytes) (before lines : List Text) (at : ℕ × ℕ × Bytes)
      → Clean key (before ++ lines) at
      → Clean key lines (after before at)
  unfolding after
  Clean-after key [] lines at clean = clean
  Clean-after key (line ∷ before) lines at clean =
      Clean-after key before lines (moved (codec.read_line line) at)
        (Clean-line key line (before ++ lines) at clean)

  Clean-sequence :
      (key : Bytes) (line : Text) (lines : List Text) (r : Dict Value) (at : ℕ × ℕ × Bytes)
      → codec.read_line line ≡ holds r
      → Clean key (line ∷ lines) at
      → is_at codec "sequence" (integer (nonnegative at.1)) r ≡ true
  Clean-sequence key line lines r (number, sequence, previous) e clean =
      record_errors_sequence key number sequence previous r
        (joined_clean (record_errors codec key number sequence previous r)
          (log_errors codec key lines (suc number) (suc sequence)
            (str_at codec "entry_hash" previous r))
          (rw (e, log_errors) at clean)).0

  pub accepted_Clean :
      (key : Bytes) (lines : List Text) (draws : ℕ)
      → verify_log_integrity codec (record { auth = some key; log = some lines; draws = draws })
        ≡ ok (true, [])
      → Clean key lines (1, 1, genesis_hash)
  unfolding verify_log_integrity
  accepted_Clean key lines draws accepted =
      elim (log_errors codec key lines 1 1 genesis_hash)
          as (λ x. verdict codec x ≡ ok (true, []) → x ≡ ok []) [
            | err e ↦ λ h. absurd (cc h)
            | ok [] ↦ λ h. refl
            | ok (e ∷ errors) ↦ λ h. absurd (cc h)
          ]
        accepted

  -- Of a log that verifies, no record that another record follows directly can be cut out: the log
  -- without it does not verify, under the same verifier material.
  pub verify_log_integrity_deletion :
      (key : Bytes) (draws : ℕ) (before rest : List Text) (line following : Text) (r q : Dict Value)
      → codec.read_line line ≡ holds r
      → codec.read_line following ≡ holds q
      → verify_log_integrity codec (record {
        auth = some key;
        log = some (before ++ line ∷ following ∷ rest);
        draws = draws;
      })
        ≡ ok (true, [])
      → ¬ (
          verify_log_integrity codec
            (record { auth = some key; log = some (before ++ following ∷ rest); draws = draws })
          ≡ ok (true, []))
  unfolding moved
  verify_log_integrity_deletion key draws before rest line following r q e f whole cut =
      let at = after before (1, 1, genesis_hash) in
      let kept =
        Clean-after key before (line ∷ following ∷ rest) (1, 1, genesis_hash)
          (accepted_Clean key (before ++ line ∷ following ∷ rest) draws whole) in
      let second = Clean-line key line (following ∷ rest) at kept in
      let late = Clean-sequence key following rest q (moved (holds r) at) f (rw e at second) in
      let early = Clean-sequence key following rest q at f (
        Clean-after key before (following ∷ rest) (1, 1, genesis_hash)
          (accepted_Clean key (before ++ following ∷ rest) draws cut)) in
      omega (arith, is_at_unique q (suc at.1) at.1 late early)
