-- ===== src/Container/Erasure.antt =====
-- The operations that overwrite the container, a mode or a slot.
use phantasm.Base.{
  ℕ, ◌+◌, ◌≤◌, String, ◌≡◌, ◌≢◌, ◌⊎◌, inl, inr, refl, ap, ◌∙◌, Option, some, [], Bytes, length,
  drop_all, append-nil, arith,
}
use phantasm.Base.Except.{Result, ok}
use phantasm.Storage.{
  write_at, read_at, length-write_at, read_at-write_at_self, read_at-write_at_before,
  read_at-write_at_after, write_at-eq_cut, World, Entropy, Error,
}
use phantasm.Container.{
  ContainerLayout, Span, get_mode_span, get_slot_span, overwrite, format_container, silent_brick,
  purge_mode, randomize_slot, purge_other_mode,
}
use phantasm.Container.Spans.{
  slot_spans_disjoint, mode_span_fits, slot_span_fits, mode_span_cases, secret_span, dummy_span,
}
use phantasm.Container.RandomFill.{
  random_bytes, random_calls, length-random_bytes, write_random_lem,
}

module _ (rng : Entropy) where
  -- The state after `len` random bytes at `start` of `file`.
  abbrev pub filled : ℕ → ℕ → World → Bytes → World
  filled start len s file = record s {
    container = some (write_at start (random_bytes rng len s.draws len) file);
    draws = s.draws + random_calls rng len len;
  }

  pub overwrite_lem :
      (start len : ℕ) (s : World) {file : Bytes}
      → s.container ≡ some file
      → overwrite rng start len s ≡ (ok tt, filled start len s file)
  unfolding overwrite
  overwrite_lem start len s {file} e = rw e (
      rw (write_random_lem rng len (record { file = file; position = start; draws = s.draws }))
        refl)

  -- What a fill of a span does to the bytes of the file.
  pub record Fills (span : Span) (old new : Bytes) : Type 0 where
    pub same_length : length new ≡ length old
    pub fresh : (draws : ℕ) × (read_at span.0 span.1 new ≡ random_bytes rng span.1 draws span.1)
    pub before : (i n : ℕ) → i + n ≤ span.0 → read_at i n new ≡ read_at i n old
    pub after : (i n : ℕ) → span.0 + span.1 ≤ i → read_at i n new ≡ read_at i n old

  -- What the call `r` did: it succeeded, and filled the span of the container `old`.
  pub record Overwrites (span : Span) (old : Bytes) (r : Result Error (Unit {0}) × World)
      : Type 0 where
    pub new : Bytes
    pub done : r.0 ≡ ok tt
    pub stored : r.1.container ≡ some new
    pub fills : Fills span old new

  -- And it changed nothing in the span `kept`.
  pub record Spares (kept span : Span) (old : Bytes) (r : Result Error (Unit {0}) × World)
      : Type 0 where
    pub erased : Overwrites span old r
    pub unchanged : read_at kept.0 kept.1 erased.new ≡ read_at kept.0 kept.1 old

  filled-Fills :
      (start len draws : ℕ) (file : Bytes)
      → start + len ≤ length file
      → Fills (start, len) file (write_at start (random_bytes rng len draws len) file)
  filled-Fills start len draws file fits =
      let r = random_bytes rng len draws len in
      let size : length r ≡ len = length-random_bytes rng len draws len (omega arith) in
      record {
        same_length = length-write_at start r file (omega arith);
        fresh = (draws, rw size at (read_at-write_at_self start r file));
        before = λ i n h. read_at-write_at_before i n start r file h (omega arith);
        after = λ i n h. read_at-write_at_after i n start r file (omega arith);
      }

  -- A fill of all of the file depends on its length alone.
  fill_all :
      (len draws : ℕ) (file : Bytes)
      → length file ≤ len
      → write_at 0 (random_bytes rng len draws len) file ≡ random_bytes rng len draws len
  fill_all len draws file h =
      let r = random_bytes rng len draws len in
      let size : length r ≡ len = length-random_bytes rng len draws len (omega arith) in
      write_at-eq_cut 0 len r file (omega arith) (omega arith)
      ∙ rw (drop_all len file h) (append-nil r)

  -- `silent_brick` leaves nothing of the container behind: two containers no longer than the
  -- layout's size are the same after it; it does not fail, and leaves the access key alone.
  pub silent_brick_forgets :
      (l : ContainerLayout) (s : World) (a b : Bytes)
      → length a ≤ l.container_size
      → length b ≤ l.container_size
      → (silent_brick rng l (record s { container = some a })
          ≡ silent_brick rng l (record s { container = some b }))
        × ((silent_brick rng l (record s { container = some a })).0 ≡ ok tt)
        × ((silent_brick rng l (record s { container = some a })).1.access_key ≡ s.access_key)
  unfolding silent_brick
  silent_brick_forgets l s a b ha hb =
      let n = l.container_size in
      rw
        (
          overwrite_lem 0 n (record s { container = some a }) refl,
          overwrite_lem 0 n (record s { container = some b }) refl,
          fill_all n s.draws a ha,
          fill_all n s.draws b hb,
        )
        (refl, refl, refl)

  -- Formatting succeeds whatever was at the path: the container is then as many random bytes as the
  -- layout's size.
  pub format_container_forgets :
      (l : ContainerLayout) (s : World) (before : Option Bytes)
      → ((format_container rng l (record s { container = before })).1.container
          ≡ some (random_bytes rng l.container_size s.draws l.container_size))
        × ((format_container rng l (record s { container = before })).0 ≡ ok tt)
        × (length (random_bytes rng l.container_size s.draws l.container_size) ≡ l.container_size)
  unfolding format_container
  format_container_forgets l s before =
      let n = l.container_size in
      rw (overwrite_lem 0 n (record s { container = some [] }) refl) (
        ap some (fill_all n s.draws [] (omega arith)),
        refl,
        length-random_bytes rng n s.draws n (omega arith),
      )

  purge_mode_lem :
      (l : ContainerLayout) (mode : String) (s : World) {file : Bytes} {span : Span}
      → s.container ≡ some file
      → get_mode_span l mode ≡ ok span
      → purge_mode rng l mode s ≡ (ok tt, filled span.0 span.1 s file)
  unfolding purge_mode
  purge_mode_lem l mode s {file} {span} e p = ground (arith, overwrite_lem span.0 span.1 s e)

  -- Purging a known mode of a container of the layout's size succeeds, puts random bytes over its
  -- span, and changes no byte outside it.
  pub purge_mode-Overwrites :
      (l : ContainerLayout) (mode : String) (s : World) {file : Bytes} {span : Span}
      → s.container ≡ some file
      → length file ≡ l.container_size
      → get_mode_span l mode ≡ ok span
      → Overwrites span file (purge_mode rng l mode s)
  purge_mode-Overwrites l mode s {file} {span} e size p = rw (purge_mode_lem l mode s e p) (record {
    new = write_at span.0 (random_bytes rng span.1 s.draws span.1) file;
    done = refl;
    stored = refl;
    fills = filled-Fills span.0 span.1 s.draws file (omega (arith, mode_span_fits l mode p));
  })

  -- Purging the other mode of a container of the layout's size succeeds: the mode that was accessed
  -- keeps its bytes, and random bytes are written over all the rest of the container.
  pub purge_other_mode-Spares :
      (l : ContainerLayout) (accessed : String) (s : World) {file : Bytes} {kept : Span}
      → s.container ≡ some file
      → length file ≡ l.container_size
      → get_mode_span l accessed ≡ ok kept
      → (other : Span) × Spares kept other file (purge_other_mode rng l accessed s)
        × (kept.1 + other.1 ≡ l.container_size)
  unfolding purge_other_mode
  purge_other_mode-Spares l accessed s {file} {kept} e size p =
      elim (mode_span_cases l accessed p) [
        | inl (m, k) ↦
            let erased = purge_mode-Overwrites l "secret" s e size (secret_span l) in
            rw m (
              rw k (
                _,
                record { erased = erased; unchanged = erased.fills.before _ _ (omega arith) },
                omega arith,
              ))
        | inr (m, k) ↦
            let erased = purge_mode-Overwrites l "dummy" s e size (dummy_span l) in
            rw m (
              rw k (
                _,
                record { erased = erased; unchanged = erased.fills.after _ _ (omega arith) },
                omega arith,
              ))
      ]

  pub randomize_slot_lem :
      (l : ContainerLayout) (mode role : String) (s : World) {file : Bytes} {span : Span}
      → s.container ≡ some file
      → get_slot_span l mode role ≡ ok span
      → randomize_slot rng l mode role s ≡ (ok tt, filled span.0 span.1 s file)
  unfolding randomize_slot
  randomize_slot_lem l mode role s {file} {span} e p =
      ground (arith, overwrite_lem span.0 span.1 s e)

  -- Randomizing a slot of a container of the layout's size succeeds, puts random bytes over its
  -- span, and leaves the bytes of any other slot as they were.
  pub randomize_slot-Spares :
      (l : ContainerLayout) (mode role m r : String) (s : World) {file : Bytes} {span other : Span}
      → s.container ≡ some file
      → length file ≡ l.container_size
      → get_slot_span l mode role ≡ ok span
      → get_slot_span l m r ≡ ok other
      → (mode ≢ m) ⊎ (role ≢ r)
      → Spares other span file (randomize_slot rng l mode role s)
  randomize_slot-Spares l mode role m r s {file} {span} {other} e size p q d =
      let fills =
        filled-Fills span.0 span.1 s.draws file (omega (arith, slot_span_fits l mode role p)) in
      rw (randomize_slot_lem l mode role s e p) (record {
        erased = record {
          new = write_at span.0 (random_bytes rng span.1 s.draws span.1) file;
          done = refl;
          stored = refl;
          fills = fills;
        };
        unchanged = elim (slot_spans_disjoint l mode role m r p q d) [
          | inl above ↦ fills.after other.0 other.1 above
          | inr below ↦ fills.before other.0 other.1 below
        ];
      })
