-- ===== src/Container.antt =====
-- container_layout.py: where the modes and slots lie in the container file, and the overwriting of
-- spans with random bytes.
pub mod Spans
pub mod RandomFill
pub mod Erasure
mod Tests
use phantasm.Base.{
  ℕ, zero, suc, ◌+◌, ◌-◌, ◌*◌, ◌/◌, min, String, Bool, ◌||◌, Option, none, some, [], Bytes, length,
  ltb, leb, str_eq, if◌then◌else◌,
}
use phantasm.Base.Except.{Result, ok, err, ◌>>=◌, ◌>>◌, lift}
use phantasm.Storage.{write_at, Error, file_not_found, value_error, World, Vault, Entropy}

abbrev pub open_role : String
open_role = "open"

abbrev pub purge_role : String
purge_role = "purge"

abbrev pub record_overhead : ℕ
record_overhead = 16 + 12 + 16

abbrev pub random_chunk : ℕ
random_chunk = 1024 * 1024

pub record ContainerLayout : Type 0 where
  pub container_size : ℕ

unfoldable pub require_container : Vault (Unit {0})
require_container s = elim s.container [ none ↦ (err file_not_found, s) | some _ ↦ (ok tt, s) ]

-- A start and a length.
abbrev pub Span : Type 0
Span = ℕ × ℕ

unfoldable pub get_mode_span : ContainerLayout → String → Result Error Span
get_mode_span l mode =
    if str_eq mode "secret"
    then ok (l.container_size / 2, l.container_size - l.container_size / 2)
    else if str_eq mode "dummy"
    then ok (0, l.container_size / 2)
    else err (value_error "unsupported mode")

-- the two halves of a mode's span
abbrev slot_of : String → Span → Span
slot_of role (start, span_len) =
    if str_eq role open_role
    then (start, span_len / 2)
    else (start + span_len / 2, span_len - span_len / 2)

abbrev slot_of_result : String → Result Error Span → Result Error Span
slot_of_result role (ok span) = ok (slot_of role span)
slot_of_result role (err e) = err e

unfoldable pub get_slot_span : ContainerLayout → String → String → Result Error Span
unfolding get_mode_span
get_slot_span l mode role =
    if str_eq role open_role || str_eq role purge_role
    then slot_of_result role (get_mode_span l mode)
    else err (value_error "unsupported password role")

abbrev capacity_of : Result Error Span → Result Error ℕ
capacity_of (ok (start, span_len)) =
    if leb span_len (record_overhead + 4)
    then err (value_error "container is too small for encrypted record")
    else ok (span_len - record_overhead)
capacity_of (err e) = err e

unfoldable pub get_plaintext_capacity : ContainerLayout → String → String → Result Error ℕ
unfolding get_slot_span
get_plaintext_capacity l mode role = capacity_of (get_slot_span l mode role)

-- An open binary file: its bytes, the position, and the calls of os.urandom so far.
pub record Handle : Type 0 where
  pub file : Bytes
  pub position : ℕ
  pub draws : ℕ

handle_write : Bytes → Handle → Handle
handle_write payload h = record h {
  file = write_at h.position payload h.file;
  position = h.position + length payload;
}

module _ (rng : Entropy) where
  -- The `while remaining > 0` of `_write_random`; a round writes at least one byte, so as many
  -- rounds as bytes are enough.
  write_random_loop : ℕ → ℕ → Handle → Handle
  unfolding handle_write
  write_random_loop zero remaining h = h
  write_random_loop (suc fuel) remaining h =
      let block = min remaining random_chunk in
      let rest =
        write_random_loop fuel (remaining - block)
          (handle_write (rng.urandom h.draws block) (record h { draws = suc h.draws })) in
      if ltb 0 remaining then rest else h

  unfoldable pub write_random : ℕ → Handle → Handle
  unfolding write_random_loop
  write_random len h = write_random_loop len len h

  -- `with open(path, "r+b") as f: f.seek(start); self._write_random(f, length)`
  unfoldable pub overwrite : ℕ → ℕ → Vault (Unit {0})
  overwrite start len s = elim s.container [
    | none ↦ (err file_not_found, s)
    | some file ↦
        let h = write_random len (record { file = file; position = start; draws = s.draws }) in
        (ok tt, record s { container = some h.file; draws = h.draws })
  ]

  -- Opening with "wb" makes the file empty first; the chmod changes no bytes.
  unfoldable pub format_container : ContainerLayout → Vault (Unit {0})
  format_container l s = overwrite 0 l.container_size (record s { container = some [] })

  unfoldable pub silent_brick : ContainerLayout → Vault (Unit {0})
  unfolding require_container
  silent_brick l = do require_container; overwrite 0 l.container_size

  unfoldable pub purge_mode : ContainerLayout → String → Vault (Unit {0})
  unfolding require_container
  purge_mode l mode = do
    require_container
    (start, len) ← lift (get_mode_span l mode)
    overwrite start len

  unfoldable pub randomize_slot : ContainerLayout → String → String → Vault (Unit {0})
  unfolding require_container
  randomize_slot l mode role = do
    require_container
    (start, len) ← lift (get_slot_span l mode role)
    overwrite start len

  unfoldable pub purge_other_mode : ContainerLayout → String → Vault (Unit {0})
  unfolding purge_mode
  purge_other_mode l accessed =
      if str_eq accessed "dummy"
      then purge_mode l "secret"
      else if str_eq accessed "secret"
      then purge_mode l "dummy"
      else lift (err (value_error "unsupported mode"))
