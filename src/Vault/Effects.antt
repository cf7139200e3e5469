-- ===== src/Vault/Effects.antt =====
-- What retrieval and the brick leave in the world.
use phantasm.Base.{
  suc, ◌+◌, ◌-◌, inl, inr, Option-cases, ◌≤◌, ◌≡◌, refl, String, false, none, some, List, Bytes,
  length, arith,
}
use phantasm.Base.Except.{Result, ok, err, Result-cases}
use phantasm.Storage.{World, Error, read_at}
use phantasm.Container.{ContainerLayout, Span, get_slot_span}
use phantasm.Container.Erasure.{silent_brick_forgets}
use phantasm.Platform.{Platform}
use phantasm.RecordCipher.{Opened}
use phantasm.KdfEngine.{derive_key}
use phantasm.KdfEngine
use phantasm.Vault.{
  open_record, recover, read_slot, read_container, retrieve_slot, retrieve_with_policy,
  silent_brick,
}

module _ (env : Platform) (l : ContainerLayout) where
  derive_key_reads :
      (password : Bytes) (gestures : List Bytes) (mode : String) (salt : Bytes) (role : String)
      (s : World)
      → (derive_key env password gestures mode salt role false s).1 ≡ s
  unfolding derive_key
  derive_key_reads password gestures mode salt role s = ground arith

  open_record_reads :
      (password : Bytes) (gestures : List Bytes) (mode role : String) (salt nonce text : Bytes)
      (s : World)
      → (open_record env l password gestures mode role salt nonce text s).1 ≡ s
  unfolding open_record
  open_record_reads password gestures mode role salt nonce text s =
      ground (arith, derive_key_reads password gestures mode salt role s)

  recover_state : (r : Result Error Opened × World) → (recover env l r).1 ≡ r.1
  unfolding recover
  recover_state (ok opened, s) = refl
  recover_state (err e, s) = ground arith

  read_slot_reads :
      (password : Bytes) (gestures : List Bytes) (mode role : String) (span : Span) (file : Bytes)
      (s : World)
      → (read_slot env l password gestures mode role span file s).1 ≡ s
  unfolding read_slot
  read_slot_reads password gestures mode role span file s =
      let (start, span_len) = span in
      let salt = read_at start 16 file in
      let nonce = read_at (start + 16) 12 file in
      let text = read_at (start + 16 + 12) (span_len - 16 - 12) file in
      ground (
        arith,
        recover_state (open_record env l password gestures mode role salt nonce text s),
        open_record_reads password gestures mode role salt nonce text s,
      )

  read_container_reads :
      (password : Bytes) (gestures : List Bytes) (mode role : String) (span : Span) (s : World)
      → (read_container env l password gestures mode role span s).1 ≡ s
  unfolding read_container
  read_container_reads password gestures mode role span s = elim (Option-cases s.container) [
    | inl gone ↦ rw gone refl
    | inr (file, at) ↦ ground (arith, read_slot_reads password gestures mode role span file s)
  ]

  retrieve_slot_reads :
      (password : Bytes) (gestures : List Bytes) (mode role : String) (s : World)
      → (retrieve_slot env l password gestures mode role s).1 ≡ s
  unfolding retrieve_slot
  retrieve_slot_reads password gestures mode role s =
      elim (Result-cases (get_slot_span l mode role)) [
        | inl (span, at) ↦ rw at (read_container_reads password gestures mode role span s)
        | inr (e, at) ↦ rw at refl
      ]

  -- Retrieving, whatever it finds or raises, changes neither the container nor the access key, and
  -- draws no random bytes.
  pub retrieve_with_policy_reads :
      (password : Bytes) (gestures : List Bytes) (mode : String) (s : World)
      → (retrieve_with_policy env l password gestures mode s).1 ≡ s
  unfolding retrieve_with_policy
  retrieve_with_policy_reads password gestures mode s = ground (
    arith,
    retrieve_slot_reads password gestures mode "open" s,
    retrieve_slot_reads password gestures mode "purge" s,
    retrieve_slot_reads password gestures mode "purge"
        (retrieve_slot env l password gestures mode "open" s).1,
  )

  -- Where there is an access key and a container no longer than the layout's size, the brick
  -- succeeds, removes the key, and leaves one and the same world whatever both held.
  pub vault_silent_brick_forgets :
      (s : World) (a b k k' : Bytes)
      → length a ≤ l.container_size
      → length b ≤ l.container_size
      → (silent_brick env l (record s { container = some a; access_key = some k })
          ≡ silent_brick env l (record s { container = some b; access_key = some k' }))
        × ((silent_brick env l (record s { container = some a; access_key = some k })).0 ≡ ok tt)
        × ((silent_brick env l (record s { container = some a; access_key = some k })).1.access_key
            ≡ none)
  unfolding silent_brick KdfEngine.destroy_access_keys
  vault_silent_brick_forgets s a b k k' ha hb =
      silent_brick_forgets env.rng l (record s { access_key = none; draws = suc s.draws }) a b ha hb
