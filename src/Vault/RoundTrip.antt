-- ===== src/Vault/RoundTrip.antt =====
-- Storing and retrieving through the vault: what comes back, from which slot, and what else is
-- touched.
use phantasm.Base.{
  ℕ, ◌+◌, ◌≤◌, ◌<◌, ◌≡◌, ◌≢◌, ◌⊎◌, inl, inr, refl, sym, ap, ◌∙◌, String, false, Option, none, some,
  List, ◌∷◌, Bytes, length, bytes_eq, bytes_eq_refl, arith, eq_iff,
}
use phantasm.Base.Except.{ok, err}
use phantasm.Storage.{
  World, write_at, read_at, length-write_at, read_at-write_at_before, read_at-write_at_after,
  value_error,
}
use phantasm.Container.{
  ContainerLayout, Span, open_role, purge_role, get_slot_span, get_plaintext_capacity,
  randomize_slot,
}
use phantasm.Container.Spans.{IsMode, slot_spans_disjoint, slot_span_fits, span_of}
use phantasm.Container.Erasure.{randomize_slot-Spares, randomize_slot_lem}
use phantasm.Platform.{Platform}
use phantasm.RecordCipher.RoundTrip.{Fits, recovered_name, written_metadata}
use phantasm.KdfEngine.Keys.{IsUsable}
use phantasm.Vault.{
  is_same, write_restricted, store, store_open_only, retrieve_slot, retrieve_open_only,
  retrieve_with_policy,
}
use phantasm.Vault.Slots.{
  Holds, Writes, write_slot-Writes, write_slot_too_large, retrieve_slot-Holds, Holds-keep,
}

module _ (env : Platform) (l : ContainerLayout) where
  -- The vault is formatted: the container has the layout's size, the access key is usable.
  pub record IsFormatted (s : World) : Type 0 where
    pub file : Bytes
    pub at : s.container ≡ some file
    pub size : length file ≡ l.container_size
    pub usable : IsUsable env s.access_key

  -- A write to one slot keeps what any other slot holds.
  pub Writes-Holds :
      (p p' : Bytes) (g g' : List Bytes) (mode role m r : String) {payload name pl nm : Bytes}
      {span : Span} {s t : World}
      → (file : Bytes) → s.container ≡ some file
      → length file ≡ l.container_size
      → get_slot_span l mode role ≡ ok span
      → (mode ≢ m) ⊎ (role ≢ r)
      → Writes env l p g mode role payload name span s t
      → Holds env l p' g' m r pl nm s
      → Holds env l p' g' m r pl nm t
  Writes-Holds p p' g g' mode role m r {span = span} {s = s} file at size q d w h =
      let old_is : w.old ≡ file = cc (w.was, at) in
      let held_is : h.file ≡ file = cc (h.container_at, at) in
      let fits : span.0 + length w.bytes ≤ length w.old =
        omega (arith, slot_span_fits l mode role q, w.fills, size, ap length old_is) in
      let apart : read_at h.span.0 h.span.1 (write_at span.0 w.bytes w.old)
          ≡ read_at h.span.0 h.span.1 w.old =
        elim (slot_spans_disjoint l mode role m r q h.span_at d) [
          | inl above ↦
              read_at-write_at_after h.span.0 h.span.1 span.0 w.bytes w.old (omega (arith, w.fills))
          | inr below ↦
              read_at-write_at_before h.span.0 h.span.1 span.0 w.bytes w.old below (omega arith)
        ] in
      Holds-keep env l p' g' m r {new = write_at span.0 w.bytes w.old} h
        (ap (λ (x : World). x.container) w.state)
        (ap (λ (x : World). x.access_key) w.state ∙ ap some (w.kept h.key h.key_at))
        (apart ∙ ap (read_at h.span.0 h.span.1) (old_is ∙ sym held_is))

  pub Writes-IsFormatted :
      (p : Bytes) (g : List Bytes) (mode role : String) {payload name : Bytes} {span : Span}
      {s t : World}
      → IsFormatted s
      → get_slot_span l mode role ≡ ok span
      → Writes env l p g mode role payload name span s t
      → IsFormatted t
  Writes-IsFormatted p g mode role {span = span} {s = s} v q w =
      let old_is : w.old ≡ v.file = cc (w.was, v.at) in
      let fits : span.0 + length w.bytes ≤ length w.old =
        omega (arith, slot_span_fits l mode role q, w.fills, v.size, ap length old_is) in
      let key_is : w.key ≡ w.holds.key =
        cc (ap (λ (x : World). x.access_key) w.state, w.holds.key_at) in
      record {
        file = write_at span.0 w.bytes w.old;
        at = ap (λ (x : World). x.container) w.state;
        size = length-write_at span.0 w.bytes w.old fits ∙ (ap length old_is ∙ v.size);
        usable = rw (ap (λ (x : World). x.access_key) w.state) (rw key_is w.holds.key_size);
      }

  -- What `store` did before the purge slot is written.
  store_open_part :
      (password payload : Bytes) (gestures : List Bytes) (filename : Option Bytes) (mode : String)
      (restricted : Option Bytes) (s : World)
      → IsFormatted s
      → IsMode mode
      → is_same password restricted ≡ false
      → Fits env l payload mode open_role filename s.clock
      → (t : World) × (store env l password payload gestures filename mode restricted s
          ≡ write_restricted env l payload gestures filename mode restricted t)
        × (t.clock ≡ s.clock)
        × IsFormatted t
        × Holds env l password gestures mode open_role payload (recovered_name filename) t
  unfolding store
  store_open_part password payload gestures filename mode restricted s v im differ f =
      let (span, q) = span_of l mode open_role im (inl refl) in
      let (t, call, w) =
        write_slot-Writes env l password payload gestures filename mode open_role s v.at v.usable q
          f in
      (
        t,
        ground (arith, v.at, differ, call),
        ap (λ (x : World). x.clock) w.state,
        Writes-IsFormatted password gestures mode open_role v q w,
        w.holds,
      )

  policy_at_open :
      (password : Bytes) (gestures : List Bytes) (mode : String) {payload name : Bytes} (t : World)
      → Holds env l password gestures mode open_role payload name t
      → retrieve_with_policy env l password gestures mode t
        ≡ (ok (some (payload, name, open_role)), t)
  unfolding retrieve_with_policy
  policy_at_open password gestures mode t h =
      ground (arith, h.container_at, retrieve_slot-Holds env l password gestures mode open_role t h)

  policy_at_purge :
      (password : Bytes) (gestures : List Bytes) (mode : String) {payload name : Bytes} (t : World)
      → retrieve_slot env l password gestures mode open_role t ≡ (ok none, t)
      → Holds env l password gestures mode purge_role payload name t
      → retrieve_with_policy env l password gestures mode t
        ≡ (ok (some (payload, name, purge_role)), t)
  unfolding retrieve_with_policy
  policy_at_purge password gestures mode t shut h =
      ground (
        arith,
        h.container_at,
        shut,
        retrieve_slot-Holds env l password gestures mode purge_role t h,
      )

  -- In a formatted vault and a known mode, a payload that fits the open slot comes back under the
  -- password that it was stored under, with the name of its file and no directory, from the open
  -- slot, when no recovery password was set; the retrieval changes nothing.
  pub retrieve_with_policy-store :
      (password payload : Bytes) (gestures : List Bytes) (filename : Option Bytes) (mode : String)
      (s : World)
      → IsFormatted s
      → IsMode mode
      → Fits env l payload mode open_role filename s.clock
      → (t : World) × (store env l password payload gestures filename mode none s ≡ (ok tt, t))
        × (retrieve_with_policy env l password gestures mode t
            ≡ (ok (some (payload, recovered_name filename, open_role)), t))
  unfolding is_same write_restricted
  retrieve_with_policy-store password payload gestures filename mode s v im f =
      let (t, call, clock, u, h) =
        store_open_part password payload gestures filename mode none s v im refl f in
      let (span, q) = span_of l mode purge_role im (inr refl) in
      let spares =
        randomize_slot-Spares env.rng l mode purge_role mode open_role t u.at u.size q h.span_at
          (inr λ e. ground (arith, eq_iff "purge" "open")) in
      let done = randomize_slot_lem env.rng l mode purge_role t u.at q in
      let w = (randomize_slot env.rng l mode purge_role t).1 in
      let kept : Holds env l password gestures mode open_role payload (recovered_name filename) w =
        Holds-keep env l password gestures mode open_role {new = spares.erased.new} h
          spares.erased.stored (rw done h.key_at) (cc (spares.unchanged, h.container_at, u.at)) in
      (
        w,
        call ∙ done ∙ ap (λ (x : World). (ok tt, x)) (ap (λ z. z.1) (sym done)),
        policy_at_open password gestures mode w kept,
      )

  -- In a formatted vault and a known mode, with a recovery password that is not empty and differs
  -- from the open one, and a payload that fits both slots: the store succeeds, the open password gets the payload back from the open slot, the recovery password opens the purge
  -- slot and finds the same payload and name there.
  pub retrieve_with_policy-store_restricted :
      (password payload : Bytes) (gestures : List Bytes) (filename : Option Bytes) (mode : String)
      (c : ℕ) (restricted : Bytes) (s : World)
      → IsFormatted s
      → IsMode mode
      → bytes_eq (c ∷ restricted) password ≡ false
      → Fits env l payload mode open_role filename s.clock
      → Fits env l payload mode purge_role filename s.clock
      → (t : World) × (store env l password payload gestures filename mode (some (c ∷ restricted)) s
          ≡ (ok tt, t))
        × (retrieve_with_policy env l password gestures mode t
            ≡ (ok (some (payload, recovered_name filename, open_role)), t))
        × (retrieve_slot env l (c ∷ restricted) gestures mode purge_role t
            ≡ (ok (some (payload, recovered_name filename)), t))
  unfolding is_same write_restricted
  retrieve_with_policy-store_restricted password payload gestures filename mode c restricted s v im
        differ f f' =
      let (t, call, clock, u, h) =
        store_open_part password payload gestures filename mode (some (c ∷ restricted)) s v im
          differ f in
      let (span, q) = span_of l mode purge_role im (inr refl) in
      let (w, call', written) =
        write_slot-Writes env l (c ∷ restricted) payload gestures filename mode purge_role t u.at
          u.usable q (rw clock f') in
      let kept =
        Writes-Holds (c ∷ restricted) password gestures gestures mode purge_role mode open_role
          u.file u.at u.size q (inr λ e. ground (arith, eq_iff "purge" "open")) written h in
      (
        w,
        call ∙ call',
        policy_at_open password gestures mode w kept,
        retrieve_slot-Holds env l (c ∷ restricted) gestures mode purge_role w written.holds,
      )

  -- A failure halfway, in a formatted vault and a known mode, with a recovery password that is not
  -- empty and differs from the open one: the payload fits the open slot and not the purge slot. The
  -- call raises, and yet the open password gets the new payload back from the open slot.
  pub store_half_done :
      (password payload : Bytes) (gestures : List Bytes) (filename : Option Bytes) (mode : String)
      (c : ℕ) (restricted : Bytes) (s : World) {capacity : ℕ}
      → IsFormatted s
      → IsMode mode
      → bytes_eq (c ∷ restricted) password ≡ false
      → Fits env l payload mode open_role filename s.clock
      → get_plaintext_capacity l mode purge_role ≡ ok capacity
      → capacity
        < 4 + length (written_metadata env l payload purge_role filename s.clock) + length payload
      → (t : World) × (store env l password payload gestures filename mode (some (c ∷ restricted)) s
          ≡ (err (value_error "encrypted payload does not fit in the container"), t))
        × (retrieve_with_policy env l password gestures mode t
            ≡ (ok (some (payload, recovered_name filename, open_role)), t))
  unfolding is_same write_restricted
  store_half_done password payload gestures filename mode c restricted s {capacity} v im differ f
        room over =
      let (t, call, clock, u, h) =
        store_open_part password payload gestures filename mode (some (c ∷ restricted)) s v im
          differ f in
      let (span, q) = span_of l mode purge_role im (inr refl) in
      let (w, call', same, stays) =
        write_slot_too_large env l (c ∷ restricted) payload gestures filename mode purge_role t
          u.usable q room (rw clock over) in
      let kept =
        Holds-keep env l password gestures mode open_role {new = h.file} h (same ∙ h.container_at)
          (stays h.key h.key_at) refl in
      (w, call ∙ call', policy_at_open password gestures mode w kept)

  -- Storing without a recovery slot, in a formatted vault and a known mode, a payload that fits the
  -- open slot: the payload comes back, and a record that another slot holds is still found there.
  pub retrieve_open_only-store_open_only :
      (password payload : Bytes) (gestures : List Bytes) (filename : Option Bytes) (mode : String)
      (s : World) (p' : Bytes) (g' : List Bytes) (m r : String) {pl nm : Bytes}
      → IsFormatted s
      → IsMode mode
      → Fits env l payload mode open_role filename s.clock
      → (mode ≢ m) ⊎ (open_role ≢ r)
      → Holds env l p' g' m r pl nm s
      → (t : World) × (store_open_only env l password payload gestures filename mode s ≡ (ok tt, t))
        × (retrieve_open_only env l password gestures mode t
            ≡ (ok (some (payload, recovered_name filename)), t))
        × (retrieve_slot env l p' g' m r t ≡ (ok (some (pl, nm)), t))
  unfolding store_open_only retrieve_open_only
  retrieve_open_only-store_open_only password payload gestures filename mode s p' g' m r v im f d
        h =
      let (span, q) = span_of l mode open_role im (inl refl) in
      let (t, call, w) =
        write_slot-Writes env l password payload gestures filename mode open_role s v.at v.usable q
          f in
      let kept =
        Writes-Holds password p' gestures g' mode open_role m r v.file v.at v.size q d w h in
      (
        t,
        ground (arith, v.at, call),
        ground (
          arith,
          w.holds.container_at,
          retrieve_slot-Holds env l password gestures mode open_role t w.holds,
        ),
        retrieve_slot-Holds env l p' g' m r t kept,
      )

  -- In a formatted vault, one password for both slots is refused before anything is touched.
  pub store_same_password :
      (password payload : Bytes) (gestures : List Bytes) (filename : Option Bytes) (mode : String)
      (s : World)
      → IsFormatted s
      → store env l password payload gestures filename mode (some password) s
        ≡ (err (value_error "open and restricted recovery passwords must be different"), s)
  unfolding store
  store_same_password password payload gestures filename mode s v =
      ground (arith, v.at, bytes_eq_refl password)
