-- ===== src/Vault/Tests.antt =====
-- A vault of 1024 bytes: one run through store and retrieve, and the theorems at concrete inputs.
use phantasm.Base.{
  ℕ, ◌≡◌, refl, ap, inl, Option, none, some, [], ◌∷◌, Bytes, replicate, codes, arith, eq_iff,
  bytes_eq, length-replicate,
}
use phantasm.Base.Dict.{lookup}
use phantasm.Base.Except.{ok, err}
use phantasm.Storage.{World, value_error}
use phantasm.Storage.Sample.{holding}
use phantasm.Container.{ContainerLayout, get_plaintext_capacity, get_slot_span}
use phantasm.Platform.Sample.{simple}
use phantasm.RecordCipher.{basename}
use phantasm.RecordCipher.RoundTrip.{Fits, recovered_name}
use phantasm.Vault.{
  write_slot, store, store_open_only, retrieve_open_only, retrieve_slot, retrieve_with_policy,
  silent_brick,
}
use phantasm.Vault.Slots.{Writes, write_slot-Writes}
use phantasm.Vault.RoundTrip.{
  IsFormatted, Writes-IsFormatted, retrieve_with_policy-store,
  retrieve_with_policy-store_restricted, store_half_done, retrieve_open_only-store_open_only,
}
use phantasm.Vault.Effects.{retrieve_with_policy_reads, vault_silent_brick_forgets}

abbrev layout : ContainerLayout
layout = record { container_size = 1024 }

abbrev blank : Bytes
blank = replicate 1024 7

abbrev fresh : World
fresh = holding blank

fresh-IsFormatted : IsFormatted simple layout fresh
fresh-IsFormatted = record {
  file = blank;
  at = refl;
  size = length-replicate {A = ℕ} 1024 7;
  usable = tt;
}

abbrev name : Option Bytes
name = some (codes "/tmp/plan.txt")

abbrev note : Bytes
note = 1 ∷ 2 ∷ []

note-Fits_open : Fits simple layout note "dummy" "open" name 1000
unfolding get_plaintext_capacity lookup basename
note-Fits_open = record { capacity = 212; room = refl; enough = omega arith; short = omega arith }

note-Fits_purge : Fits simple layout note "dummy" "purge" name 1000
unfolding get_plaintext_capacity lookup basename
note-Fits_purge = record { capacity = 212; room = refl; enough = omega arith; short = omega arith }

-- The payload that takes up all of the open slot.
abbrev full : Bytes
full = replicate 192 5

full-Fits_open : Fits simple layout full "dummy" "open" name 1000
unfolding get_plaintext_capacity lookup basename
full-Fits_open = record { capacity = 212; room = refl; enough = omega arith; short = omega arith }

retrieve_with_policy-store_example :
    (t : World) × (store simple layout (codes "alpha") note [] name "dummy" none fresh ≡ (ok tt, t))
    × (retrieve_with_policy simple layout (codes "alpha") [] "dummy" t
        ≡ (ok (some (note, recovered_name name, "open")), t))
retrieve_with_policy-store_example =
    retrieve_with_policy-store simple layout (codes "alpha") note [] name "dummy" fresh
      fresh-IsFormatted (inl refl) note-Fits_open

retrieve_with_policy-store_restricted_example :
    (t : World) × (store simple layout
        (codes "alpha")
        note
        []
        name
        "dummy"
        (some (codes "bravo"))
        fresh
      ≡ (ok tt, t))
    × (retrieve_with_policy simple layout (codes "alpha") [] "dummy" t
        ≡ (ok (some (note, recovered_name name, "open")), t))
    × (retrieve_slot simple layout (codes "bravo") [] "dummy" "purge" t
        ≡ (ok (some (note, recovered_name name)), t))
unfolding bytes_eq
retrieve_with_policy-store_restricted_example =
    retrieve_with_policy-store_restricted simple layout (codes "alpha") note [] name "dummy" b'b'
      (codes "ravo") fresh fresh-IsFormatted (inl refl) refl note-Fits_open note-Fits_purge

store_half_done_example :
    (t : World) × (store simple layout
        (codes "alpha")
        full
        []
        name
        "dummy"
        (some (codes "bravo"))
        fresh
      ≡ (err (value_error "encrypted payload does not fit in the container"), t))
    × (retrieve_with_policy simple layout (codes "alpha") [] "dummy" t
        ≡ (ok (some (full, recovered_name name, "open")), t))
unfolding bytes_eq get_plaintext_capacity lookup basename
store_half_done_example =
    store_half_done simple layout (codes "alpha") full [] name "dummy" b'b' (codes "ravo") fresh
      {capacity = 212} fresh-IsFormatted (inl refl) refl full-Fits_open refl (omega arith)

note-Fits_secret : Fits simple layout note "secret" "open" name 1000
unfolding get_plaintext_capacity lookup basename
note-Fits_secret = record { capacity = 212; room = refl; enough = omega arith; short = omega arith }

-- A first entry in the other mode.
first :
    (t : World) × (write_slot simple layout (codes "delta") note [] name "secret" "open" fresh
      ≡ (ok tt, t))
    × Writes simple layout
        (codes "delta")
        []
        "secret"
        "open"
        note
        (recovered_name name)
        (512, 256)
        fresh
        t
unfolding get_slot_span
first =
    write_slot-Writes simple layout (codes "delta") note [] name "secret" "open" fresh
      {span = (512, 256)} refl tt refl note-Fits_secret

first-IsFormatted : IsFormatted simple layout first.0
unfolding get_slot_span
first-IsFormatted =
    Writes-IsFormatted simple layout (codes "delta") [] "secret" "open" {span = (512, 256)}
      fresh-IsFormatted refl first.2

retrieve_open_only-store_open_only_example :
    (t : World) × (store_open_only simple layout (codes "alpha") note [] name "dummy" first.0
      ≡ (ok tt, t))
    × (retrieve_open_only simple layout (codes "alpha") [] "dummy" t
        ≡ (ok (some (note, recovered_name name)), t))
    × (retrieve_slot simple layout (codes "delta") [] "secret" "open" t
        ≡ (ok (some (note, recovered_name name)), t))
retrieve_open_only-store_open_only_example =
    retrieve_open_only-store_open_only simple layout (codes "alpha") note [] name "dummy" first.0
      (codes "delta") [] "secret" "open" first-IsFormatted (inl refl)
      (rw (ap (λ (w : World). w.clock) first.2.state) note-Fits_open)
      (inl λ e. ground (arith, eq_iff "dummy" "secret")) first.2.holds

retrieve_with_policy_reads_example :
    (retrieve_with_policy simple layout (codes "alpha") [] "dummy" fresh).1 ≡ fresh
retrieve_with_policy_reads_example =
    retrieve_with_policy_reads simple layout (codes "alpha") [] "dummy" fresh

vault_silent_brick_forgets_example :
    (silent_brick simple layout (record fresh { container = some blank; access_key = some note })
      ≡ silent_brick simple layout (record fresh { container = some full; access_key = some full }))
    × ((silent_brick simple layout
          (record fresh { container = some blank; access_key = some note })).0
        ≡ ok tt)
    × ((silent_brick simple layout
          (record fresh { container = some blank; access_key = some note })).1.access_key
        ≡ none)
vault_silent_brick_forgets_example =
    vault_silent_brick_forgets simple layout fresh blank full note full (omega arith) (omega arith)
