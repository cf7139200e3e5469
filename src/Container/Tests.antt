-- ===== src/Container/Tests.antt =====
-- Runs of the layout on a container of sixteen bytes, and the theorems at concrete inputs.
use phantasm.Base.{◌≡◌, refl, some, Bytes, ◌∷◌, replicate}
use phantasm.Base.Except.{ok}
use phantasm.Storage.{write_at}
use phantasm.Storage.Sample.{counting, holding}
use phantasm.Container.{
  ContainerLayout, purge_role, get_mode_span, get_slot_span, get_plaintext_capacity, write_random,
  overwrite, purge_mode,
}
use phantasm.Container.Spans.{Tiling, get_slot_span-Tiling}

abbrev small : ContainerLayout
small = record { container_size = 16 }

abbrev old : Bytes
old = replicate 16 7

purge_dummy :
    (purge_mode counting small "dummy" (holding old)).1.container
    ≡ some (200 ∷ 200 ∷ 200 ∷ 200 ∷ 200 ∷ 200 ∷ 200 ∷ 200 ∷ replicate 8 7)
unfolding purge_mode overwrite write_random write_at get_mode_span
purge_dummy = refl

slot_of_secret : get_slot_span small "secret" purge_role ≡ ok (12, 4)
unfolding get_slot_span
slot_of_secret = refl

capacity_in_1024 : get_plaintext_capacity (record { container_size = 1024 }) "dummy" "open" ≡ ok 212
unfolding get_plaintext_capacity
capacity_in_1024 = refl

get_slot_span-Tiling_example : Tiling small
get_slot_span-Tiling_example = get_slot_span-Tiling small
