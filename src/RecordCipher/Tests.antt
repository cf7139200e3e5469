-- ===== src/RecordCipher/Tests.antt =====
-- Names and records at concrete inputs.
use phantasm.Base.{
  ◌+◌, ◌≡◌, refl, false, some, none, [], ◌∷◌, Bytes, codes, length, replicate, arith,
}
use phantasm.Base.Dict.{lookup}
use phantasm.Base.Except.{ok}
use phantasm.Storage.{World}
use phantasm.Storage.Sample.{holding}
use phantasm.Container.{ContainerLayout, get_plaintext_capacity}
use phantasm.Platform.{metadata}
use phantasm.Platform.Sample.{simple}
use phantasm.RecordCipher.{Sealed, pack, basename, or_default, encrypt_record, decrypt_record}
use phantasm.RecordCipher.Names.{has_slash, has_slash-basename}
use phantasm.RecordCipher.RoundTrip.{Fits, recovered_name, decrypt_record-encrypt_record}

basename_of_path : basename (codes "/etc/../a/b.txt") ≡ codes "b.txt"
unfolding basename
basename_of_path = refl

pack_300 : pack 300 ≡ ok (0 ∷ 0 ∷ 1 ∷ 44 ∷ [])
unfolding pack
pack_300 = refl

has_slash-basename_example : has_slash (basename (codes "../../x")) ≡ false
has_slash-basename_example = has_slash-basename (codes "../../x")

abbrev layout : ContainerLayout
layout = record { container_size = 1024 }

abbrev world : World
world = holding []

abbrev salt : Bytes
salt = replicate 16 1

note-Fits : Fits simple layout (1 ∷ 2 ∷ []) "dummy" "open" none 1000
unfolding get_plaintext_capacity lookup basename
note-Fits = record { capacity = 212; room = refl; enough = omega arith; short = omega arith }

decrypt_record-encrypt_record_example :
    (sealed : Sealed) × (encrypt_record simple layout
        (1 ∷ 2 ∷ [])
        (codes "key")
        "dummy"
        "open"
        none
        none
        none
        (some salt)
        world
      ≡ (ok sealed, record world { draws = 2 }))
    × (sealed.salt ≡ salt)
    × (length sealed.nonce ≡ 12)
    × (length sealed.ciphertext ≡ note-Fits.capacity + 16)
    × (decrypt_record simple layout sealed.ciphertext (codes "key") sealed.nonce "dummy" "open"
        ≡ ok (record {
          payload = 1 ∷ 2 ∷ [];
          filename = recovered_name none;
          fields = metadata "open" (basename (or_default none)) 2 1000;
        }))
decrypt_record-encrypt_record_example =
    decrypt_record-encrypt_record simple layout (1 ∷ 2 ∷ []) (codes "key") "dummy" "open" none salt
      world note-Fits
