-- ===== src/Vault/Blank.antt =====
-- A vault of 1024 bytes that nothing was stored in yet, for the tests.
use phantasm.Base.{◌≡◌, refl, none, [], ◌∷◌, Bytes, replicate, codes, true}
use phantasm.Base.Dict.{lookup}
use phantasm.Base.Except.{ok}
use phantasm.Storage.{World, read_at, write_at}
use phantasm.Storage.Sample.{holding}
use phantasm.Container.{ContainerLayout, get_slot_span, overwrite}
use phantasm.Container
use phantasm.Platform.Sample.{simple}
use phantasm.RecordCipher.{decrypt_record}
use phantasm.KdfEngine
use phantasm.KdfEngine.{derive_key, context_password}
use phantasm.Vault.{
  open_record, recover, read_slot, read_container, retrieve_slot, retrieve_open_only,
  format_container, rotate_access_key,
}

abbrev pub layout : ContainerLayout
layout = record { container_size = 1024 }

abbrev pub blank : Bytes
blank = replicate 1024 7

pub retrieve_open_only-blank :
    retrieve_open_only simple layout (codes "alpha") (codes "dummy" ∷ []) "dummy" (holding blank)
    ≡ (ok none, holding blank)
unfolding retrieve_open_only retrieve_slot read_container read_slot recover open_record derive_key
    context_password decrypt_record get_slot_span lookup read_at
retrieve_open_only-blank = refl

abbrev pub remade : World
remade = (format_container simple layout true (holding blank)).1

pub format_container-remade : format_container simple layout true (holding blank) ≡ (ok tt, remade)
unfolding format_container Container.format_container overwrite rotate_access_key
    KdfEngine.rotate_access_key
format_container-remade = refl

pub retrieve_open_only-remade :
    retrieve_open_only simple layout (codes "alpha") (codes "dummy" ∷ []) "dummy" remade
    ≡ (ok none, remade)
unfolding retrieve_open_only retrieve_slot read_container read_slot recover open_record derive_key
    context_password decrypt_record get_slot_span lookup read_at format_container
    Container.format_container overwrite rotate_access_key KdfEngine.rotate_access_key
    Container.write_random write_at
retrieve_open_only-remade = refl
