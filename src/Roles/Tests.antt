-- ===== src/Roles/Tests.antt =====
-- A supervisor whose key is derived by joining salt and passphrase.
use phantasm.Base.{
  ◌≡◌, refl, true, false, Option, none, some, [], ◌∷◌, ◌++◌, Bytes, length, take, drop, take-append,
  drop-append, codes, ◌*◌, ◌&&◌, bytes_eq,
}
use phantasm.Base.Dict.{lookup}
use phantasm.Base.Except.{Result, ok, err}
use phantasm.Storage.{Error, json_decode_error}
use phantasm.Platform.Sample.{simple}
use phantasm.LocalState.{Files, Secrets}
use phantasm.LocalState.RoundTrip.{files}
use phantasm.Roles.{Codec, Payload, entry, supervisor_entry, hash, configure_supervisor, clear}
use phantasm.Roles.Signing.{role_store, timely, grant_signed}
use phantasm.Approval.{DualApprovalGate, grant, second}

abbrev or_empty : Option Bytes → Bytes
or_empty none = []
or_empty (some b) = b

abbrev write_entry : Payload → Bytes
unfolding lookup
write_entry (supervisor_entry d) =
    let salt = or_empty (lookup "salt" d) in length salt ∷ (salt ++ or_empty (lookup "hash" d))
write_entry _ = []

abbrev read_entry : Bytes → Result Error Payload
read_entry [] = err json_decode_error
read_entry (k ∷ rest) = ok (entry (take k rest) (drop k rest))

read_entry-write_entry :
    (salt hash : Bytes) → read_entry (write_entry (entry salt hash)) ≡ ok (entry salt hash)
unfolding lookup
read_entry-write_entry salt hash = rw (take-append salt hash, drop-append salt hash) refl

abbrev joining : Codec
joining = record {
  pbkdf2_hmac = λ name passphrase salt rounds size. salt ++ passphrase;
  utf8 = codes;
  hex = λ b. b;
  fromhex = some;
  fromhex-hex = λ b. refl;
  dumps = write_entry;
  loads = read_entry;
  loads-dumps = read_entry-write_entry;
}

abbrev secrets : Secrets
secrets = record { sha256 = λ b. take 32 b; state_secret = [] }

abbrev pending : DualApprovalGate
pending = record {
  pending =
      (
        "initialize_container",
        record {
          action_id = "initialize_container";
          nonce = "07";
          created_at = 5 * second;
          ttl_seconds = 300;
        },
      )
      ∷ [];
  grants = [];
}

grant_signed_example :
    ((grant 1 2 3 "07" "sesame"
        (role_store simple secrets joining
          (configure_supervisor simple secrets joining true "sesame" (files none none 0)).1)
        pending).0.ok
      ≡ (timely simple secrets joining 2 "07" pending
          && bytes_eq
              (hash simple secrets joining "sesame" (simple.rng.urandom 0 32))
              (hash simple secrets joining "sesame" (simple.rng.urandom 0 32))))
    × ((s : Files)
        → (grant 1 2 3 "07" "sesame"
            (role_store simple secrets joining (clear simple secrets joining true true s).1)
            pending).0.ok
          ≡ false)
grant_signed_example =
    grant_signed simple secrets joining "sesame" "sesame" "07" 1 2 3 pending none none 0 refl
