-- ===== src/AccessTokens/Tests.antt =====
-- A device whose token file is counted fields.
use phantasm.Base.{
  eq_iff, ℕ, zero, suc, ◌≡◌, refl, ap, String, true, false, none, some, [], ◌∷◌, ◌++◌, Bytes,
  length, take, drop, take-append, drop-append, codes, bytes_eq, str_eq, ◌==◌, if◌then◌else◌, arith,
}
use phantasm.Base.Dict.{Dict, lookup}
use phantasm.Base.Except.{Result, ok, err}
use phantasm.Storage.{Error, json_decode_error}
use phantasm.Platform.Sample.{simple}
use phantasm.LocalState.{Files, Secrets}
use phantasm.LocalState.RoundTrip.{files}
use phantasm.Web.{granted_role}
use phantasm.AccessTokens.{
  Codec, Document, object, Entry, fields, no_dict, entry, AllRoles, AllIssued, is_role, role_store,
  role_recover, digest, issue, revoke,
}
use phantasm.AccessTokens.Bootstrap.{
  token_service, unpinned, OpensBootstrap, bootstrap_until_issued,
}

abbrev tag : String → ℕ
tag role = if str_eq role role_store then 0 else 1

abbrev tagged : ℕ → String
tagged n = if n == 0 then role_store else role_recover

tagged-tag : (role : String) → is_role role ≡ true → tagged (tag role) ≡ role
tagged-tag role valid = ground (arith, valid, eq_iff role role_store, eq_iff role role_recover)

abbrev counted : Bytes → Bytes → Bytes
counted b rest = length b ∷ (b ++ rest)

abbrev text_at : String → Entry → Bytes
unfolding lookup
text_at k (fields f) = elim (lookup k f) [ none ↦ [] | some b ↦ b ]
text_at k no_dict = []

abbrev write : Dict Entry → Bytes
write [] = []
write ((role, e) ∷ d) =
    tag role
    ∷ counted (text_at "salt_b64" e)
        (counted (text_at "hash_b64" e) (counted (text_at "issued_at" e) (write d)))

abbrev field : Bytes → Bytes × Bytes
field [] = ([], [])
field (k ∷ rest) = (take k rest, drop k rest)

abbrev read : ℕ → Bytes → Dict Entry
read zero b = []
read (suc n) [] = []
read (suc n) (k ∷ b) =
    let (salt, b₁) = field b in
    let (hash, b₂) = field b₁ in
    let (time, b₃) = field b₂ in (tagged k, entry salt hash time) ∷ read n b₃

read-write : (d : Dict Entry) → AllRoles d → AllIssued d → read (length d) (write d) ≡ d
unfolding AllRoles AllIssued lookup
read-write [] roles issued = refl
read-write ((role, e) ∷ d) (valid, roles) ((salt, hash, time, same), issued) =
    let rest = write d in
    rw same (
      rw
        (
          take-append salt (counted hash (counted time rest)),
          drop-append salt (counted hash (counted time rest)),
        )
        (rw (take-append hash (counted time rest), drop-append hash (counted time rest))
          (rw
            (
              take-append time rest,
              drop-append time rest,
              tagged-tag role valid,
              read-write d roles issued,
            )
            refl)))

abbrev load_document : Bytes → Result Error Document
load_document [] = err json_decode_error
load_document (n ∷ b) = ok (object (read n b))

abbrev counting_codec : Codec
counting_codec = record {
  utf8 = codes;
  b64encode = λ b. b;
  b64decode = some;
  b64decode-b64encode = λ b. refl;
  dumps = λ d. length d ∷ write d;
  loads = load_document;
  loads-dumps = λ d roles issued. ap (λ x. ok (object x)) (read-write d roles issued);
}

abbrev plain : Secrets
plain = record { sha256 = λ b. b; state_secret = [] }

bootstrap_until_issued_example :
    let salt = simple.rng.urandom 0 16 in
    OpensBootstrap simple plain counting_codec (files none none 0)
    × (s : Files) × (issue simple plain counting_codec unpinned "recover"
          (some "10.0.0.2")
          "t0k"
          (codes "noon")
          (files none none 0)
        ≡ (ok "t0k", s))
    × ((web_token token : String)
        → str_eq token "" ≡ false
        → granted_role (token_service simple plain counting_codec s) web_token token ≡ (
            if bytes_eq
              (digest simple plain counting_codec salt token)
              (digest simple plain counting_codec salt "t0k")
            then some "recover"
            else none))
    × (after : Files) × (revoke simple plain counting_codec unpinned "recover" s ≡ (ok true, after))
    × OpensBootstrap simple plain counting_codec after
bootstrap_until_issued_example =
    bootstrap_until_issued simple plain counting_codec "recover" "t0k" "10.0.0.2" (codes "noon")
      none 0 refl refl
