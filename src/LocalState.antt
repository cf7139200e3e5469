-- ===== src/LocalState.antt =====
-- local_state_crypto.py: small state files, encrypted under a key that lies beside them or that an
-- external secret gives. A store has one key file and one encrypted file; an error keeps the changes
-- that were made before it.
pub mod RoundTrip
use phantasm.Base.{
  ℕ, suc, ◌≡◌, String, Bool, Option, none, some, List, [], ◌∷◌, ◌++◌, Bytes, length, take, drop,
  leb, ◌==◌, if◌then◌else◌,
}
use phantasm.Base.Except.{Result, ok, err, Method, pure, lift, gets, modify, require, ◌>>=◌, ◌>>◌}
use phantasm.Storage.{Error, value_error}
use phantasm.Platform.{Platform}

pub record Files : Type 0 where
  pub state_key : Option Bytes
  pub blob : Option Bytes
  -- how often os.urandom was called
  pub draws : ℕ

abbrev pub State : Type 0 → Type 0
State A = Method Files Error A

-- What hashlib and the configuration give: `state_secret()`, empty if there is none
pub record Secrets : Type 0 where
  pub sha256 : Bytes → Bytes
  pub state_secret : Bytes

pub record LocalStateCipher : Type 0 where
  pub aad : Bytes
  pub local_key_suffix : Option Bytes

module _ (env : Platform) (secrets : Secrets) where
  unfoldable pub urandom : ℕ → State Bytes
  urandom size s = (ok (env.rng.urandom s.draws size), record s { draws = suc s.draws })

  abbrev new_key : State Bytes
  new_key s =
      let key = env.rng.urandom s.draws 32 in
      (ok key, record s { state_key = some key; draws = suc s.draws })

  -- A key that is not 32 bytes long is replaced.
  unfoldable pub load_or_create_local_state_key : State Bytes
  load_or_create_local_state_key s = elim s.state_key [
    | none ↦ new_key s
    | some key ↦ if length key == 32 then (ok key, s) else new_key s
  ]

  abbrev suffixed : Option Bytes → Bytes → Bytes
  suffixed none key = key
  suffixed (some suffix) key = secrets.sha256 (key ++ suffix)

  abbrev key_from : Bytes → LocalStateCipher → State Bytes
  key_from [] cipher =
      load_or_create_local_state_key >>= λ key. pure (suffixed cipher.local_key_suffix key)
  key_from (c ∷ external) cipher = pure (secrets.sha256 (c ∷ external))

  unfoldable pub encryption_key : LocalStateCipher → State Bytes
  encryption_key cipher = key_from secrets.state_secret cipher

  unfoldable pub encrypt : LocalStateCipher → Bytes → State Bytes
  encrypt cipher plaintext = urandom 12 >>= λ nonce.
      encryption_key cipher >>= λ key. pure (nonce ++ env.encrypt key nonce plaintext cipher.aad)

  abbrev authenticated : String → Option Bytes → Result Error Bytes
  authenticated message none = err (value_error message)
  authenticated message (some plaintext) = ok plaintext

  unfoldable pub decrypt : LocalStateCipher → Bytes → String → String → State Bytes
  decrypt cipher payload too_short_message auth_failed_message =
      if leb (length payload) 12
      then lift (err (value_error too_short_message))
      else (encryption_key cipher >>= λ key. lift (
          authenticated auth_failed_message
            (env.decrypt key (take 12 payload) (drop 12 payload) cipher.aad)))
