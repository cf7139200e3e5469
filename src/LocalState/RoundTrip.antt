-- ===== src/LocalState/RoundTrip.antt =====
-- The key of a state file when it is found again, and what is decrypted of what was encrypted.
use phantasm.Base.{
  ℕ, suc, ◌<◌, ◌≡◌, refl, String, Option, Bool-cases, none, some, [], ◌∷◌, ◌++◌, Bytes, length,
  take, drop, length-append, take-append, drop-append, ◌==◌, arith, inl, inr,
}
use phantasm.Base.Except.{ok}
use phantasm.Platform.{Platform}
use phantasm.LocalState.{
  Files, Secrets, LocalStateCipher, urandom, load_or_create_local_state_key, encryption_key,
  encrypt, decrypt, suffixed, key_from,
}

abbrev pub files : Option Bytes → Option Bytes → ℕ → Files
files state_key blob draws = record { state_key = state_key; blob = blob; draws = draws }

module _ (env : Platform) (secrets : Secrets) where
  load_found :
      (key : Bytes) (b : Option Bytes) (d : ℕ)
      → length key ≡ 32
      → load_or_create_local_state_key env secrets (files (some key) b d)
        ≡ (ok key, files (some key) b d)
  unfolding load_or_create_local_state_key
  load_found key b d size = ground (arith, size)

  load_made :
      (o b : Option Bytes) (d : ℕ)
      → (key : Bytes) × (d' : ℕ) × (length key ≡ 32)
        × (load_or_create_local_state_key env secrets (files o b d)
            ≡ (ok key, files (some key) b d'))
  unfolding load_or_create_local_state_key
  load_made none b d = (env.rng.urandom d 32, suc d, env.rng.length-urandom d 32, refl)
  load_made (some key) b d = elim (Bool-cases (length key == 32)) [
    | inl right ↦ (key, d, ground (arith, right), ground (arith, right))
    | inr wrong ↦ (env.rng.urandom d 32, suc d, env.rng.length-urandom d 32, ground (arith, wrong))
  ]

  module _ (cipher : LocalStateCipher) where
    -- With this key file, whatever else there is, asking for the key gives it and changes nothing.
    pub Keyed : Bytes → Option Bytes → Type 0
    Keyed key o =
        (b : Option Bytes) (d : ℕ)
        → encryption_key env secrets cipher (files o b d) ≡ (ok key, files o b d)

    abbrev KeyOf : Option Bytes → Option Bytes → ℕ → Type 0
    KeyOf o b d =
        (key : Bytes) × (o' : Option Bytes) × (d' : ℕ) × (encryption_key env secrets cipher
            (files o b d)
          ≡ (ok key, files o' b d'))
        × Keyed key o'

    key_from-Keyed :
        (external : Bytes) (o b : Option Bytes) (d : ℕ)
        → (key : Bytes) × (o' : Option Bytes) × (d' : ℕ) × (key_from env secrets external cipher
              (files o b d)
            ≡ (ok key, files o' b d'))
          × ((c : Option Bytes) (n : ℕ)
              → key_from env secrets external cipher (files o' c n) ≡ (ok key, files o' c n))
    key_from-Keyed [] o b d =
        let (key, d', size, made) = load_made o b d in
        (
          suffixed env secrets cipher.local_key_suffix key,
          some key,
          d',
          ground (arith, made),
          λ c n. ground (arith, load_found key c n size),
        )
    key_from-Keyed (x ∷ external) o b d = (secrets.sha256 (x ∷ external), o, d, refl, λ c n. refl)

    pub encryption_key-Keyed : (o b : Option Bytes) (d : ℕ) → KeyOf o b d
    unfolding encryption_key Keyed
    encryption_key-Keyed o b d = key_from-Keyed secrets.state_secret o b d

    pub encrypt_made :
        (plaintext : Bytes) (o b : Option Bytes) (d : ℕ)
        → (payload : Bytes) × (o' : Option Bytes) × (d' : ℕ) × (encrypt env secrets cipher plaintext
              (files o b d)
            ≡ (ok payload, files o' b d'))
          × ((short failed : String) (c : Option Bytes) (n : ℕ)
              → decrypt env secrets cipher payload short failed (files o' c n)
                ≡ (ok plaintext, files o' c n))
    unfolding encrypt decrypt urandom Keyed
    encrypt_made plaintext o b d =
        let (key, o', d', made, again) = encryption_key-Keyed o b (suc d) in
        let nonce = env.rng.urandom d 12 in
        let sealed = env.encrypt key nonce plaintext cipher.aad in
        let size = env.rng.length-urandom d 12 in
        let cut : take 12 (nonce ++ sealed) ≡ nonce = rw size at (take-append nonce sealed) in
        let rest : drop 12 (nonce ++ sealed) ≡ sealed = rw size at (drop-append nonce sealed) in
        let long : 12 < length (nonce ++ sealed) = omega (
          arith,
          length-append nonce sealed,
          size,
          env.length-encrypt key nonce plaintext cipher.aad,
        ) in
        (
          nonce ++ sealed,
          o',
          d',
          ground (arith, made),
          λ short failed c n. ground (
            arith,
            again c n,
            long,
            cut,
            rest,
            env.decrypt-encrypt key nonce plaintext cipher.aad,
          ),
        )
