-- ===== src/KdfEngine/Keys.antt =====
-- The access key when keys are derived, and its rotation and destruction.
use phantasm.Base.{
  ℕ, suc, ◌≡◌, refl, String, true, false, Option, none, some, List, ◌++◌, Bytes, length, arith,
}
use phantasm.Base.Except.{ok}
use phantasm.Storage.{World}
use phantasm.Platform.{Platform}
use phantasm.KdfEngine.{
  access_key_size, context_password, join_secrets, local_part, derive_key, rotate_access_key,
  destroy_access_keys,
}

module _ (env : Platform) where
  -- The key for a slot when the access key file holds `local_key`, or is not there.
  abbrev pub slot_key : Option Bytes → Bytes → List Bytes → String → Bytes → String → Bytes
  slot_key local_key password gestures mode salt role =
      env.argon2id salt (local_part local_key ++ join_secrets env.secrets)
        (context_password password gestures mode role)

  -- The access key file is not there, or holds a key of the right size.
  abbrev pub IsUsable : Option Bytes → Type 0
  IsUsable none = Unit
  IsUsable (some key) = length key ≡ access_key_size

  pub derive_key_create :
      (password : Bytes) (gestures : List Bytes) (mode : String) (salt : Bytes) (role : String)
      (s : World)
      → IsUsable s.access_key
      → (key : Bytes) × (draws : ℕ) × (length key ≡ access_key_size)
        × ((old : Bytes) → s.access_key ≡ some old → key ≡ old)
        × (derive_key env password gestures mode salt role true s ≡ (
          ok (slot_key (some key) password gestures mode salt role),
          record s { access_key = some key; draws = draws },
        ))
  derive_key_create password gestures mode salt role s =
      create s.access_key s.container s.draws s.clock
    where
      create :
          (a : Option Bytes) (c : Option Bytes) (d t : ℕ)
          → IsUsable a
          → (key : Bytes) × (draws : ℕ) × (length key ≡ access_key_size)
            × ((old : Bytes) → a ≡ some old → key ≡ old)
            × (derive_key env password gestures mode salt role true
                  (record { container = c; access_key = a; draws = d; clock = t })
                ≡ (
                  ok (slot_key (some key) password gestures mode salt role),
                  record { container = c; access_key = some key; draws = draws; clock = t },
                ))
      create none c d t u = (
        env.rng.urandom d 32,
        suc d,
        env.rng.length-urandom d 32,
        λ old e. cc,
        unfold derive_key in refl,
      )
      create (some key) c d t u = (key, d, u, λ old e. cc, unfold derive_key in ground (arith, u))

  pub derive_key_found :
      (password : Bytes) (gestures : List Bytes) (mode : String) (salt : Bytes) (role : String)
      (s : World) {key : Bytes}
      → s.access_key ≡ some key
      → length key ≡ access_key_size
      → derive_key env password gestures mode salt role false s
        ≡ (ok (slot_key (some key) password gestures mode salt role), s)
  unfolding derive_key
  derive_key_found password gestures mode salt role s e h = ground arith

  -- Destroying an access key that is there succeeds, removes the file, and leaves the same state
  -- whatever the key was.
  pub destroy_access_keys_forgets :
      (s : World) (a b : Bytes)
      → (destroy_access_keys env (record s { access_key = some a })
          ≡ destroy_access_keys env (record s { access_key = some b }))
        × ((destroy_access_keys env (record s { access_key = some a })).0 ≡ ok tt)
        × ((destroy_access_keys env (record s { access_key = some a })).1.access_key ≡ none)
  unfolding destroy_access_keys
  destroy_access_keys_forgets s a b = (refl, refl, refl)

  -- Rotation replaces whatever access key there was, none or an invalid one included, by 32 new
  -- random bytes, from which keys are then derived.
  pub rotate_access_key_renews :
      (s : World) (before : Option Bytes) (password : Bytes) (gestures : List Bytes) (mode : String)
      (salt : Bytes) (role : String)
      → let (r, t) = rotate_access_key env (record s { access_key = before }) in
        (r ≡ ok tt)
        × (t ≡ record s { access_key = some (env.rng.urandom s.draws 32); draws = suc s.draws })
        × (derive_key env password gestures mode salt role false t ≡ (
          ok (slot_key (some (env.rng.urandom s.draws 32)) password gestures mode salt role),
          t,
        ))
  unfolding rotate_access_key
  rotate_access_key_renews s before password gestures mode salt role = (
    refl,
    refl,
    derive_key_found password gestures mode salt role
        (record s { access_key = some (env.rng.urandom s.draws 32); draws = suc s.draws }) refl
        (env.rng.length-urandom s.draws 32),
  )
