-- ===== src/RegistrySeal/Fallback.antt =====
-- A sealed file that cannot be read reads as one without details.
use phantasm.Base.{
  ◌≡◌, refl, Option-cases, [], Bytes, length, take, drop, leb, String, arith, ◌⊎◌, inl, inr,
  Bool-cases,
}
use phantasm.Base.Dict.{Dict}
use phantasm.Base.Except.{ok, err}
use phantasm.Storage.{value_error}
use phantasm.Platform.{Platform}
use phantasm.LocalState.{Files, Secrets, LocalStateCipher, decrypt}
use phantasm.LocalState.RoundTrip.{encryption_key-Keyed}
use phantasm.RegistrySeal.{Values, Codec, load, discard, seal_cipher, vessels_of}

module _ (env : Platform) (secrets : Secrets) (cipher : LocalStateCipher) where
  -- Decrypting gives a plaintext or a ValueError, and no other error.
  decrypt-cases :
      (payload : Bytes) (short failed : String) (s : Files)
      → ((plaintext : Bytes) × ((decrypt env secrets cipher payload short failed s).0
            ≡ ok plaintext))
        ⊎ ((message : String) × ((decrypt env secrets cipher payload short failed s).0
              ≡ err (value_error message)))
  unfolding decrypt
  decrypt-cases payload short failed s =
      let (key, o, d, made, again) =
        encryption_key-Keyed env secrets cipher s.state_key s.blob s.draws in
      elim (Bool-cases (leb (length payload) 12)) [
        | inl is_short ↦ inr (short, ground (arith, is_short))
        | inr long ↦
            elim (Option-cases (env.decrypt key (take 12 payload) (drop 12 payload) cipher.aad)) [
              | inl wrong ↦ inr (failed, ground (arith, long, made, wrong))
              | inr (plaintext, right) ↦ inl (plaintext, ground (arith, long, made, right))
            ]
      ]

module _ {Json : Type 0} (values : Values Json) (codec : Codec values) (env : Platform)
    (secrets : Secrets) where
  -- Loading never raises, whatever lies in the sealed file and whichever key is there; after the file is
  -- discarded, it gives no vessel.
  pub load_total :
      (s : Files)
      → ((sealed : Dict Json) × ((load values env secrets codec s).0 ≡ ok sealed))
        × ((load values env secrets codec (discard values env secrets codec s).1).0 ≡ ok [])
  unfolding load discard
  load_total s = (
    elim (Option-cases s.blob) [
      | inl absent ↦ ([], ground (arith, absent))
      | inr (payload, there) ↦
          elim (decrypt-cases env secrets (seal_cipher values) payload
            "sealed registry blob is truncated" "sealed registry blob failed authentication" s) [
              | inl (plaintext, opened) ↦ (
                vessels_of values env secrets codec (codec.loads plaintext),
                ground (arith, there, opened),
              )
              | inr (message, refused) ↦ ([], ground (arith, there, refused))
            ]
    ],
    refl,
  )
