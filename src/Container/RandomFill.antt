-- ===== src/Container/RandomFill.antt =====
-- `_write_random`: the chunks that it writes, put together.
use phantasm.Base.{
  ℕ, zero, suc, ◌+◌, ◌-◌, ◌≤◌, min, ◌≡◌, refl, ◌∙◌, inl, inr, [], ◌++◌, Bytes, length,
  length-append, ltb, if◌then◌else◌, Bool-cases, arith,
}
use phantasm.Storage.{write_at, write_at-write_at, Entropy}
use phantasm.Container.{Handle, handle_write, write_random_loop, write_random, random_chunk}

module _ (rng : Entropy) where
  -- The chunks in a row, and how many calls of os.urandom they take.
  pub random_bytes : ℕ → ℕ → ℕ → Bytes
  random_bytes zero draws remaining = []
  random_bytes (suc fuel) draws remaining =
      let block = min remaining random_chunk in
      let rest = rng.urandom draws block ++ random_bytes fuel (suc draws) (remaining - block) in
      if ltb 0 remaining then rest else []

  pub random_calls : ℕ → ℕ → ℕ
  random_calls zero remaining = 0
  random_calls (suc fuel) remaining =
      let rest = suc (random_calls fuel (remaining - min remaining random_chunk)) in
      if ltb 0 remaining then rest else 0

  pub length-random_bytes :
      (fuel draws remaining : ℕ)
      → remaining ≤ fuel
      → length (random_bytes fuel draws remaining) ≡ remaining
  unfolding random_bytes
  length-random_bytes zero draws remaining h = omega arith
  length-random_bytes (suc fuel) draws remaining h = ground (
    arith,
    length-append {0} (rng.urandom draws (min remaining random_chunk))
        (random_bytes fuel (suc draws) (remaining - min remaining random_chunk)),
    rng.length-urandom draws (min remaining random_chunk),
    length-random_bytes fuel (suc draws) (remaining - min remaining random_chunk),
  )

  -- The loop, on enough rounds, is one write of the chunks in a row.
  write_random_loop_lem :
      (fuel remaining : ℕ) (h : Handle)
      → remaining ≤ fuel
      → write_random_loop rng fuel remaining h ≡ record {
        file = write_at h.position (random_bytes fuel h.draws remaining) h.file;
        position = h.position + remaining;
        draws = h.draws + random_calls fuel remaining;
      }
  unfolding write_random_loop random_bytes random_calls
  write_random_loop_lem zero remaining h k = unfold write_at in ground arith
  write_random_loop_lem (suc fuel) remaining h k = elim (Bool-cases (ltb 0 remaining)) [
    | inr done ↦ rw done (unfold write_at in ground arith)
    | inl more ↦
        let block = min remaining random_chunk in
        let chunk = rng.urandom h.draws block in
        let h' = handle_write chunk (record h { draws = suc h.draws }) in
        rw more (
          write_random_loop_lem fuel (remaining - block) h' (ground arith)
          ∙ ground (
            arith,
            rng.length-urandom h.draws block,
            write_at-write_at h.position (h.position + length chunk) chunk
                (random_bytes fuel (suc h.draws) (remaining - block)) h.file refl,
          ))
  ]

  -- `_write_random` is one write of `length` random bytes at the position of the handle.
  pub write_random_lem :
      (len : ℕ) (h : Handle)
      → write_random rng len h ≡ record {
        file = write_at h.position (random_bytes len h.draws len) h.file;
        position = h.position + len;
        draws = h.draws + random_calls len len;
      }
  unfolding write_random
  write_random_lem len h = write_random_loop_lem len len h (omega arith)
