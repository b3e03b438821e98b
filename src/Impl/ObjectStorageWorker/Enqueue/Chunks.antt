-- ===== src/Impl/ObjectStorageWorker/Enqueue/Chunks.antt =====
-- cpp/streamer/impl/object_storage_worker/object_storage_worker.cc: the chunks of one task.
use runai_model_streamer.Prelude.{
  ℕ, zero, suc, ◌+◌, ◌-◌, ◌*◌, ◌/◌, ◌^◌, ◌≤◌, ◌<◌, ◌≡◌, refl, ap, Bool-cases, inl, inr, List, [],
  ◌∷◌, arith, ltb, true, min, length, add_size, sub_size, add_size-lt, sub_size-le,
}
use native.Mathlib.Nat.{div-mul-le_self, lt-div-mul-add}
use runai_model_streamer.Impl.ObjectStorageWorker.State.{ObjectChunk}
use runai_model_streamer.Impl.ObjectStorageWorker.Enqueue.{chunk_count, split_chunks}

-- The chunks tile `n` bytes of the file from `offset` on, and of the buffer, in order and without a
-- gap; each has some bytes and at most `limit`; their handles follow one another.
abbrev pub Tiled : (limit handle offset n buffer : ℕ) → List ObjectChunk → Type 0
Tiled limit handle offset n buffer [] = n ≡ 0
Tiled limit handle offset n buffer (c ∷ cs) =
    (c.handle ≡ handle)
    × (c.offset ≡ offset)
    × (c.buffer ≡ buffer)
    × (0 < c.bytesize)
    × (c.bytesize ≤ limit)
    × (c.bytesize ≤ n)
    × Tiled limit (add_size handle 1) (add_size offset c.bytesize) (n - c.bytesize)
        (add_size buffer c.bytesize) cs

-- One full chunk more.
full_chunks : (rounds limit : ℕ) → suc rounds * limit ≡ limit + rounds * limit
full_chunks rounds limit = grind arith

split_chunks-Tiled :
    (rounds limit handle offset n buffer : ℕ)
    → 0 < limit
    → n ≤ rounds * limit
    → Tiled limit handle offset n buffer (split_chunks rounds limit handle offset n buffer)
unfolding split_chunks
split_chunks-Tiled zero limit handle offset n buffer p h = omega arith
split_chunks-Tiled (suc rounds) limit handle offset n buffer p h = elim (Bool-cases (ltb 0 n)) [
  | inr e ↦ rw e (ground arith)
  | inl e ↦
      let s : 0 < n = ground arith in
      let f = full_chunks rounds limit in
      rw e (
        refl,
        refl,
        refl,
        omega arith,
        omega arith,
        omega arith,
        split_chunks-Tiled rounds limit (add_size handle 1) (add_size offset (min n limit))
            (n - min n limit) (add_size buffer (min n limit)) p (omega arith),
      )
]

-- As many chunks as there are rounds, if each round but the last has a full chunk.
length-split_chunks :
    (rounds limit handle offset n buffer : ℕ)
    → 0 < limit
    → rounds * limit < n + limit
    → length (split_chunks rounds limit handle offset n buffer) ≡ rounds
unfolding split_chunks
length-split_chunks zero limit handle offset n buffer p h = refl
length-split_chunks (suc rounds) limit handle offset n buffer p h =
    let f = full_chunks rounds limit in
    let e : ltb 0 n ≡ true = ground arith in
    rw e (
      ap suc (
        length-split_chunks rounds limit (add_size handle 1) (add_size offset (min n limit))
          (n - min n limit) (add_size buffer (min n limit)) p (omega arith)))

-- The rounds of the code are enough, and no round is in vain.
chunk_count-fits :
    (limit n : ℕ)
    → 0 < limit
    → n + limit < 2 ^ 64
    → (n ≤ chunk_count limit n * limit) × (chunk_count limit n * limit < n + limit)
unfolding chunk_count
chunk_count-fits limit n p h =
    let e = add_size-lt n limit h in
    let f : sub_size (n + limit) 1 ≡ n + limit - 1 = sub_size-le (n + limit) 1 (omega arith) h in
    let u = div-mul-le_self (n + limit - 1) limit in
    let v : n + limit - 1 < (n + limit - 1) / limit * limit + limit = lt-div-mul-add p in
    rw (e, f) (omega arith, omega arith)

-- A task of `n` bytes has as many chunks as `enqueue` counts before its loops, and they tile its
-- bytes in the file and in the buffer: each but the last is full, none is empty, none is longer
-- than the chunk size, and their handles follow one another.
pub split_chunks-tile :
    (limit handle offset n buffer : ℕ)
    → 0 < limit
    → n + limit < 2 ^ 64
    → (length (split_chunks (chunk_count limit n) limit handle offset n buffer)
        ≡ chunk_count limit n)
      × Tiled limit handle offset n buffer
          (split_chunks (chunk_count limit n) limit handle offset n buffer)
split_chunks-tile limit handle offset n buffer p h =
    let (f, g) = chunk_count-fits limit n p h in
    (
      length-split_chunks (chunk_count limit n) limit handle offset n buffer p g,
      split_chunks-Tiled (chunk_count limit n) limit handle offset n buffer p f,
    )
