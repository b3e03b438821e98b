-- ===== src/Impl/ObjectStorageWorker/Locate.antt =====
-- cpp/streamer/impl/object_storage_worker/object_storage_worker.cc, `locate`: the workload that owns a
-- handle.
use runai_model_streamer.Prelude.{
  ℕ, zero, suc, ◌<◌, ◌==◌, ◌++◌, sym, ◌⊎◌, Option-cases, ◌+◌, ◌-◌, ◌≤◌, ◌≡◌, refl, ◌∙◌, false,
  Option, none, some, List, [], ◌∷◌, arith, ltb, length, get_elem?, Bool-cases, inl, inr,
}
use runai_model_streamer.Prelude.Assoc.{lookup}
use runai_model_streamer.Impl.ObjectStorageWorker.State.{Inflight, owner, in_block, locate}

-- The blocks of handles are in order and apart: each ends before the next one begins.
abbrev pub Apart : (from : ℕ) → List (ℕ × Inflight) → Type 0
Apart from [] = Unit
Apart from ((base, wl) ∷ m) = (from ≤ base) × Apart (base + length wl.chunk_task_idx) m

-- The handles of one block, from `at` on, each with the key of its workload and its task.
abbrev pub block : (base at : ℕ) → List ℕ → List (ℕ × (ℕ × ℕ))
block base at [] = []
block base at (task ∷ tasks) = (at, (base, task)) ∷ block base (suc at) tasks

-- All handles that are in flight, each with the key of its workload and its task.
abbrev pub all_handles : List (ℕ × Inflight) → List (ℕ × (ℕ × ℕ))
all_handles [] = []
all_handles ((base, wl) ∷ m) = block base base wl.chunk_task_idx ++ all_handles m

abbrev task_of : (base : ℕ) → Option ℕ → Option (ℕ × ℕ)
task_of base none = none
task_of base (some task) = some (base, task)

-- A block that begins behind the handle, or ends before it, does not have it.
lookup-block_outside :
    (handle base at : ℕ) (tasks : List ℕ) (rest : List (ℕ × (ℕ × ℕ)))
    → (handle < at) ⊎ (at + length tasks ≤ handle)
    → lookup handle (block base at tasks ++ rest) ≡ lookup handle rest
unfolding lookup
lookup-block_outside handle base at [] rest h = refl
lookup-block_outside handle base at (task ∷ tasks) rest (inl h) =
    let e : at == handle ≡ false = ground (arith, h) in
    rw e (lookup-block_outside handle base (suc at) tasks rest (inl (omega (arith, h))))
lookup-block_outside handle base at (task ∷ tasks) rest (inr h) =
    let e : at == handle ≡ false = ground (arith, h) in
    rw e (lookup-block_outside handle base (suc at) tasks rest (inr (omega (arith, h))))

lookup-block_inside :
    (handle base at : ℕ) (tasks : List ℕ) (rest : List (ℕ × (ℕ × ℕ)))
    → at ≤ handle
    → handle < at + length tasks
    → lookup handle (block base at tasks ++ rest) ≡ task_of base (get_elem? tasks (handle - at))
unfolding lookup
lookup-block_inside handle base at [] rest h k = absurd (omega arith)
lookup-block_inside handle base at (task ∷ tasks) rest h k = elim (Bool-cases (at == handle)) [
  | inl e ↦ let z : handle - at ≡ 0 = ground arith in rw (e, z) refl
  | inr e ↦
      let n : at < handle = ground arith in
      let z : handle - at ≡ suc (handle - suc at) = omega arith in
      rw (e, z) (lookup-block_inside handle base (suc at) tasks rest n (omega arith))
]

-- No block from `from` on has a handle before it.
lookup-all_handles :
    (handle from : ℕ) (m : List (ℕ × Inflight))
    → handle < from
    → Apart from m
    → lookup handle (all_handles m) ≡ none
unfolding lookup
lookup-all_handles handle from [] h a = refl
lookup-all_handles handle from ((base, wl) ∷ m) h a =
    lookup-block_outside handle base base wl.chunk_task_idx (all_handles m)
      (inl (omega (arith, a.0)))
    ∙ lookup-all_handles handle (base + length wl.chunk_task_idx) m (omega (arith, a.0)) a.1

beyond : (xs : List ℕ) (i : ℕ) → length xs ≤ i → get_elem? xs i ≡ none
beyond [] i h = refl
beyond (x ∷ xs) zero h = absurd (omega arith)
beyond (x ∷ xs) (suc i) h = beyond xs i (omega arith)

in_block-map :
    (handle base : ℕ) (wl : Inflight)
    → in_block handle (some (base, wl)) ≡ task_of base (get_elem? wl.chunk_task_idx (handle - base))
in_block-map handle base wl = elim (Option-cases (get_elem? wl.chunk_task_idx (handle - base))) [
  | inl e ↦ rw (e, in_block) refl
  | inr (task, e) ↦ rw (e, in_block) refl
]

-- Only this block begins at or before the handle.
last_block :
    (handle base : ℕ) (wl : Inflight) (m : List (ℕ × Inflight))
    → base ≤ handle
    → lookup handle (all_handles m) ≡ none
    → in_block handle (some (base, wl)) ≡ lookup handle (all_handles ((base, wl) ∷ m))
last_block handle base wl m h n =
    in_block-map handle base wl
    ∙ (elim (Bool-cases (ltb handle (base + length wl.chunk_task_idx))) [
      | inl e ↦
          sym (
            lookup-block_inside handle base base wl.chunk_task_idx (all_handles m) h (ground arith))
      | inr e ↦
          let z = beyond wl.chunk_task_idx (handle - base) (ground arith) in
          rw z (
            sym (
              lookup-block_outside handle base base wl.chunk_task_idx (all_handles m)
                (inr (ground arith))
              ∙ n))
    ])

owner-lookup :
    (handle base : ℕ) (wl : Inflight) (m : List (ℕ × Inflight))
    → base ≤ handle
    → Apart (base + length wl.chunk_task_idx) m
    → in_block handle (owner handle (some (base, wl)) m)
      ≡ lookup handle (all_handles ((base, wl) ∷ m))
unfolding owner
owner-lookup handle base wl [] h a = last_block handle base wl [] h (unfold lookup in refl)
owner-lookup handle base wl ((next, wl') ∷ m) h a = elim (Bool-cases (ltb handle next)) [
  | inl e ↦
      rw (e, owner)
        (last_block handle base wl ((next, wl') ∷ m) h
          (lookup-all_handles handle next ((next, wl') ∷ m) (ground arith) (omega arith, a.1)))
  | inr e ↦
      let k : next ≤ handle = ground arith in
      rw (e, owner)
        (owner-lookup handle next wl' m k a.1
          ∙ sym (
              lookup-block_outside handle base base wl.chunk_task_idx
                (all_handles ((next, wl') ∷ m)) (inr (omega (arith, a.0)))))
]

-- Where the blocks of the workloads in flight are in order and apart, `locate` finds what a look into
-- the table of all their handles finds, in which the i-th handle of a block, counted from its key,
-- stands with that key and the i-th task of the block; and nothing for a handle that no block has.
pub locate-lookup :
    (handle : ℕ) (m : List (ℕ × Inflight))
    → Apart 0 m
    → locate handle m ≡ lookup handle (all_handles m)
unfolding locate owner lookup
locate-lookup handle [] a = refl
locate-lookup handle ((base, wl) ∷ m) a = elim (Bool-cases (ltb handle base)) [
  | inl e ↦
      rw (e, locate)
        (sym (lookup-all_handles handle base ((base, wl) ∷ m) (ground arith) (omega arith, a.1)))
  | inr e ↦
      let k : base ≤ handle = ground arith in rw (e, locate) (owner-lookup handle base wl m k a.1)
]
