-- ===== src/Impl/ObjectStorageWorker/Enqueue/Register.antt =====
-- cpp/streamer/impl/object_storage_worker/object_storage_worker.cc, `enqueue`: the chunks of a task are
-- registered.
use runai_model_streamer.Prelude.{
  ℕ, zero, suc, ◌+◌, ◌≤◌, ◌<◌, ◌^◌, ◌≡◌, refl, sym, ap, ◌∙◌, subst, false, some, List, [], ◌∷◌,
  ◌++◌, append_assoc, append-nil, arith, length, get_elem?, set, length-set, add_unsigned, ◌==◌,
  if◌then◌else◌, Bool-cases, inl, inr,
}
use runai_model_streamer.Utils.CapacityQueue.{CapacityQueue, Entry}
use runai_model_streamer.Utils.CapacityQueue
use runai_model_streamer.Impl.ObjectStorageWorker.State.{ObjectChunk, items_of, TaskState, Inflight}
use runai_model_streamer.Impl.ObjectStorageWorker.Enqueue.{one_chunk_more, register_chunks}

items_of-append :
    (es : List (Entry ObjectChunk)) (e : Entry ObjectChunk)
    → items_of (es ++ (e ∷ [])) ≡ items_of es ++ (e.item ∷ [])
items_of-append [] e = refl
items_of-append (x ∷ es) e = ap (◌∷◌ x.item) (items_of-append es e)

pub get_elem?-set :
    {A : Type 0} (xs : List A) (i j : ℕ) (v : A)
    → i < length xs
    → get_elem? (set xs i v) j ≡ (if i == j then some v else get_elem? xs j)
get_elem?-set [] i j v h = absurd (omega arith)
get_elem?-set (x ∷ xs) zero zero v h = refl
get_elem?-set (x ∷ xs) zero (suc j) v h = ground arith
get_elem?-set (x ∷ xs) (suc i) zero v h = ground arith
get_elem?-set (x ∷ xs) (suc i) (suc j) v h = ground (arith, get_elem?-set xs i j v)

pub inside : {A : Type 0} (xs : List A) (i : ℕ) (x : A) → get_elem? xs i ≡ some x → i < length xs
inside [] i x h = absurd cc
inside (y ∷ xs) zero x h = omega arith
inside (y ∷ xs) (suc i) x h = omega (arith, inside xs i x h)

-- The chunks `cs` of the task at `k` are registered, from chunk `n` on.
pub record Registered (n k : ℕ) (cs : List ObjectChunk) (ts : TaskState) (wl : Inflight)
    (q : CapacityQueue ObjectChunk) (wl' : Inflight) (q' : CapacityQueue ObjectChunk) : Type 0 where
  pub queued : items_of q'.pending ≡ items_of q.pending ++ cs
  pub window : (q'.capacity ≡ q.capacity) × (q'.inflight ≡ q.inflight)
  pub counted :
      get_elem? wl'.tasks k
      ≡ some (record ts { remaining_chunks = ts.remaining_chunks + length cs })
  pub others : (j : ℕ) → k == j ≡ false → get_elem? wl'.tasks j ≡ get_elem? wl.tasks j
  pub owned : (i : ℕ) → n ≤ i → i < n + length cs → get_elem? wl'.chunk_task_idx i ≡ some k
  pub before : (i : ℕ) → i < n → get_elem? wl'.chunk_task_idx i ≡ get_elem? wl.chunk_task_idx i
  pub size : length wl'.chunk_task_idx ≡ length wl.chunk_task_idx

one_chunk_more_lem :
    (tasks : List TaskState) (k : ℕ) (ts : TaskState)
    → get_elem? tasks k ≡ some ts
    → one_chunk_more tasks k
      ≡ set tasks k (record ts { remaining_chunks = add_unsigned ts.remaining_chunks 1 })
one_chunk_more_lem tasks k ts e = rw (e, one_chunk_more) refl

-- Chunks of a task that is in the list.
pub register_chunks-Registered :
    (cs : List ObjectChunk) (n k : ℕ) (ts : TaskState) (wl : Inflight)
    (q : CapacityQueue ObjectChunk)
    → get_elem? wl.tasks k ≡ some ts
    → ts.remaining_chunks + length cs < 2 ^ 32
    → n + length cs ≤ length wl.chunk_task_idx
    → let (wl', q') = register_chunks n k cs (wl, q) in Registered n k cs ts wl q wl' q'
unfolding register_chunks CapacityQueue.enqueue add_unsigned
register_chunks-Registered [] n k ts wl q e small fits = record {
  queued = sym (append-nil (items_of q.pending));
  window = (refl, refl);
  counted =
      let z : ts.remaining_chunks + 0 ≡ ts.remaining_chunks = omega arith in
      e ∙ ap (λ x. some (record ts { remaining_chunks = x })) (sym z);
  others = λ j h. refl;
  owned = λ i h l. absurd (omega arith);
  before = λ i h. refl;
  size = refl;
}
register_chunks-Registered (c ∷ cs) n k ts wl q e small fits =
    let ts' = record ts { remaining_chunks = add_unsigned ts.remaining_chunks 1 } in
    let one : add_unsigned ts.remaining_chunks 1 ≡ ts.remaining_chunks + 1 = omega arith in
    let step = one_chunk_more_lem wl.tasks k ts e in
    let room : n < length wl.chunk_task_idx = omega arith in
    let in_tasks = inside wl.tasks k ts e in
    let wl1 = record wl {
      chunk_task_idx = set wl.chunk_task_idx n k;
      tasks = one_chunk_more wl.tasks k;
    } in
    let q1 = CapacityQueue.enqueue q c 1 in
    let e1 : get_elem? wl1.tasks k ≡ some ts' =
      rw step (get_elem?-set wl.tasks k k ts' in_tasks ∙ ground arith) in
    let len = length-set wl.chunk_task_idx n k in
    let v =
      register_chunks-Registered cs (suc n) k ts' wl1 q1 e1 (omega (arith, one))
        (omega (arith, len)) in
    record {
      queued =
          v.queued
          ∙ (ap (λ x. x ++ cs) (items_of-append q.pending (record { item = c; cost = 1 }))
              ∙ append_assoc (items_of q.pending) (c ∷ []) cs);
      window = v.window;
      counted =
          v.counted ∙ ap (λ x. some (record ts { remaining_chunks = x })) (omega (arith, one));
      others = λ j h. v.others j h ∙ rw step (get_elem?-set wl.tasks k j ts' in_tasks ∙ rw h refl);
      owned = λ i h l. elim (Bool-cases (n == i)) [
        | inl f ↦
            let p : n ≡ i = ground arith in
            subst
              (λ x. get_elem? (register_chunks n k (c ∷ cs) (wl, q)).0.chunk_task_idx x ≡ some k) p
              (v.before n (omega arith)
                ∙ (get_elem?-set wl.chunk_task_idx n n k room ∙ ground arith))
        | inr f ↦ v.owned i (ground arith) (omega arith)
      ];
      before = λ i h.
          let f : n == i ≡ false = ground arith in
          v.before i (omega arith) ∙ (get_elem?-set wl.chunk_task_idx n i k room ∙ rw f refl);
      size = v.size ∙ len;
    }
