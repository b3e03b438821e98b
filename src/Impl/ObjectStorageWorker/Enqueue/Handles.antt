-- ===== src/Impl/ObjectStorageWorker/Enqueue/Handles.antt =====
-- cpp/streamer/impl/object_storage_worker/object_storage_worker.cc, `enqueue`: a task is registered, and
-- the handles of its chunks lead to it.
use runai_model_streamer.Prelude.{
  ℕ, suc, ◌+◌, ◌-◌, ◌≤◌, ◌<◌, ◌^◌, ◌≡◌, refl, subst, some, List, [], ◌∷◌, ◌++◌, arith, length,
  get_elem?, add_size, add_size-lt, All,
}
use runai_model_streamer.Prelude.Assoc.{lookup, assign, lookup-assign}
use runai_model_streamer.Common.ResponseCode.{success}
use runai_model_streamer.Common.Result.{ok}
use runai_model_streamer.Common.Response.{Response}
use runai_model_streamer.Impl.Task.{destination}
use runai_model_streamer.Utils.CapacityQueue.{CapacityQueue}
use runai_model_streamer.Impl.ObjectStorageWorker.State.{ObjectChunk, TaskState, Inflight, Worker}
use runai_model_streamer.Impl.ObjectStorageWorker.Enqueue.{
  chunk_count, split_chunks, Place, register_chunks, register_task,
}
use runai_model_streamer.Impl.ObjectStorageWorker.Enqueue.Chunks.{Tiled, split_chunks-tile}
use runai_model_streamer.Impl.ObjectStorageWorker.Enqueue.Register.{
  Registered, register_chunks-Registered,
}

-- The handle of a chunk, in the block of handles from `base` on, stands at the task `k`.
abbrev pub LeadsTo : (base k : ℕ) → List ℕ → ObjectChunk → Type 0
LeadsTo base k chunk_task_idx c =
    (base ≤ c.handle) × (get_elem? chunk_task_idx (c.handle - base) ≡ some k)

Tiled-LeadsTo :
    (base n k limit handle offset bytes buffer : ℕ) (idx : List ℕ) (cs : List ObjectChunk)
    → Tiled limit handle offset bytes buffer cs
    → handle ≡ base + n
    → base + n + length cs < 2 ^ 64
    → ((i : ℕ) → n ≤ i → i < n + length cs → get_elem? idx i ≡ some k)
    → All (LeadsTo base k idx) cs
Tiled-LeadsTo base n k limit handle offset bytes buffer idx [] h e small owned = tt
Tiled-LeadsTo base n k limit handle offset bytes buffer idx (c ∷ cs) h e small owned =
    let at : c.handle - base ≡ n = omega (arith, h.0) in
    let next = add_size-lt handle 1 (omega arith) in
    (
      (omega (arith, h.0), rw at (owned n (omega arith) (omega arith))),
      Tiled-LeadsTo base (suc n) k limit _ _ _ _ idx cs h.6 (omega (arith, next)) (omega arith)
          (λ i a b. owned i (omega arith) (omega arith)),
    )

get_elem?-last :
    {A : Type 0} (xs : List A) (x : A) → get_elem? (xs ++ (x ∷ [])) (length xs) ≡ some x
get_elem?-last [] x = refl
get_elem?-last (y ∷ ys) x = get_elem?-last ys x

-- The state of a task that has no chunk yet.
abbrev pub new_state : Place → TaskState
new_state p = record { batch = p.batch; task = p.task; remaining_chunks = 0; error = success }

-- A task is registered from chunk `n` of its workload on, in the block of handles from `base` on, and
-- `cs` are its chunks.
pub record IsRegistered {Q : Type 0} (base n : ℕ) (p : Place) (wl : Inflight)
    (q : CapacityQueue ObjectChunk) (s t : Worker Q) (cs : List ObjectChunk) (wl' : Inflight)
    (q' : CapacityQueue ObjectChunk) : Type 0 where
  pub in_flight : lookup base t.inflight ≡ some wl'
  pub window : t.queue ≡ some q'
  pub count : length cs ≡ chunk_count s.chunk_bytesize p.content.bytesize
  pub tiled :
      Tiled s.chunk_bytesize
        (base + n)
        p.content.offset
        p.content.bytesize
        (destination s.world.heap p.content)
        cs
  pub registered :
      Registered n
        (length wl.tasks)
        cs
        (new_state p)
        (record wl { tasks = wl.tasks ++ (new_state p ∷ []) })
        q
        wl'
        q'
  pub leads : All (LeadsTo base (length wl.tasks) wl'.chunk_task_idx) cs

module _ {Q : Type 0} (push : Q → Response → ℕ → Q) where
  -- A task of a workload that is in flight, with less than 2^32 chunks and room for their handles, in a
  -- block of handles that are `size_t`: `register_task` succeeds and gives the number of the next
  -- chunk. The chunks tile the task; they wait in the queue behind what was there, in order, and the
  -- window is as before. The task has a new state behind the others, which counts each of its chunks
  -- and has no error; the other states are as before. The handle of each chunk, counted from the
  -- start of the block, leads to that state, and the handles before them lead where they did.
  pub register_task-IsRegistered :
      (base n : ℕ) (p : Place) (wl : Inflight) (q : CapacityQueue ObjectChunk) (s : Worker Q)
      → lookup base s.inflight ≡ some wl
      → s.queue ≡ some q
      → 0 < s.chunk_bytesize
      → p.content.bytesize + s.chunk_bytesize < 2 ^ 64
      → chunk_count s.chunk_bytesize p.content.bytesize < 2 ^ 32
      → n + chunk_count s.chunk_bytesize p.content.bytesize ≤ length wl.chunk_task_idx
      → base + length wl.chunk_task_idx < 2 ^ 64
      → (cs : List ObjectChunk) × (wl' : Inflight) × (q' : CapacityQueue ObjectChunk) × (t : Worker
          Q)
        × (register_task push base n p s ≡ (ok (n + length cs), t))
        × IsRegistered base n p wl q s t cs wl' q'
  unfolding register_task
  register_task-IsRegistered base n p wl q s h k pos small few room fits =
      let limit = s.chunk_bytesize in
      let t = p.content in
      let dst = destination s.world.heap t in
      let handle = add_size base n in
      let same : handle ≡ base + n = add_size-lt base n (omega arith) in
      let cs = split_chunks (chunk_count limit t.bytesize) limit handle t.offset t.bytesize dst in
      let (count, tiled) = split_chunks-tile limit handle t.offset t.bytesize dst pos small in
      let wl0 = record wl { tasks = wl.tasks ++ (new_state p ∷ []) } in
      let out = register_chunks n (length wl.tasks) cs (wl0, q) in
      let v =
        register_chunks-Registered cs n (length wl.tasks) (new_state p) wl0 q
          (get_elem?-last wl.tasks (new_state p)) (omega (arith, count)) (omega (arith, count)) in
      (
        cs,
        out.0,
        out.1,
        record s { inflight = assign base out.0 s.inflight; queue = some out.1 },
        rw (h, k, register_task) refl,
        record {
          in_flight = ground (arith, lookup-assign base base out.0 wl s.inflight h);
          window = refl;
          count = count;
          tiled = subst (λ x. Tiled limit x t.offset t.bytesize dst cs) same tiled;
          registered = v;
          leads =
              Tiled-LeadsTo base n (length wl.tasks) limit handle t.offset t.bytesize dst
                out.0.chunk_task_idx cs tiled same (omega (arith, count)) v.owned;
        },
      )
