-- ===== src/Impl/ObjectStorageWorker/Enqueue.antt =====
-- cpp/streamer/impl/object_storage_worker/object_storage_worker.cc: `enqueue`, which splits the tasks of
-- a workload into chunks. Allocations do not fail here; what its `try` block can throw is a failed
-- ASSERT or the error of a response.
pub mod Chunks
pub mod Register
pub mod Handles
use runai_model_streamer.Prelude.{
  ℕ, zero, suc, ◌+◌, ◌-◌, ◌/◌, Bool, true, false, not, Option, none, some, List, [], ◌∷◌, ◌++◌, ltb,
  ◌==◌, if◌then◌else◌, get_elem?, set, length, replicate, add_size, sub_size, add_unsigned, min,
}
use runai_model_streamer.Prelude.Assoc.{lookup, assign, is_some}
use runai_model_streamer.Common.ResponseCode.{success, unknown_error}
use runai_model_streamer.Common.Result.{ok, assert}
use runai_model_streamer.Common.Response.{Response}
use runai_model_streamer.Impl.Task.{Task, destination}
use runai_model_streamer.Impl.Batch.{Batch}
use runai_model_streamer.Impl.Batch
use runai_model_streamer.Impl.Workload.{Workload}
use runai_model_streamer.Utils.CapacityQueue.{CapacityQueue}
use runai_model_streamer.Utils.CapacityQueue
use runai_model_streamer.Impl.ObjectStorageWorker.State.{
  ObjectChunk, TaskState, Inflight, inflight_of, Worker, M, after, ◌>>=◌, ◌>>◌, pure, get, modify,
  lift, handled, try_catch, the, insert,
}
use runai_model_streamer.Impl.ObjectStorageWorker.Complete.{
  map_queue, respond, report_workload, abort_all, store,
}

-- The number of chunks of a task: the ceiling, on `size_t`.
unfoldable pub chunk_count : ℕ → ℕ → ℕ
chunk_count chunk_bytesize bytesize = sub_size (add_size bytesize chunk_bytesize) 1 / chunk_bytesize

-- The loop over one task; the first number is of the rounds left.
unfoldable pub split_chunks :
    (rounds chunk_bytesize handle offset remaining buffer : ℕ) → List ObjectChunk
split_chunks zero chunk_bytesize handle offset remaining buffer = []
split_chunks (suc rounds) chunk_bytesize handle offset remaining buffer =
    let bs = min remaining chunk_bytesize in
    let chunk : ObjectChunk = record {
      handle = handle;
      offset = offset;
      bytesize = bs;
      buffer = buffer;
    } in
    let rest =
      chunk
      ∷ split_chunks rounds chunk_bytesize (add_size handle 1) (add_size offset bs) (remaining - bs)
          (add_size buffer bs) in
    if ltb 0 remaining then rest else []

-- A task with its place: the batch in the workload, and the task in the batch.
pub record Place : Type 0 where
  pub batch : ℕ
  pub task : ℕ
  pub content : Task

places_in : ℕ → ℕ → List Task → List Place
places_in b k [] = []
places_in b k (t ∷ ts) = record { batch = b; task = k; content = t } ∷ places_in b (suc k) ts

-- The tasks of all batches in the order of the two loops.
unfoldable pub places : ℕ → List Batch → List Place
unfolding places_in
places b [] = []
places b (x ∷ xs) = places_in b 0 x.tasks ++ places (suc b) xs

-- The first loop: a task of size zero has no chunk.
unfoldable pub total_chunks : ℕ → List Place → ℕ
unfolding chunk_count
total_chunks chunk_bytesize [] = 0
total_chunks chunk_bytesize (p ∷ ps) =
    let n = if p.content.bytesize == 0 then 0 else chunk_count chunk_bytesize p.content.bytesize in
    add_size n (total_chunks chunk_bytesize ps)

abbrev pub one_chunk_more : List TaskState → ℕ → List TaskState
one_chunk_more tasks k = elim (get_elem? tasks k) [
  | none ↦ tasks
  | some ts ↦ set tasks k (record ts { remaining_chunks = add_unsigned ts.remaining_chunks 1 })
]

-- The chunks of one task, registered one by one.
unfoldable pub register_chunks :
    (next_chunk task_idx : ℕ)
    → List ObjectChunk
    → Inflight × CapacityQueue ObjectChunk
    → Inflight × CapacityQueue ObjectChunk
unfolding CapacityQueue.enqueue
register_chunks next_chunk task_idx [] (wl, q) = (wl, q)
register_chunks next_chunk task_idx (c ∷ cs) (wl, q) =
    register_chunks (suc next_chunk) task_idx cs (
      record wl {
        chunk_task_idx = set wl.chunk_task_idx next_chunk task_idx;
        tasks = one_chunk_more wl.tasks task_idx;
      },
      CapacityQueue.enqueue q c 1,
    )

module _ {Q : Type 0} (push : Q → Response → ℕ → Q) where
  -- A task with bytes: its state, then its chunks.
  unfoldable pub register_task : (base next_chunk : ℕ) → Place → M Q ℕ
  unfolding split_chunks chunk_count register_chunks
  register_task base next_chunk p = do
    s ← get
    wl ← lift (the (lookup base s.inflight))
    q ← lift (the s.queue)
    let t = p.content
    let cs =
        split_chunks (chunk_count s.chunk_bytesize t.bytesize) s.chunk_bytesize
          (add_size base next_chunk) t.offset t.bytesize (destination s.world.heap t)
    let state : TaskState = record {
      batch = p.batch;
      task = p.task;
      remaining_chunks = 0;
      error = success;
    }
    let out =
        register_chunks next_chunk (length wl.tasks) cs
          (record wl { tasks = wl.tasks ++ (state ∷ []) }, q)
    modify (λ u. record u { inflight = assign base out.0 u.inflight; queue = some out.1 })
    pure (next_chunk + length cs)

  -- The two loops of the `try` block.
  unfoldable pub register_tasks : (base next_chunk : ℕ) → List Place → M Q (Unit {0})
  unfolding register_task
  register_tasks base next_chunk [] = pure tt
  register_tasks base next_chunk (p ∷ ps) = do
    next ←
        if p.content.bytesize == 0
        then (do respond push base p.batch p.task; pure next_chunk)
        else register_task base next_chunk p
    register_tasks base next ps

  -- After the loops, every task that has a state is left.
  unfoldable pub register_end : ℕ → M Q (Unit {0})
  register_end base = do
    s ← get
    wl ← lift (the (lookup base s.inflight))
    store push base (record wl { remaining_tasks = length wl.tasks })

  -- A workload without chunks is not entered into the map.
  unfoldable pub respond_all : Workload → List Place → M Q Workload
  respond_all w [] = pure w
  respond_all w (p ∷ ps) = do
    s ← get
    batch ← lift (the (get_elem? w.batches p.batch))
    out ← lift (Batch.handle_response push batch success (some p.task) s.world)
    modify (λ t. record t { world = out.1 })
    respond_all (record w { batches = set w.batches p.batch out.0 }) ps

  unfoldable pub enqueue : Workload → M Q (Unit {0})
  unfolding places total_chunks respond_all register_tasks register_end
  enqueue w = do
    s ← get
    let ps = places 0 w.batches
    let total = total_chunks s.chunk_bytesize ps
    let base = s.async_handle_counter
    let entry = record (inflight_of w) { chunk_task_idx = replicate total 0 }
    elim (total == 0) [
      | true ↦ (do
        w' ← respond_all w ps
        modify
            (λ t. record t { world = (report_workload push (inflight_of w') success t.world).1 }))
      | false ↦ (do
        modify (λ t. record t { async_handle_counter = add_size base total })
        try_catch
            (do
              t ← get
              lift (assert (not (is_some (lookup base t.inflight))))
              modify (λ t. record t { inflight = insert base entry t.inflight })
              register_tasks base 0 ps
              register_end base)
            (λ e. modify (abort_all push unknown_error)))
    ]
