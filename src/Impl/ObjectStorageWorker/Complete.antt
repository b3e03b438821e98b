-- ===== src/Impl/ObjectStorageWorker/Complete.antt =====
-- cpp/streamer/impl/object_storage_worker/object_storage_worker.cc: `complete_chunk`,
-- `report_workload`, `finalize` and `abort_all`.
use runai_model_streamer.Prelude.{
  ℕ, Bool, true, false, ◌&&◌, not, Option, none, some, List, [], ◌∷◌, ltb, ◌==◌, if◌then◌else◌,
  get_elem?, set, sub_size, dec_unsigned,
}
use runai_model_streamer.Prelude.Assoc.{lookup, emplace, assign, erase}
use runai_model_streamer.Common.ResponseCode.{ResponseCode, success, is_success}
use runai_model_streamer.Common.Result.{assert}
use runai_model_streamer.Common.Response.{Response}
use runai_model_streamer.Impl.Batch.{Batch, World, handle_error}
use runai_model_streamer.Impl.Batch
use runai_model_streamer.Utils.CapacityQueue.{CapacityQueue}
use runai_model_streamer.Utils.CapacityQueue
use runai_model_streamer.Impl.ObjectStorageWorker.State.{
  ObjectChunk, TaskState, Inflight, Worker, M, ◌>>=◌, ◌>>◌, pure, get, modify, lift, the,
}

abbrev pub map_queue :
    (CapacityQueue ObjectChunk → CapacityQueue ObjectChunk)
    → Option (CapacityQueue ObjectChunk)
    → Option (CapacityQueue ObjectChunk)
map_queue f none = none
map_queue f (some q) = some (f q)

-- The code for one batch: that of an abort, or else the error of its file, if there is one.
unfoldable pub code_for : ResponseCode → Option ResponseCode → ResponseCode
code_for code none = code
code_for code (some e) = if is_success code then e else code

module _ {Q : Type 0} (push : Q → Response → ℕ → Q) where
  unfoldable pub report_batches :
      List (ℕ × ResponseCode) → ResponseCode → List Batch → World Q → List Batch × World Q
  unfolding code_for
  report_batches errors code [] w = ([], w)
  report_batches errors code (b ∷ bs) w =
      let (b', w') = handle_error push b (code_for code (lookup b.file_index errors)) w in
      let (bs', w'') = report_batches errors code bs w' in (b' ∷ bs', w'')

  unfoldable pub report_workload : Inflight → ResponseCode → World Q → Inflight × World Q
  unfolding report_batches
  report_workload wl code w =
      let (bs, w') = report_batches wl.error_by_file_index code wl.workload.batches w in
      (record wl { workload = record wl.workload { batches = bs } }, w')

  -- The iterator is named by its key.
  unfoldable pub finalize : ℕ → Inflight → ResponseCode → Worker Q → Worker Q
  unfolding report_workload
  finalize base wl code s = record s {
    inflight = erase base s.inflight;
    world = (report_workload wl code s.world).1;
  }

  -- The loop of `abort_all`, over the entries that it finalizes one by one.
  unfoldable pub finalize_all : List (ℕ × Inflight) → ResponseCode → Worker Q → Worker Q
  unfolding finalize
  finalize_all [] code s = s
  finalize_all ((base, wl) ∷ m) code s = finalize_all m code (finalize base wl code s)

  unfoldable pub abort_all : ResponseCode → Worker Q → Worker Q
  unfolding finalize_all
  abort_all code s =
      let t = finalize_all s.inflight code s in
      record t { queue = map_queue CapacityQueue.clear t.queue }

  -- `batch->handle_response({Success}, task)`, where both are in the workload at `base`.
  unfoldable pub respond : ℕ → ℕ → ℕ → M Q (Unit {0})
  respond base b k = do
    s ← get
    wl ← lift (the (lookup base s.inflight))
    batch ← lift (the (get_elem? wl.workload.batches b))
    out ← lift (Batch.handle_response push batch success (some k) s.world)
    modify (λ t. record t {
      inflight =
          assign base
            (record wl {
              workload = record wl.workload { batches = set wl.workload.batches b out.0 };
            })
            t.inflight;
      world = out.1;
    })

  -- Stores the state of the workload at `base`.
  abbrev pub store : ℕ → Inflight → M Q (Unit {0})
  store base wl = modify (λ t. record t { inflight = assign base wl t.inflight })

  -- The first failing chunk of a task sets its error.
  unfoldable pub error_after : ResponseCode → ResponseCode → ResponseCode
  error_after ret error = if not (is_success ret) && is_success error then ret else error

  -- The result of a task whose last chunk is done: a response, or an error of its file.
  unfoldable pub report_task : ℕ → TaskState → M Q (Unit {0})
  unfolding respond
  report_task base ts = elim (is_success ts.error) [
    | true ↦ respond base ts.batch ts.task
    | false ↦ do
      s ← get
      wl ← lift (the (lookup base s.inflight))
      batch ← lift (the (get_elem? wl.workload.batches ts.batch))
      store base (record wl {
        error_by_file_index = emplace batch.file_index ts.error wl.error_by_file_index;
      })
  ]

  -- The last task finalizes the workload.
  unfoldable pub end_with : ℕ → Inflight → Bool → M Q (Unit {0})
  unfolding finalize
  end_with base wl true = modify (finalize base wl success)
  end_with base wl false = store base wl

  -- One task fewer.
  unfoldable pub end_task : ℕ → M Q (Unit {0})
  unfolding end_with
  end_task base = do
    s ← get
    wl ← lift (the (lookup base s.inflight))
    let wl' = record wl { remaining_tasks = sub_size wl.remaining_tasks 1 }
    end_with base wl' (wl'.remaining_tasks == 0)

  unfoldable pub complete_chunk : ℕ → ℕ → ResponseCode → M Q (Unit {0})
  unfolding error_after report_task end_task
  complete_chunk base task_idx ret = do
    modify (λ t. record t { queue = map_queue (λ q. CapacityQueue.complete q 1) t.queue })
    s ← get
    wl ← lift (the (lookup base s.inflight))
    ts ← lift (the (get_elem? wl.tasks task_idx))
    lift (assert (ltb 0 ts.remaining_chunks))
    let ts' = record ts {
      error = error_after ret ts.error;
      remaining_chunks = dec_unsigned ts.remaining_chunks;
    }
    store base (record wl { tasks = set wl.tasks task_idx ts' })
    elim (ts'.remaining_chunks == 0) [
      | true ↦ (do report_task base ts'; end_task base)
      | false ↦ pure tt
    ]
