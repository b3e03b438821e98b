-- ===== src/Impl/ObjectStorageWorker/Account/Chunk.antt =====
-- cpp/streamer/impl/object_storage_worker/object_storage_worker.cc, `complete_chunk`: a chunk of any
-- kind.
use runai_model_streamer.Prelude.{
  ℕ, ◌<◌, ◌^◌, ◌≡◌, refl, subst, true, inl, inr, some, none, List, [], ◌∷◌, arith, get_elem?, set,
  ltb, ◌==◌, if◌then◌else◌, Bool-cases, dec_unsigned,
}
use runai_model_streamer.Prelude.Assoc.{lookup, assign, emplace, lookup-assign}
use runai_model_streamer.Common.ResponseCode.{ResponseCode, success, is_success}
use runai_model_streamer.Common.Result.{ok}
use runai_model_streamer.Impl.Task.{Task}
use runai_model_streamer.Impl.Batch.{Batch, World, settle}
use runai_model_streamer.Impl.Batch.Account.{Log, log}
use runai_model_streamer.Utils.CapacityQueue
use runai_model_streamer.Impl.ObjectStorageWorker.State.{TaskState, Inflight, Worker}
use runai_model_streamer.Impl.ObjectStorageWorker.Complete.{
  map_queue, error_after, report_task, complete_chunk,
}
use runai_model_streamer.Impl.ObjectStorageWorker.Account.{
  IsKept, store-IsKept, answered_workload, responded, respond-responded, responded-IsKept,
}
use runai_model_streamer.Impl.ObjectStorageWorker.Account.Ends.{IsOver, Once, end_task-IsKept}

assign-lookup :
    (base : ℕ) (wl wl' : Inflight) (m : List (ℕ × Inflight))
    → lookup base m ≡ some wl
    → lookup base (assign base wl' m) ≡ some wl'
assign-lookup base wl wl' m e = ground (arith, lookup-assign base base wl' wl m e)

Once-assign :
    (base : ℕ) (wl : Inflight) (m : List (ℕ × Inflight))
    → Once base m
    → Once base (assign base wl m)
unfolding lookup assign
Once-assign base wl [] o = o
Once-assign base wl ((j, v) ∷ m) o = elim (Bool-cases (j == base)) [
  | inl e ↦ rw (e, e) (subst (λ b. if b then lookup base m ≡ none else Once base m) e o)
  | inr e ↦
      rw (e, e)
        (Once-assign base wl m (subst (λ b. if b then lookup base m ≡ none else Once base m) e o))
]

-- The workload when the result of a task is known: the task has ended, or its file has an error.
abbrev pub reported : Inflight → Batch → Task → TaskState → World Log → Inflight
reported wl batch t ts w =
    let ended = (settle log batch.submission_id batch.file_index success t w).0 in
    let left = record batch { tasks = set batch.tasks ts.task ended } in
    record wl {
      workload = record wl.workload {
        batches =
            if is_success ts.error
            then set wl.workload.batches ts.batch left
            else wl.workload.batches;
      };
      error_by_file_index =
          if is_success ts.error
          then wl.error_by_file_index
          else emplace batch.file_index ts.error wl.error_by_file_index;
    }

module _ (submission_id file_index : ℕ) (index : ℕ → ℕ) (p : ℕ) where
  report_task-IsKept :
      (n base : ℕ) (wl : Inflight) (batch : Batch) (t : Task) (ts : TaskState) (s : Worker Log)
      → lookup base s.inflight ≡ some wl
      → get_elem? wl.workload.batches ts.batch ≡ some batch
      → get_elem? batch.tasks ts.task ≡ some t
      → ((s.world.heap t.request).file_index == batch.file_index) ≡ true
      → Once base s.inflight
      → IsKept submission_id file_index index p n s
      → (u : Worker Log) × (report_task log base ts s ≡ (ok tt, u))
        × (lookup base u.inflight ≡ some (reported wl batch t ts s.world))
        × Once base u.inflight
        × IsKept submission_id file_index index p n u
  unfolding report_task
  report_task-IsKept n base wl batch t ts s e f g own o v =
      elim (Bool-cases (is_success ts.error)) [
        | inl c ↦
            let wl' =
              answered_workload submission_id file_index index p n base ts.batch ts.task wl batch t
                s e f g own in
            (
              responded submission_id file_index index p n base ts.batch ts.task wl batch t s e f g
                  own,
              rw (c, report_task)
                  (respond-responded submission_id file_index index p n base ts.batch ts.task wl
                    batch t s e f g own),
              rw (c, reported) (assign-lookup base wl wl' s.inflight e),
              Once-assign base wl' s.inflight o,
              responded-IsKept submission_id file_index index p n base ts.batch ts.task wl batch t s
                  e f g own v,
            )
        | inr c ↦
            let wl' = record wl {
              error_by_file_index = emplace batch.file_index ts.error wl.error_by_file_index;
            } in
            let u = record s { inflight = assign base wl' s.inflight } in
            (
              u,
              rw (c, report_task, e, f) refl,
              rw (c, reported) (assign-lookup base wl wl' s.inflight e),
              Once-assign base wl' s.inflight o,
              store-IsKept submission_id file_index index p n base wl wl' s u e refl refl refl v,
            )
      ]

  -- The state of a task after a chunk of it.
  abbrev pub counted_chunk : ResponseCode → TaskState → TaskState
  counted_chunk ret ts = record ts {
    error = error_after log ret ts.error;
    remaining_chunks = dec_unsigned ts.remaining_chunks;
  }

  abbrev pub counted_workload : ℕ → ResponseCode → TaskState → Inflight → Inflight
  counted_workload idx ret ts wl = record wl { tasks = set wl.tasks idx (counted_chunk ret ts) }

  -- A chunk that completes keeps the account of the request at `p`: what is in flight holds all its
  -- tasks that have yet to end but for `n` of them elsewhere, and a request that has ended has been
  -- answered once, one that has not has not. The workload and the task of the chunk are there, with a
  -- chunk and a task that remain, the request of the task is of the file of its batch, and where the
  -- task is the last one, every batch has ended its tasks or its file has an error once the result of
  -- the task is known.
  pub complete_chunk-IsKept :
      (n base idx : ℕ) (ret : ResponseCode) (wl : Inflight) (ts : TaskState) (batch : Batch)
      (t : Task) (s : Worker Log)
      → lookup base s.inflight ≡ some wl
      → get_elem? wl.tasks idx ≡ some ts
      → get_elem? wl.workload.batches ts.batch ≡ some batch
      → get_elem? batch.tasks ts.task ≡ some t
      → ((s.world.heap t.request).file_index == batch.file_index) ≡ true
      → 0 < ts.remaining_chunks
      → 0 < wl.remaining_tasks
      → wl.remaining_tasks < 2 ^ 64
      → Once base s.inflight
      → (wl.remaining_tasks ≡ 1
          → IsOver
              (reported (counted_workload idx ret ts wl) batch t (counted_chunk ret ts) s.world))
      → IsKept submission_id file_index index p n s
      → (u : Worker Log) × (complete_chunk log base idx ret s ≡ (ok tt, u))
        × IsKept submission_id file_index index p n u
  unfolding complete_chunk
  complete_chunk-IsKept n base idx ret wl ts batch t s e h f g own chunks pos small o over v =
      let ts' = counted_chunk ret ts in
      let wl' = counted_workload idx ret ts wl in
      let s' = record s {
        queue = map_queue (λ q. CapacityQueue.complete q 1) s.queue;
        inflight = assign base wl' s.inflight;
      } in
      let v' =
        store-IsKept submission_id file_index index p n base wl wl' s s' e refl refl refl v in
      let some_left : ltb 0 ts.remaining_chunks ≡ true = ground (arith, chunks) in
      elim (Bool-cases (dec_unsigned ts.remaining_chunks == 0)) [
        | inr more ↦ (s', rw (e, h, some_left, more, complete_chunk) refl, v')
        | inl last ↦
            let (u, r, at, once, kept) =
              report_task-IsKept n base wl' batch t ts' s' (assign-lookup base wl wl' s.inflight e)
                f g own (Once-assign base wl' s.inflight o) v' in
            let (z, q, done) =
              end_task-IsKept submission_id file_index index p n base
                (reported wl' batch t ts' s'.world) u at pos small once over kept in
            (z, rw (e, h, some_left, last, complete_chunk) (rw r q), done)
      ]
