-- ===== src/Impl/ObjectStorageWorker/Drive.antt =====
-- cpp/streamer/impl/object_storage_worker/object_storage_worker.cc: `capacity`, `discard`, `submit` and
-- `drain_batch`; and cpp/utils/capacity_worker/capacity_worker.h, which drives them.
use runai_model_streamer.Prelude.{
  ℕ, zero, suc, ◌/◌, Bool, true, false, ◌&&◌, not, Option, none, some, List, [], ◌∷◌, leb, ◌==◌,
  if◌then◌else◌, get_elem?, length, size_max, max,
}
use runai_model_streamer.Prelude.Assoc.{lookup}
use runai_model_streamer.Common.ResponseCode.{
  ResponseCode, success, unknown_error, finished_error, empty_request_error, is_success,
}
use runai_model_streamer.Common.Result.{ok, err, Fault, exception, assertion, code_of}
use runai_model_streamer.Common.Response.{Response}
use runai_model_streamer.Impl.Workload.{Workload}
use runai_model_streamer.Utils.CapacityQueue.{CapacityQueue}
use runai_model_streamer.Utils.CapacityQueue
use runai_model_streamer.Impl.ObjectStorageWorker.State.{
  items_of, ObjectChunk, inflight_of, Completion, Backend, Worker, M, after, ◌>>=◌, ◌>>◌, pure, get,
  modify, lift, the, locate,
}
use runai_model_streamer.Impl.ObjectStorageWorker.Complete.{
  report_workload, abort_all, complete_chunk,
}
use runai_model_streamer.Impl.ObjectStorageWorker.Enqueue.{enqueue}

abbrev pub is_finished_error : ResponseCode → Bool
is_finished_error finished_error = true
is_finished_error _ = false

abbrev pub is_empty : List Completion → Bool
is_empty [] = true
is_empty (_ ∷ _) = false

abbrev pub is_busy : Option (CapacityQueue ObjectChunk) → Bool
is_busy none = false
is_busy (some q) = not (CapacityQueue.is_idle q)

abbrev pub pending_of : Option (CapacityQueue ObjectChunk) → List ObjectChunk
pending_of none = []
pending_of (some q) = items_of q.pending

abbrev pub has_pending : Option (CapacityQueue ObjectChunk) → Bool
has_pending none = false
has_pending (some q) = not (CapacityQueue.is_empty q)

abbrev pub is_full : Option (CapacityQueue ObjectChunk) → Bool
is_full none = false
is_full (some q) = leb q.capacity q.inflight

unfoldable pub idle : {Q : Type 0} → Worker Q → Bool
idle s = not (is_busy s.queue)

module _ {Q : Type 0} (push : Q → Response → ℕ → Q) (env : Backend) where
  -- A call of the client: its number, and then the state with one more.
  abbrev pub called : Worker Q → Worker Q
  called s = record s { calls = suc s.calls }

  -- What a failed build of the client records; another exception than common::Exception is only passed on.
  abbrev pub record_error : Fault → Worker Q → Worker Q
  record_error (exception c) s = record s { reader_error = c }
  record_error assertion s = s

  unfoldable pub build_reader : Workload → M Q (Unit {0})
  build_reader w s = elim s.has_reader [
    | true ↦ (ok tt, s)
    | false ↦ elim w.batches [
      | [] ↦ (err assertion, s)
      | b ∷ _ ↦
          let t = record s {
            chunk_bytesize = max 1 b.config.s3_block_bytesize;
            max_responses = max 1 env.max_responses;
            calls = suc s.calls;
          } in
          elim (env.build s.calls) [
            | ok _ ↦ (ok tt, record t { has_reader = true })
            | err e ↦ (err e, record_error e t)
          ]
    ]
  ]

  unfoldable pub window : ℕ → ℕ
  window chunk_bytesize =
      if env.max_inflight_bytes == size_max
      then size_max
      else max 1 (env.max_inflight_bytes / chunk_bytesize)

  unfoldable pub capacity : Workload → M Q ℕ
  unfolding build_reader window
  capacity w = elim w.batches [
    | [] ↦ lift (err (exception empty_request_error))
    | _ ∷ _ ↦ (do build_reader w; s ← get; pure (window s.chunk_bytesize))
  ]

  unfoldable pub discard_code : Workload → ResponseCode → ResponseCode
  discard_code w reader_error = elim w.batches [
    | [] ↦ empty_request_error
    | _ ∷ _ ↦ if is_success reader_error then unknown_error else reader_error
  ]

  unfoldable pub discard : Workload → Worker Q → Worker Q
  unfolding discard_code
  discard w s = record s {
    world = (report_workload push (inflight_of w) (discard_code w s.reader_error) s.world).1;
    reader_error = success;
  }

  -- The read of a chunk whose task has no error yet.
  unfoldable pub read_chunk : ObjectChunk → (base task_idx : ℕ) → M Q (Unit {0})
  read_chunk c base task_idx s = elim (env.async_read s.calls c) [
    | ok _ ↦ (ok tt, called s)
    | err e ↦ complete_chunk push base task_idx (code_of e) (called s)
  ]

  unfoldable pub submit : ObjectChunk → M Q (Unit {0})
  unfolding read_chunk
  submit c = do
    s ← get
    place ← lift (the (locate c.handle s.inflight))
    wl ← lift (the (lookup place.0 s.inflight))
    ts ← lift (the (get_elem? wl.tasks place.1))
    elim (is_success ts.error) [
      | true ↦ read_chunk c place.0 place.1
      | false ↦ complete_chunk push place.0 place.1 ts.error
    ]

  -- The loop over the events of a round, with `progressed`; it gives that and `responder_drained`.
  unfoldable pub complete_events : List Completion → Bool → M Q (Bool × Bool)
  complete_events [] progressed s = (ok (progressed, false), s)
  complete_events (r ∷ rs) progressed s = elim (is_finished_error r.ret) [
    | true ↦ (ok (progressed, true), s)
    | false ↦ elim (locate r.handle s.inflight) [
      | none ↦ complete_events rs progressed s
      | some (base, task_idx) ↦
          after (complete_chunk push base task_idx r.ret s) (λ _. complete_events rs true)
    ]
  ]

  -- A round of responses that the client gave with Success.
  unfoldable pub take_events : List Completion → M Q (Unit {0})
  unfolding complete_events
  take_events responses = do
    out ← complete_events responses false
    let drained = if is_empty responses then true else out.1
    s ← get
    if not out.0 && drained && is_busy s.queue
        then modify (abort_all push finished_error)
        else pure tt

  unfoldable pub drain_batch : M Q (Unit {0})
  unfolding take_events
  drain_batch s = elim s.has_reader [
    | false ↦ (ok tt, s)
    | true ↦ elim (env.stopped s.calls) [
      | true ↦ (ok tt, abort_all push finished_error (called s))
      | false ↦
          let t = called s in
          let (r, responses) = env.async_response t.calls t.max_responses in
          elim (is_success r) [
            | true ↦ take_events responses (called t)
            | false ↦ (ok tt, abort_all push r (called t))
          ]
    ]
  ]

  -- The loop of `pump`, on fuel.
  unfoldable pub pump_on : ℕ → M Q (Unit {0})
  unfolding submit
  pump_on zero s = (ok tt, s)
  pump_on (suc fuel) s = elim s.queue [
    | none ↦ (err assertion, s)
    | some q ↦ elim (CapacityQueue.try_take q) [
      | none ↦ (ok tt, s)
      | some (c, q') ↦ after (submit c (record s { queue = some q' })) (λ _. pump_on fuel)
    ]
  ]

  -- Each round takes a chunk off the queue, and no chunk is added.
  unfoldable pub pump : M Q (Unit {0})
  unfolding pump_on
  pump s = pump_on (suc (length (pending_of s.queue))) s

  -- The loop of `execute`, on fuel: whether it came to its end. How many rounds it takes is up to the
  -- backend, which may hand out completions that make no room.
  unfoldable pub submit_all : ℕ → M Q Bool
  unfolding pump drain_batch
  submit_all zero s = (ok false, s)
  submit_all (suc fuel) s = elim (has_pending s.queue) [
    | false ↦ (ok true, s)
    | true ↦ after (pump s) (λ _ t.
        after (if has_pending t.queue then drain_batch t else (ok tt, t)) (λ _. submit_all fuel))
  ]

  -- `execute` once the window is up.
  unfoldable pub execute_in : ℕ → Workload → M Q Bool
  unfolding submit_all
  execute_in fuel w = do
    enqueue push w
    ended ← submit_all fuel
    s ← get
    if ended && is_full s.queue then (do drain_batch; pure ended) else pure ended

  unfoldable pub execute : ℕ → Workload → M Q Bool
  unfolding capacity discard execute_in
  execute fuel w s = elim s.queue [
    | some _ ↦ execute_in fuel w s
    | none ↦
        let (r, t) = capacity w s in
        elim r [
          | ok n ↦ execute_in fuel w (record t { queue = some (CapacityQueue.create n) })
          | err e ↦ (ok true, discard w t)
        ]
  ]

  unfoldable pub drain : M Q (Unit {0})
  unfolding drain_batch pump
  drain s = elim s.queue [ none ↦ (ok tt, s) | some _ ↦ after (drain_batch s) (λ _. pump) ]
