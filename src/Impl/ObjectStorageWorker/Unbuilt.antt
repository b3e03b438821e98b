-- ===== src/Impl/ObjectStorageWorker/Unbuilt.antt =====
-- cpp/streamer/impl/object_storage_worker/object_storage_worker.cc: a worker whose client cannot be
-- built.
use runai_model_streamer.Prelude.{
  ℕ, ◌+◌, ◌≡◌, refl, true, false, none, List, ◌∷◌, arith, inl, inr, sym, subst, suc, max, [], ◌++◌,
  ◌==◌, ap, ◌∙◌, subst₂, append_assoc, All, All-append, Bool-cases, if◌then◌else◌, dec_unsigned,
}
use runai_model_streamer.Prelude.Assoc.{lookup}
use runai_model_streamer.Common.Response.{Response}
use runai_model_streamer.Impl.Request.{finished}
use runai_model_streamer.Impl.Task.{Task, finished_request}
use runai_model_streamer.Common.ResponseCode.{ResponseCode, success, unknown_error, is_success}
use runai_model_streamer.Common.Result.{ok, err, Fault, exception, assertion, code_of}
use runai_model_streamer.Impl.Batch.{Batch, World, response_for, settle, settle_all, handle_error}
use runai_model_streamer.Impl.Batch.Account.{Log, log}
use runai_model_streamer.Impl.Batch.Ledger.{pending_in, Entry, Owns, replies}
use runai_model_streamer.Impl.Workload.{Workload}
use runai_model_streamer.Impl.ObjectStorageWorker.State.{inflight_of, Backend, Worker}
use runai_model_streamer.Impl.ObjectStorageWorker.Complete.{
  code_for, report_batches, report_workload,
}
use runai_model_streamer.Impl.ObjectStorageWorker.Abort.{report_workload-Entry}
use runai_model_streamer.Impl.ObjectStorageWorker.Drive.{
  record_error, build_reader, capacity, discard_code, discard, execute,
}

-- The responses of a log after others: some more, all with the code `c`.
abbrev pub Adds : ResponseCode → Log → Log → Type 0
Adds c old new = (fresh : List Response) × (new ≡ fresh ++ old) × All (λ r. r.ret ≡ c) fresh

Adds-trans : (c : ResponseCode) (x y z : Log) → Adds c x y → Adds c y z → Adds c x z
Adds-trans c x y z (f, e, h) (g, d, k) = (
  g ++ f,
  d ∙ (ap (λ l. g ++ l) e ∙ sym (append_assoc g f x)),
  All-append (λ r. r.ret ≡ c) g f k h,
)

-- A task that ends with a failure.
settle-Adds :
    (s f : ℕ) (c : ResponseCode) (t : Task) (w : World Log)
    → is_success c ≡ false
    → Adds c w.responder (settle log s f c t w).1.responder
unfolding settle finished_request finished
settle-Adds s f c t w h = elim (Bool-cases t.is_finished) [
  | inl e ↦ ([], rw (e, settle, finished_request) refl, tt)
  | inr e ↦ elim (Bool-cases ((w.heap t.request).tasks == 1)) [
    | inr g ↦ ([], rw (e, settle, finished_request, g) refl, tt)
    | inl g ↦
        let k : t.request == t.request ≡ true = ground arith in
        (
          response_for s f (record (w.heap t.request) {
            ret = c;
            tasks = dec_unsigned (w.heap t.request).tasks;
          })
              ∷ [],
          rw (e, settle, finished_request, g, k, h) refl,
          (refl, tt),
        )
  ]
]

settle_all-Adds :
    (s f : ℕ) (c : ResponseCode) (ts : List Task) (w : World Log)
    → is_success c ≡ false
    → Adds c w.responder (settle_all log s f c ts w).1.responder
unfolding settle_all
settle_all-Adds s f c [] w h = ([], refl, tt)
settle_all-Adds s f c (t ∷ ts) w h =
    Adds-trans c _ _ _ (settle-Adds s f c t w h)
      (settle_all-Adds s f c ts (settle log s f c t w).1 h)

-- A workload of which no file has an error of its own.
report_batches-Adds :
    (c : ResponseCode) (bs : List Batch) (w : World Log)
    → is_success c ≡ false
    → Adds c w.responder (report_batches log [] c bs w).1.responder
unfolding report_batches code_for handle_error lookup
report_batches-Adds c [] w h = ([], refl, tt)
report_batches-Adds c (b ∷ bs) w h = rw h (
    Adds-trans c _ _ _ (settle_all-Adds b.submission_id b.file_index c b.tasks w h)
      (report_batches-Adds c bs (settle_all log b.submission_id b.file_index c b.tasks w).1 h))

-- The code of the responses where the client cannot be built: that of the exception.
abbrev pub build_code : Fault → ResponseCode
build_code e = if is_success (code_of e) then unknown_error else code_of e

build_code-failure : (e : Fault) → is_success (build_code e) ≡ false
build_code-failure e = ground arith

discard_code-build_code :
    (env : Backend) (w : Workload) (b : Batch) (bs : List Batch) (e : Fault) (t : Worker Log)
    → w.batches ≡ b ∷ bs
    → t.reader_error ≡ success
    → discard_code log env w (record_error log env e t).reader_error ≡ build_code e
unfolding discard_code
discard_code-build_code env w b bs (exception c) t h k = rw (h, discard_code) refl
discard_code-build_code env w b bs assertion t h k = rw (h, discard_code, k) refl

record_error_lem :
    (env : Backend) (e : Fault) (t : Worker Log)
    → ((record_error log env e t).world ≡ t.world)
      × ((record_error log env e t).inflight ≡ t.inflight)
      × ((record_error log env e t).has_reader ≡ t.has_reader)
      × ((record_error log env e t).queue ≡ t.queue)
record_error_lem env (exception c) t = (refl, refl, refl, refl)
record_error_lem env assertion t = (refl, refl, refl, refl)

module _ (env : Backend) (e : Fault) where
  -- The state in which the build has failed.
  abbrev pub failed_state : Batch → Worker Log → Worker Log
  failed_state b s = record_error log env e (record s {
    chunk_bytesize = max 1 b.config.s3_block_bytesize;
    max_responses = max 1 env.max_responses;
    calls = suc s.calls;
  })

  capacity_fails :
      (w : Workload) (b : Batch) (bs : List Batch) (s : Worker Log)
      → w.batches ≡ b ∷ bs
      → s.has_reader ≡ false
      → env.build s.calls ≡ err e
      → capacity log env w s ≡ (err e, failed_state b s)
  unfolding capacity build_reader
  capacity_fails w b bs s f h g = simp (f, h, g, capacity, build_reader)

  execute_discards :
      (fuel : ℕ) (w : Workload) (t s : Worker Log)
      → s.queue ≡ none
      → capacity log env w s ≡ (err e, t)
      → execute log env fuel w s ≡ (ok true, discard log env w t)
  unfolding execute
  execute_discards fuel w t s f h = simp (f, h, execute)

  same_world :
      (b : Batch) (s : Worker Log)
      → ((failed_state b s).world ≡ s.world)
        × ((failed_state b s).inflight ≡ s.inflight)
        × ((failed_state b s).has_reader ≡ s.has_reader)
        × ((failed_state b s).queue ≡ s.queue)
  same_world b s = record_error_lem env e _

-- A worker without a client, a window and a recorded error, whose client cannot be built for a workload
-- with batches: `execute` returns, whatever the fuel. The worker still has no client and no window,
-- the workloads in flight are as before, and the error is forgotten, so that the next workload tries
-- again. The responses that are sent have the code of the exception, or UnknownError where that is
-- Success or where it is no common::Exception. A request of which `n` tasks are elsewhere is counted
-- down by all its tasks in the workload, and has exactly one response if `n` is 0.
pub execute-unbuilt :
    (submission_id file_index : ℕ) (index : ℕ → ℕ) (p n fuel : ℕ) (env : Backend) (e : Fault)
    (w : Workload) (b : Batch) (bs : List Batch) (s : Worker Log)
    → w.batches ≡ b ∷ bs
    → s.queue ≡ none
    → s.has_reader ≡ false
    → s.reader_error ≡ success
    → env.build s.calls ≡ err e
    → Owns submission_id file_index index p w.batches
    → Entry submission_id file_index index p (pending_in p w.batches + n) s.world
    → (t : Worker Log) × (execute log env fuel w s ≡ (ok true, t))
      × ((t.has_reader ≡ false) × (t.queue ≡ none))
      × (t.inflight ≡ s.inflight)
      × (t.reader_error ≡ success)
      × Adds (build_code e) s.world.responder t.world.responder
      × Entry submission_id file_index index p n t.world
      × (n ≡ 0 → replies submission_id file_index (index p) t.world.responder ≡ 1)
unfolding discard report_workload
execute-unbuilt submission_id file_index index p n fuel env e w b bs s f q h r g o v =
    let u = failed_state env e b s in
    let (same, flight, reader, window) = same_world env e b s in
    let c = discard_code log env w u.reader_error in
    let code : c ≡ build_code e = discard_code-build_code env w b bs e _ f r in
    let failure : is_success c ≡ false = ap is_success code ∙ build_code-failure e in
    let k =
      report_workload-Entry submission_id file_index index p n (inflight_of w) c u.world failure o (
        subst (Entry submission_id file_index index p (pending_in p w.batches + n)) (sym same) v) in
    let out = (report_workload log (inflight_of w) c u.world).1.responder in
    (
      discard log env w u,
      execute_discards env e fuel w u s q (capacity_fails env e w b bs s f h g),
      (reader ∙ h, window ∙ q),
      flight,
      refl,
      subst₂ (λ (x : ResponseCode) (y : Log). Adds x y out) code (ap (λ x. x.responder) same)
          (report_batches-Adds c w.batches u.world failure),
      k,
      λ z. ground (arith, k.once, k.counted),
    )
