-- ===== src/Impl/ObjectStorageWorker/Abort.antt =====
-- cpp/streamer/impl/object_storage_worker/object_storage_worker.cc: a worker that gives up.
use runai_model_streamer.Prelude.{
  ℕ, suc, ◌+◌, ◌≡◌, refl, true, false, not, Option, none, some, List, [], ◌∷◌, arith, ◌==◌,
  if◌then◌else◌, All, sum_by, ◌⊎◌, inl, inr, Bool-cases, subst,
}
use runai_model_streamer.Prelude.Assoc.{lookup, erase, is_some}
use runai_model_streamer.Common.ResponseCode.{ResponseCode, finished_error, is_success}
use runai_model_streamer.Common.Result.{ok}
use runai_model_streamer.Common.Response.{Response}
use runai_model_streamer.Impl.Batch.{Batch, World, handle_error}
use runai_model_streamer.Impl.Batch.Account.{Log, log}
use runai_model_streamer.Impl.Batch.Ledger.{pending_in, Entry, Owns, handle_error-Entry, replies}
use runai_model_streamer.Utils.CapacityQueue.{CapacityQueue}
use runai_model_streamer.Utils.CapacityQueue
use runai_model_streamer.Impl.ObjectStorageWorker.State.{Inflight, Backend, Worker, ObjectChunk}
use runai_model_streamer.Impl.ObjectStorageWorker.Complete.{
  code_for, report_batches, report_workload, finalize, finalize_all, abort_all, map_queue,
}
use runai_model_streamer.Impl.ObjectStorageWorker.Drive.{drain_batch, idle, is_busy, called}

-- The batches of all workloads in flight.
abbrev pub pending_work : ℕ → List (ℕ × Inflight) → ℕ
pending_work p = sum_by (λ e. pending_in p e.1.workload.batches)

code_for-failure :
    (c : ResponseCode) (x : Option ResponseCode)
    → is_success c ≡ false
    → is_success (code_for c x) ≡ false
unfolding code_for
code_for-failure c none e = e
code_for-failure c (some d) e = rw e e

module _ (submission_id file_index : ℕ) (index : ℕ → ℕ) (p : ℕ) where
  abbrev pub Kept : ℕ → World Log → Type 0
  Kept = Entry submission_id file_index index p

  abbrev pub Own : List Batch → Type 0
  Own = Owns submission_id file_index index p

  -- What is in flight has no other task with the place of the request at `p`.
  abbrev pub OwnsWork : List (ℕ × Inflight) → Type 0
  OwnsWork = All (λ e. Owns submission_id file_index index p e.1.workload.batches)

  report_batches-Entry :
      (n : ℕ) (errors : List (ℕ × ResponseCode)) (c : ResponseCode) (bs : List Batch)
      (w : World Log)
      → is_success c ≡ false
      → Own bs
      → Kept (pending_in p bs + n) w
      → Kept n (report_batches log errors c bs w).1
  unfolding report_batches
  report_batches-Entry n errors c [] w e o v = record {
    indexed = v.indexed;
    counted = omega (arith, v.counted);
    small = v.small;
    once = v.once;
  }
  report_batches-Entry n errors c (b ∷ bs) w e o v =
      let d = code_for c (lookup b.file_index errors) in
      report_batches-Entry n errors c bs (handle_error log b d w).1 e o.1 (
        handle_error-Entry submission_id file_index index p (pending_in p bs + n) d b w
          (code_for-failure c (lookup b.file_index errors) e) o.0
          (record {
            indexed = v.indexed;
            counted = omega (arith, v.counted);
            small = v.small;
            once = v.once;
          }))

  pub report_workload-Entry :
      (n : ℕ) (wl : Inflight) (c : ResponseCode) (w : World Log)
      → is_success c ≡ false
      → Own wl.workload.batches
      → Kept (pending_in p wl.workload.batches + n) w
      → Kept n (report_workload log wl c w).1
  unfolding report_workload
  report_workload-Entry n wl c w e o v =
      report_batches-Entry n wl.error_by_file_index c wl.workload.batches w e o v

  finalize_all-Entry :
      (n : ℕ) (m : List (ℕ × Inflight)) (c : ResponseCode) (s : Worker Log)
      → is_success c ≡ false
      → OwnsWork m
      → Kept (pending_work p m + n) s.world
      → Kept n (finalize_all log m c s).world
  unfolding finalize_all finalize
  finalize_all-Entry n [] c s e o v = record {
    indexed = v.indexed;
    counted = omega (arith, v.counted);
    small = v.small;
    once = v.once;
  }
  finalize_all-Entry n ((base, wl) ∷ m) c s e o v =
      finalize_all-Entry n m c (finalize log base wl c s) e o.1 (
        report_workload-Entry (pending_work p m + n) wl c s.world e o.0 (record {
          indexed = v.indexed;
          counted = omega (arith, v.counted);
          small = v.small;
          once = v.once;
        }))

abbrev HasKeys : List (ℕ × Inflight) → List (ℕ × Inflight) → Type 0
HasKeys m = All (λ e. is_some (lookup e.0 m) ≡ true)

still_some :
    (base k : ℕ) (wl : Inflight) (m : List (ℕ × Inflight))
    → base == k ≡ false
    → is_some (lookup k ((base, wl) ∷ m)) ≡ true
    → is_some (lookup k m) ≡ true
unfolding lookup
still_some base k wl m f h = subst (λ b. is_some (if b then some wl else lookup k m) ≡ true) f h

HasKeys-erase :
    (base : ℕ) (wl : Inflight) (m l : List (ℕ × Inflight))
    → HasKeys ((base, wl) ∷ m) l
    → HasKeys m (erase base l)
unfolding lookup erase
HasKeys-erase base wl m [] h = tt
HasKeys-erase base wl m ((k, v) ∷ l) h = elim (Bool-cases (k == base)) [
  | inl e ↦ rw e (HasKeys-erase base wl m l h.1)
  | inr e ↦
      let f : base == k ≡ false = ground arith in
      rw e (still_some base k wl m f h.0, HasKeys-erase base wl m l h.1)
]

HasKeys-nil : (l : List (ℕ × Inflight)) → HasKeys [] l → l ≡ []
unfolding lookup
HasKeys-nil [] h = refl
HasKeys-nil (e ∷ l) h = absurd (ground (arith, h.0))

finalize_all-inflight :
    {Q : Type 0} (push : Q → Response → ℕ → Q) (m : List (ℕ × Inflight)) (c : ResponseCode)
    (s : Worker Q)
    → HasKeys m s.inflight
    → (finalize_all push m c s).inflight ≡ []
unfolding finalize_all finalize
finalize_all-inflight push [] c s h = HasKeys-nil s.inflight h
finalize_all-inflight push ((base, wl) ∷ m) c s h =
    finalize_all-inflight push m c (finalize push base wl c s)
      (HasKeys-erase base wl m s.inflight h)

HasKeys-more :
    (base : ℕ) (wl : Inflight) (m l : List (ℕ × Inflight))
    → HasKeys m l
    → HasKeys ((base, wl) ∷ m) l
unfolding lookup
HasKeys-more base wl m [] h = tt
HasKeys-more base wl m ((k, v) ∷ l) h = (ground (arith, h.0), HasKeys-more base wl m l h.1)

HasKeys-self : (m : List (ℕ × Inflight)) → HasKeys m m
unfolding lookup
HasKeys-self [] = tt
HasKeys-self ((k, v) ∷ m) = (ground arith, HasKeys-more k v m m (HasKeys-self m))

finalize_all-queue :
    {Q : Type 0} (push : Q → Response → ℕ → Q) (m : List (ℕ × Inflight)) (c : ResponseCode)
    (s : Worker Q)
    → (finalize_all push m c s).queue ≡ s.queue
unfolding finalize_all finalize
finalize_all-queue push [] c s = refl
finalize_all-queue push ((base, wl) ∷ m) c s =
    finalize_all-queue push m c (finalize push base wl c s)

cleared :
    (q : Option (CapacityQueue ObjectChunk))
    → not (is_busy (map_queue CapacityQueue.clear q)) ≡ true
unfolding CapacityQueue.clear CapacityQueue.is_idle CapacityQueue.is_empty
cleared none = refl
cleared (some q) = refl

-- The worker has nothing left to do, and the request at `p` has `n` tasks elsewhere that have yet to end.
pub record HasGivenUp (submission_id file_index : ℕ) (index : ℕ → ℕ) (p n : ℕ) (s : Worker Log)
    : Type 0 where
  pub nothing : s.inflight ≡ []
  pub idle_now : idle s ≡ true
  pub entry : Entry submission_id file_index index p n s.world
  pub answered : n ≡ 0 → replies submission_id file_index (index p) s.world.responder ≡ 1

abort_all-HasGivenUp :
    (submission_id file_index : ℕ) (index : ℕ → ℕ) (p n : ℕ) (c : ResponseCode) (s : Worker Log)
    → is_success c ≡ false
    → OwnsWork submission_id file_index index p s.inflight
    → Entry submission_id file_index index p (pending_work p s.inflight + n) s.world
    → HasGivenUp submission_id file_index index p n (abort_all log c s)
unfolding abort_all idle
abort_all-HasGivenUp submission_id file_index index p n c s e o v =
    let w = finalize_all-Entry submission_id file_index index p n s.inflight c s e o v in
    record {
      nothing = finalize_all-inflight log s.inflight c s (HasKeys-self s.inflight);
      idle_now = cleared (finalize_all log s.inflight c s).queue;
      entry = record { indexed = w.indexed; counted = w.counted; small = w.small; once = w.once };
      answered = λ z. ground (arith, w.once, w.counted);
    }

-- A worker with a client that is stopped, or whose client gives no responses but an error, gives up
-- in this round: `drain_batch` returns, nothing is in flight and the worker is idle. A request of
-- which `n` tasks are elsewhere is counted down by all its tasks here, and if `n` is 0 it has
-- exactly one response, as before if it had one.
pub drain_batch-HasGivenUp :
    (submission_id file_index : ℕ) (index : ℕ → ℕ) (p n : ℕ) (env : Backend) (s : Worker Log)
    → s.has_reader ≡ true
    → (env.stopped s.calls ≡ true)
      ⊎ ((env.stopped s.calls ≡ false)
          × (is_success (env.async_response (suc s.calls) s.max_responses).0 ≡ false))
    → OwnsWork submission_id file_index index p s.inflight
    → Entry submission_id file_index index p (pending_work p s.inflight + n) s.world
    → (t : Worker Log) × (drain_batch log env s ≡ (ok tt, t))
      × HasGivenUp submission_id file_index index p n t
unfolding drain_batch
drain_batch-HasGivenUp submission_id file_index index p n env s r (inl e) o v = (
  abort_all log finished_error (called log env s),
  simp (r, e, drain_batch),
  abort_all-HasGivenUp submission_id file_index index p n finished_error (called log env s) refl o
      v,
)
drain_batch-HasGivenUp submission_id file_index index p n env s r (inr (e, f)) o v = (
  abort_all log (env.async_response (suc s.calls) s.max_responses).0
      (called log env (called log env s)),
  simp (r, e, f, drain_batch),
  abort_all-HasGivenUp submission_id file_index index p n
      (env.async_response (suc s.calls) s.max_responses).0 (called log env (called log env s)) f o
      v,
)
