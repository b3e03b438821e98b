-- ===== src/Impl/ObjectStorageWorker/Account.antt =====
-- cpp/streamer/impl/object_storage_worker/object_storage_worker.cc, `complete_chunk`: the account of a
-- request while the worker runs.
mod Ends
pub mod Chunk
use runai_model_streamer.Prelude.{
  ℕ, zero, suc, ◌+◌, ◌-◌, ◌<◌, ◌≤◌, ◌^◌, ◌≡◌, refl, sym, ap, subst, ◌∙◌, true, false, ◌⊎◌, inl, inr,
  Option, some, none, List, [], ◌∷◌, arith, get_elem?, set, ltb, ◌==◌, if◌then◌else◌, All, sum_by,
  Bool-cases, sub_size, sub_size-le, dec_unsigned, dec_unsigned-pos, length,
}
use runai_model_streamer.Prelude.Assoc.{lookup, assign, emplace, lookup-assign}
use runai_model_streamer.Common.ResponseCode.{ResponseCode, success, is_success}
use runai_model_streamer.Common.Result.{ok}
use runai_model_streamer.Impl.Request.{finished}
use runai_model_streamer.Impl.Task.{Task, finished_request}
use runai_model_streamer.Impl.Batch.{Batch, World, settle, handle_task_response, handle_response}
use runai_model_streamer.Impl.Batch.Account.{Log, log, pending}
use runai_model_streamer.Impl.Batch.Ledger.{Entry, IsOwn, Owns, pending_in, settle-Entry}
use runai_model_streamer.Utils.CapacityQueue
use runai_model_streamer.Impl.ObjectStorageWorker.State.{TaskState, Inflight, Worker, M, after}
use runai_model_streamer.Impl.ObjectStorageWorker.Complete.{
  map_queue, error_after, respond, report_task, end_task, complete_chunk,
}
use runai_model_streamer.Impl.ObjectStorageWorker.Abort.{pending_work, OwnsWork}
use runai_model_streamer.Impl.ObjectStorageWorker.Enqueue.Register.{get_elem?-set, inside}

pending-set :
    (p : ℕ) (ts : List Task) (k : ℕ) (t t' : Task)
    → get_elem? ts k ≡ some t
    → pending p (set ts k t') + pending p (t ∷ []) ≡ pending p ts + pending p (t' ∷ [])
pending-set p [] k t t' h = absurd cc
pending-set p (x ∷ ts) zero t t' h = let same : x ≡ t = ground arith in rw same (omega arith)
pending-set p (x ∷ ts) (suc k) t t' h = omega (arith, pending-set p ts k t t' h)

pending_in-set :
    (p : ℕ) (bs : List Batch) (k : ℕ) (b b' : Batch)
    → get_elem? bs k ≡ some b
    → pending_in p (set bs k b') + pending p b.tasks ≡ pending_in p bs + pending p b'.tasks
pending_in-set p [] k b b' h = absurd cc
pending_in-set p (x ∷ bs) zero b b' h = let same : x ≡ b = ground arith in rw same (omega arith)
pending_in-set p (x ∷ bs) (suc k) b b' h = omega (arith, pending_in-set p bs k b b' h)

pending_work-assign :
    (p base : ℕ) (m : List (ℕ × Inflight)) (wl wl' : Inflight)
    → lookup base m ≡ some wl
    → pending_work p (assign base wl' m) + pending_in p wl.workload.batches
      ≡ pending_work p m + pending_in p wl'.workload.batches
unfolding lookup assign
pending_work-assign p base [] wl wl' h = absurd cc
pending_work-assign p base ((j, v) ∷ m) wl wl' h = elim (Bool-cases (j == base)) [
  | inl e ↦ let same : v ≡ wl = ground (arith, h) in rw e (rw same (omega arith))
  | inr e ↦
      let there : lookup base m ≡ some wl = ground (arith, h) in
      rw e (omega (arith, pending_work-assign p base m wl wl' there))
]

All-set {ℓ κ} :
    {A : Type ℓ} (P : A → Type κ) (xs : List A) (k : ℕ) (x : A)
    → All P xs
    → P x
    → All P (set xs k x)
All-set P [] k x h p = tt
All-set P (y ∷ xs) zero x h p = (p, h.1)
All-set P (y ∷ xs) (suc k) x h p = (h.0, All-set P xs k x h.1 p)

All-get_elem? {ℓ κ} :
    {A : Type ℓ} (P : A → Type κ) (xs : List A) (k : ℕ) (x : A)
    → All P xs
    → get_elem? xs k ≡ some x
    → P x
All-get_elem? P [] k x h e = absurd cc
All-get_elem? P (y ∷ xs) zero x h e = subst P (let same : y ≡ x = ground arith in same) h.0
All-get_elem? P (y ∷ xs) (suc k) x h e = All-get_elem? P xs k x h.1 e

module _ (submission_id file_index : ℕ) (index : ℕ → ℕ) (p : ℕ) where
  -- The batches of a workload.
  abbrev pub OwnBatches : Inflight → Type 0
  OwnBatches wl = Owns submission_id file_index index p wl.workload.batches

  pub OwnsWork-assign :
      (base : ℕ) (m : List (ℕ × Inflight)) (wl : Inflight)
      → OwnsWork submission_id file_index index p m
      → OwnBatches wl
      → OwnsWork submission_id file_index index p (assign base wl m)
  unfolding assign
  OwnsWork-assign base [] wl h o = tt
  OwnsWork-assign base ((j, v) ∷ m) wl h o = elim (Bool-cases (j == base)) [
    | inl e ↦ rw e (o, h.1)
    | inr e ↦ rw e (h.0, OwnsWork-assign base m wl h.1 o)
  ]

  pub OwnsWork-lookup :
      (base : ℕ) (m : List (ℕ × Inflight)) (wl : Inflight)
      → OwnsWork submission_id file_index index p m
      → lookup base m ≡ some wl
      → OwnBatches wl
  unfolding lookup
  OwnsWork-lookup base [] wl h e = absurd cc
  OwnsWork-lookup base ((j, v) ∷ m) wl h e = elim (Bool-cases (j == base)) [
    | inl f ↦ subst OwnBatches (let same : v ≡ wl = ground (arith, e) in same) h.0
    | inr f ↦ OwnsWork-lookup base m wl h.1 (ground (arith, e))
  ]

  -- The account of the request at `p`, of which `n` tasks are elsewhere: what is in flight holds all
  -- its other tasks that have yet to end, and no other task of its place.
  pub record IsKept (n : ℕ) (s : Worker Log) : Type 0 where
    pub owned : OwnsWork submission_id file_index index p s.inflight
    pub entry : Entry submission_id file_index index p (pending_work p s.inflight + n) s.world

  pub Entry-eq :
      (n m : ℕ) (w : World Log)
      → n ≡ m
      → Entry submission_id file_index index p n w
      → Entry submission_id file_index index p m w
  Entry-eq n m w e v = subst (λ k. Entry submission_id file_index index p k w) e v

  -- A task that has ended, and is the same task.
  settle_ended :
      (s f : ℕ) (c : ResponseCode) (t : Task) (w : World Log)
      → let t' = (settle log s f c t w).0 in (t'.request ≡ t.request) × (t'.is_finished ≡ true)
  unfolding settle finished_request
  settle_ended s f c t w = ground arith

  -- The state of a workload is replaced, and its batches stay.
  pub store-IsKept :
      (n base : ℕ) (wl wl' : Inflight) (s t : Worker Log)
      → lookup base s.inflight ≡ some wl
      → wl'.workload.batches ≡ wl.workload.batches
      → t.inflight ≡ assign base wl' s.inflight
      → t.world ≡ s.world
      → IsKept n s
      → IsKept n t
  store-IsKept n base wl wl' s t e b i w v =
      let own = OwnsWork-lookup base s.inflight wl v.owned e in
      let work = pending_work-assign p base s.inflight wl wl' e in
      let same : pending_in p wl'.workload.batches ≡ pending_in p wl.workload.batches =
        ap (pending_in p) b in
      record {
        owned = rw i (OwnsWork-assign base s.inflight wl' v.owned (rw b own));
        entry = rw (i, w) (Entry-eq _ _ s.world (omega (arith, work, same)) v.entry);
      }

  module _ (n base b k : ℕ) (wl : Inflight) (batch : Batch) (t : Task) (s : Worker Log)
      (there : lookup base s.inflight ≡ some wl)
      (in_workload : get_elem? wl.workload.batches b ≡ some batch)
      (in_batch : get_elem? batch.tasks k ≡ some t)
      (own_file : ((s.world.heap t.request).file_index == batch.file_index) ≡ true) where
    abbrev pub ended : Task × World Log
    ended = settle log batch.submission_id batch.file_index success t s.world

    abbrev pub answered_workload : Inflight
    answered_workload = record wl {
      workload = record wl.workload {
        batches = set wl.workload.batches b (record batch { tasks = set batch.tasks k ended.0 });
      };
    }

    -- The state after a response for a task.
    abbrev pub responded : Worker Log
    responded = record s { inflight = assign base answered_workload s.inflight; world = ended.1 }

    handled :
        handle_response log batch success (some k) s.world
        ≡ ok (record batch { tasks = set batch.tasks k ended.0 }, ended.1)
    unfolding handle_response handle_task_response
    handled = rw (in_batch, handle_task_response, own_file) refl

    pub respond-responded : respond log base b k s ≡ (ok tt, responded)
    unfolding respond
    respond-responded = rw (there, respond, in_workload, handled) refl

    pub responded-IsKept : IsKept n s → IsKept n responded
    responded-IsKept v =
        let own_work = OwnsWork-lookup base s.inflight wl v.owned there in
        let own_batch = All-get_elem? _ wl.workload.batches b batch own_work in_workload in
        let own_task = All-get_elem? _ batch.tasks k t own_batch in_batch in
        let same = settle_ended batch.submission_id batch.file_index success t s.world in
        let work = pending_work-assign p base s.inflight wl answered_workload there in
        let batches =
          pending_in-set p wl.workload.batches b batch
            (record batch { tasks = set batch.tasks k ended.0 }) in_workload in
        let tasks = pending-set p batch.tasks k t ended.0 in_batch in
        let none_left : pending p (ended.0 ∷ []) ≡ 0 = ground (arith, same.1) in
        record {
          owned = OwnsWork-assign base s.inflight answered_workload v.owned (
              All-set _ wl.workload.batches b _ own_work
                (All-set _ batch.tasks k ended.0 own_batch (rw same.0 own_task)));
          entry =
              settle-Entry submission_id file_index index p batch.submission_id batch.file_index
                (pending_work p (assign base answered_workload s.inflight) + n) success t s.world
                own_task
                (Entry-eq _ _ s.world (omega (arith, work, batches, tasks, none_left)) v.entry);
        }
