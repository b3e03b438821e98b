-- ===== src/Impl/ObjectStorageWorker/Account/Ends.antt =====
-- cpp/streamer/impl/object_storage_worker/object_storage_worker.cc, `complete_chunk` and what it calls:
-- a chunk of a task that is the last one, of a workload too.
use runai_model_streamer.Prelude.{
  ℕ, ◌+◌, ◌<◌, ◌^◌, ◌≡◌, refl, ap, subst, false, ◌⊎◌, inl, inr, some, none, List, [], ◌∷◌, arith,
  ◌==◌, if◌then◌else◌, All, Bool-cases, sub_size, sub_size-le,
}
use runai_model_streamer.Prelude.Assoc.{lookup, assign, erase}
use runai_model_streamer.Common.ResponseCode.{ResponseCode, success, is_success}
use runai_model_streamer.Common.Result.{ok}
use runai_model_streamer.Impl.Batch.{Batch, World, handle_error}
use runai_model_streamer.Impl.Batch.Account.{Log, log, AllFinished, pending-AllFinished}
use runai_model_streamer.Impl.Batch.Ledger.{Entry, Owns, pending_in, handle_error-Entry}
use runai_model_streamer.Impl.ObjectStorageWorker.State.{Inflight, Worker}
use runai_model_streamer.Impl.ObjectStorageWorker.Complete.{
  code_for, report_batches, report_workload, finalize, end_with, end_task,
}
use runai_model_streamer.Impl.ObjectStorageWorker.Abort.{pending_work, OwnsWork}
use runai_model_streamer.Impl.ObjectStorageWorker.Account.{
  IsKept, Entry-eq, OwnsWork-lookup, store-IsKept,
}

-- Every batch has ended its tasks, or its file has an error.
abbrev pub IsOver : Inflight → Type 0
IsOver wl =
    All
      (λ b.
        ((e : ResponseCode) × (lookup b.file_index wl.error_by_file_index ≡ some e)
          × (is_success e ≡ false))
        ⊎ ((lookup b.file_index wl.error_by_file_index ≡ none) × AllFinished b.tasks))
      wl.workload.batches

-- A key of a map stands in it once.
abbrev pub Once : ℕ → List (ℕ × Inflight) → Type 0
Once base [] = Unit
Once base ((j, v) ∷ m) = if j == base then lookup base m ≡ none else Once base m

erase-none : (base : ℕ) (m : List (ℕ × Inflight)) → lookup base m ≡ none → erase base m ≡ m
unfolding lookup erase
erase-none base [] h = refl
erase-none base ((j, v) ∷ m) h = elim (Bool-cases (j == base)) [
  | inl e ↦ absurd (ground (arith, h))
  | inr e ↦ rw e (ap (◌∷◌ (j, v)) (erase-none base m (ground (arith, h))))
]

module _ (submission_id file_index : ℕ) (index : ℕ → ℕ) (p : ℕ) where
  erase-kept :
      (base : ℕ) (m : List (ℕ × Inflight)) (wl : Inflight)
      → lookup base m ≡ some wl
      → Once base m
      → OwnsWork submission_id file_index index p m
      → (pending_work p (erase base m) + pending_in p wl.workload.batches ≡ pending_work p m)
        × OwnsWork submission_id file_index index p (erase base m)
  unfolding lookup erase
  erase-kept base [] wl h o w = absurd cc
  erase-kept base ((j, v) ∷ m) wl h o w = elim (Bool-cases (j == base)) [
    | inl e ↦
        let same : v ≡ wl = ground (arith, h) in
        let gone : erase base m ≡ m =
          erase-none base m (subst (λ b. if b then lookup base m ≡ none else Once base m) e o) in
        rw (e, gone, same) (omega arith, w.1)
    | inr e ↦
        let (n, q) =
          erase-kept base m wl (ground (arith, h))
            (subst (λ b. if b then lookup base m ≡ none else Once base m) e o) w.1 in
        rw e (omega (arith, n), (w.0, q))
  ]

  report_batches-IsOver :
      (n : ℕ) (errors : List (ℕ × ResponseCode)) (bs : List Batch) (w : World Log)
      → All
          (λ b.
            ((e : ResponseCode) × (lookup b.file_index errors ≡ some e) × (is_success e ≡ false))
            ⊎ ((lookup b.file_index errors ≡ none) × AllFinished b.tasks))
          bs
      → Owns submission_id file_index index p bs
      → Entry submission_id file_index index p (pending_in p bs + n) w
      → Entry submission_id file_index index p n (report_batches log errors success bs w).1
  unfolding report_batches code_for handle_error
  report_batches-IsOver n errors [] w h o v =
      Entry-eq submission_id file_index index p _ _ w (omega arith) v
  report_batches-IsOver n errors (b ∷ bs) w (inl (e, f, g), h) o v = rw f (
      report_batches-IsOver n errors bs (handle_error log b e w).1 h o.1 (
        handle_error-Entry submission_id file_index index p (pending_in p bs + n) e b w g o.0
          (Entry-eq submission_id file_index index p _ _ w (omega arith) v)))
  report_batches-IsOver n errors (b ∷ bs) w (inr (f, g), h) o v = rw f (
      report_batches-IsOver n errors bs w h o.1 (
        Entry-eq submission_id file_index index p _ _ w
          (omega (arith, pending-AllFinished p b.tasks g)) v))

  -- One task fewer.
  abbrev one_less : Inflight → Inflight
  one_less wl = record wl { remaining_tasks = sub_size wl.remaining_tasks 1 }

  pub end_task-IsKept :
      (n base : ℕ) (wl : Inflight) (s : Worker Log)
      → lookup base s.inflight ≡ some wl
      → 0 < wl.remaining_tasks
      → wl.remaining_tasks < 2 ^ 64
      → Once base s.inflight
      → (wl.remaining_tasks ≡ 1 → IsOver wl)
      → IsKept submission_id file_index index p n s
      → (t : Worker Log) × (end_task log base s ≡ (ok tt, t))
        × IsKept submission_id file_index index p n t
  unfolding end_task
  end_task-IsKept n base wl s e pos small o over v =
      let less = sub_size-le wl.remaining_tasks 1 (omega arith) small in
      elim (Bool-cases (sub_size wl.remaining_tasks 1 == 0)) [
        | inl last ↦
            let one : wl.remaining_tasks ≡ 1 = ground (arith, less) in
            let own =
              OwnsWork-lookup submission_id file_index index p base s.inflight wl v.owned e in
            let (work, rest) = erase-kept base s.inflight wl e o v.owned in
            (
              finalize log base (one_less wl) success s,
              rw (e, end_with, last) refl,
              record {
                owned = unfold finalize in rest;
                entry =
                    unfold finalize report_workload in
                    report_batches-IsOver (pending_work p (erase base s.inflight) + n)
                      wl.error_by_file_index wl.workload.batches s.world (over one) own
                      (Entry-eq submission_id file_index index p _ _ s.world (omega (arith, work))
                        v.entry);
              },
            )
        | inr more ↦
            let t = record s { inflight = assign base (one_less wl) s.inflight } in
            (
              t,
              rw (e, end_with, more) refl,
              store-IsKept submission_id file_index index p n base wl (one_less wl) s t e refl refl
                  refl v,
            )
      ]
