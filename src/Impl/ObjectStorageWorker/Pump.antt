-- ===== src/Impl/ObjectStorageWorker/Pump.antt =====
-- cpp/utils/capacity_worker/capacity_worker.h, `pump`: its loop.
use runai_model_streamer.Prelude.{
  ℕ, zero, suc, ◌<◌, ◌≡◌, refl, ap, ◌∙◌, Bool, true, false, Option, none, some, List, arith, ◌==◌,
  ◌⊎◌, inl, inr, length, Bool-cases, Option-cases, get_elem?, dec_unsigned, ltb,
}
use runai_model_streamer.Prelude.Assoc.{lookup}
use runai_model_streamer.Common.ResponseCode.{ResponseCode, is_success}
use runai_model_streamer.Common.Result.{Result, ok, err, Fault, assertion, code_of}
use runai_model_streamer.Common.Response.{Response}
use runai_model_streamer.Utils.CapacityQueue.{CapacityQueue}
use runai_model_streamer.Utils.CapacityQueue
use runai_model_streamer.Impl.ObjectStorageWorker.State.{
  ObjectChunk, items_of, TaskState, Backend, Worker, M, after, ◌>>◌, locate,
}
use runai_model_streamer.Impl.ObjectStorageWorker.Complete.{
  map_queue, finalize, respond, error_after, report_task, end_with, end_task, complete_chunk,
}
use runai_model_streamer.Impl.ObjectStorageWorker.Drive.{
  called, read_chunk, submit, pump_on, pump, pending_of,
}

abbrev pending : {Q : Type 0} → Worker Q → List ObjectChunk
pending s = pending_of s.queue

module _ {Q : Type 0} (push : Q → Response → ℕ → Q) where
  respond-pending : (base b k : ℕ) (s : Worker Q) → pending (respond push base b k s).1 ≡ pending s
  unfolding respond
  respond-pending base b k s = ground arith

  end_task-pending : (base : ℕ) (s : Worker Q) → pending (end_task push base s).1 ≡ pending s
  unfolding end_task end_with finalize
  end_task-pending base s = ground arith

  report_task-pending :
      (base : ℕ) (ts : TaskState) (s : Worker Q)
      → pending (report_task push base ts s).1 ≡ pending s
  unfolding report_task
  report_task-pending base ts s = ground (arith, respond-pending base ts.batch ts.task s)

  -- The end of a task, after its last chunk.
  after-pending :
      (base : ℕ) (r : Result (Unit {0}) × Worker Q)
      → pending (after r (λ _. end_task push base)).1 ≡ pending r.1
  after-pending base (ok u, s) = end_task-pending base s
  after-pending base (err e, s) = refl

  finish_task-pending :
      (base : ℕ) (ts : TaskState) (s : Worker Q)
      → pending ((report_task push base ts >> end_task push base) s).1 ≡ pending s
  finish_task-pending base ts s =
      after-pending base (report_task push base ts s) ∙ report_task-pending base ts s

  completed-pending :
      (q : Option (CapacityQueue ObjectChunk))
      → pending_of (map_queue (λ x. CapacityQueue.complete x 1) q) ≡ pending_of q
  unfolding CapacityQueue.complete
  completed-pending none = refl
  completed-pending (some q) = refl

  pub complete_chunk-pending :
      (base task_idx : ℕ) (ret : ResponseCode) (s : Worker Q)
      → pending (complete_chunk push base task_idx ret s).1 ≡ pending s
  unfolding complete_chunk
  complete_chunk-pending base task_idx ret s = elim (Option-cases (lookup base s.inflight)) [
    | inl e ↦ rw (e, complete_chunk) (completed-pending s.queue)
    | inr (wl, e) ↦ elim (Option-cases (get_elem? wl.tasks task_idx)) [
      | inl f ↦ rw (e, f, complete_chunk) (completed-pending s.queue)
      | inr (ts, f) ↦ elim (Bool-cases (ltb 0 ts.remaining_chunks)) [
        | inr g ↦ rw (e, f, g, complete_chunk) (completed-pending s.queue)
        | inl g ↦ elim (Bool-cases (dec_unsigned ts.remaining_chunks == 0)) [
          | inr h ↦ rw (e, f, g, h, complete_chunk) (completed-pending s.queue)
          | inl h ↦
              rw (e, f, g, h, complete_chunk)
                (finish_task-pending base
                    (record ts {
                      error = error_after push ret ts.error;
                      remaining_chunks = dec_unsigned ts.remaining_chunks;
                    })
                    _
                  ∙ completed-pending s.queue)
        ]
      ]
    ]
  ]

module _ {Q : Type 0} (push : Q → Response → ℕ → Q) (env : Backend) where
  read_chunk_by :
      (c : ObjectChunk) (base task_idx : ℕ) (s : Worker Q) (r : Result (Unit {0}))
      → env.async_read s.calls c ≡ r
      → pending (read_chunk push env c base task_idx s).1 ≡ pending s
  unfolding read_chunk
  read_chunk_by c base task_idx s (ok u) e = rw (e, read_chunk) refl
  read_chunk_by c base task_idx s (err f) e =
      rw (e, read_chunk) (complete_chunk-pending push base task_idx (code_of f) (called push env s))

  chosen-pending :
      (c : ObjectChunk) (base task_idx : ℕ) (error : ResponseCode) (s : Worker Q) (b : Bool)
      → pending
          ((elim b as (λ x. M Q (Unit {0})) [
            | true ↦ read_chunk push env c base task_idx
            | false ↦ complete_chunk push base task_idx error
          ])
            s).1
        ≡ pending s
  chosen-pending c base task_idx error s true = read_chunk_by c base task_idx s _ refl
  chosen-pending c base task_idx error s false = complete_chunk-pending push base task_idx error s

  submit-pending : (c : ObjectChunk) (s : Worker Q) → pending (submit push env c s).1 ≡ pending s
  unfolding submit
  submit-pending c s = elim (Option-cases (locate c.handle s.inflight)) [
    | inl e ↦ rw (e, submit) refl
    | inr (place, e) ↦ elim (Option-cases (lookup place.0 s.inflight)) [
      | inl f ↦ rw (e, f, submit) refl
      | inr (wl, f) ↦ elim (Option-cases (get_elem? wl.tasks place.1)) [
        | inl g ↦ rw (e, f, g, submit) refl
        | inr (ts, g) ↦
            rw (e, f, g, submit) (chosen-pending c place.0 place.1 ts.error s (is_success ts.error))
      ]
    ]
  ]

  -- A call of `pump` throws, or leaves a window from which no chunk can be taken.
  abbrev pub HasPumped : Result (Unit {0}) × Worker Q → Type 0
  HasPumped r =
      ((e : Fault) × (r.0 ≡ err e))
      ⊎ ((q : CapacityQueue ObjectChunk) × (r.0 ≡ ok tt)
          × (r.1.queue ≡ some q)
          × (CapacityQueue.try_take q ≡ none))

  taken-shorter :
      (q q' : CapacityQueue ObjectChunk) (c : ObjectChunk)
      → CapacityQueue.try_take q ≡ some (c, q')
      → length (items_of q.pending) ≡ suc (length (items_of q'.pending))
  unfolding CapacityQueue.try_take
  taken-shorter q q' c e = ground arith

  after-HasPumped :
      (fuel : ℕ) (r : Result (Unit {0}) × Worker Q)
      → ((s : Worker Q) → length (pending s) < fuel → HasPumped (pump_on push env fuel s))
      → length (pending r.1) < fuel
      → HasPumped (after r (λ _. pump_on push env fuel))
  after-HasPumped fuel (ok u, t) ih h = ih t h
  after-HasPumped fuel (err e, t) ih h = inl (e, refl)

  pump_on-HasPumped :
      (fuel : ℕ) (s : Worker Q) → length (pending s) < fuel → HasPumped (pump_on push env fuel s)
  unfolding pump_on
  pump_on-HasPumped zero s h = absurd (omega arith)
  pump_on-HasPumped (suc fuel) s h = elim (Option-cases s.queue) [
    | inl e ↦ rw (e, pump_on) (inl (assertion, refl))
    | inr (q, e) ↦ elim (Option-cases (CapacityQueue.try_take q)) [
      | inl f ↦ simp (e, f, pump_on) (inr (q, refl, refl, f))
      | inr ((c, q'), f) ↦
          let t = record s { queue = some q' } in
          let l : length (pending s) ≡ suc (length (items_of q'.pending)) =
            ap (λ x. length (pending_of x)) e ∙ taken-shorter q q' c f in
          let k : length (pending (submit push env c t).1) < fuel =
            omega (arith, l, ap length (submit-pending c t)) in
          simp (e, f, pump_on)
            (after-HasPumped fuel (submit push env c t) (pump_on-HasPumped fuel) k)
    ]
  ]

  -- `pump` takes as many rounds as its queue has chunks at most: it throws, or ends with a window from
  -- which no chunk can be taken, since it is empty or full.
  pub pump-HasPumped : (s : Worker Q) → HasPumped (pump push env s)
  unfolding pump
  pump-HasPumped s = pump_on-HasPumped (suc (length (pending s))) s (omega arith)
