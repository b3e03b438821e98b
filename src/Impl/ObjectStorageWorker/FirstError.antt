-- ===== src/Impl/ObjectStorageWorker/FirstError.antt =====
-- cpp/streamer/impl/object_storage_worker/object_storage_worker.cc, `complete_chunk`: the chunks of a task
-- before its last one.
use runai_model_streamer.Prelude.{
  ℕ, suc, ◌<◌, ◌^◌, ◌≡◌, refl, ◌∙◌, true, false, some, List, [], ◌∷◌, arith, length, get_elem?, set,
  ltb, ◌==◌, if◌then◌else◌, dec_unsigned, dec_unsigned-pos,
}
use runai_model_streamer.Prelude.Assoc.{lookup, assign, lookup-assign}
use runai_model_streamer.Common.ResponseCode.{ResponseCode, success, is_success}
use runai_model_streamer.Common.Result.{ok}
use runai_model_streamer.Common.Response.{Response}
use runai_model_streamer.Utils.CapacityQueue
use runai_model_streamer.Impl.ObjectStorageWorker.State.{TaskState, Inflight, Worker, M, after}
use runai_model_streamer.Impl.ObjectStorageWorker.Complete.{map_queue, error_after, complete_chunk}
use runai_model_streamer.Impl.ObjectStorageWorker.Enqueue.Register.{get_elem?-set, inside}

-- The first code of a list that is no success, or success.
abbrev pub first_failure : List ResponseCode → ResponseCode
first_failure [] = success
first_failure (c ∷ cs) = if is_success c then first_failure cs else c

module _ {Q : Type 0} (push : Q → Response → ℕ → Q) where
  -- Several chunks of a task complete, one after the other.
  abbrev pub complete_chunks : (base task_idx : ℕ) → List ResponseCode → M Q (Unit {0})
  complete_chunks base k [] s = (ok tt, s)
  complete_chunks base k (r ∷ rs) s =
      after (complete_chunk push base k r s) (λ _. complete_chunks base k rs)

  error_after-first_failure :
      (r e : ResponseCode) (rs : List ResponseCode)
      → first_failure (error_after push r e ∷ rs) ≡ first_failure (e ∷ r ∷ rs)
  unfolding error_after
  error_after-first_failure r e rs = ground arith

  -- The state after a chunk of a task that has more.
  abbrev completed : ℕ → ℕ → ResponseCode → Inflight → TaskState → Worker Q → Worker Q
  completed base k r wl ts s = record s {
    inflight =
        assign base
          (record wl {
            tasks = set wl.tasks k (record ts {
              error = error_after push r ts.error;
              remaining_chunks = dec_unsigned ts.remaining_chunks;
            });
          })
          s.inflight;
    queue = map_queue (λ q. CapacityQueue.complete q 1) s.queue;
  }

  complete_chunk-more :
      (base k : ℕ) (r : ResponseCode) (wl : Inflight) (ts : TaskState) (s : Worker Q)
      → lookup base s.inflight ≡ some wl
      → get_elem? wl.tasks k ≡ some ts
      → 1 < ts.remaining_chunks
      → ts.remaining_chunks < 2 ^ 32
      → complete_chunk push base k r s ≡ (ok tt, completed base k r wl ts s)
  unfolding complete_chunk
  complete_chunk-more base k r wl ts s e f more small =
      let g : ltb 0 ts.remaining_chunks ≡ true = ground arith in
      let d = dec_unsigned-pos ts.remaining_chunks (omega arith) small in
      let h : dec_unsigned ts.remaining_chunks == 0 ≡ false = ground (arith, d) in
      rw (e, f, g, h, complete_chunk) refl

  -- The task at `k` of the workload at `base` has one chunk left, and the first failure of its chunks.
  pub record HasOneLeft (base k : ℕ) (e : ResponseCode) (s t : Worker Q) : Type 0 where
    pub world : t.world ≡ s.world
    pub workload : Inflight
    pub state : TaskState
    pub there : lookup base t.inflight ≡ some workload
    pub found : get_elem? workload.tasks k ≡ some state
    pub left : state.remaining_chunks ≡ 1
    pub error : state.error ≡ e

  -- Of a task with chunks in flight, all but one complete, with any codes: each call returns, no request
  -- and no response is touched, the task has one chunk left, and its error is the first one that it had
  -- or that a chunk has reported, in the order of their completion.
  pub complete_chunks-HasOneLeft :
      (rs : List ResponseCode) (base k : ℕ) (wl : Inflight) (ts : TaskState) (s : Worker Q)
      → lookup base s.inflight ≡ some wl
      → get_elem? wl.tasks k ≡ some ts
      → ts.remaining_chunks ≡ suc (length rs)
      → ts.remaining_chunks < 2 ^ 32
      → (t : Worker Q) × (complete_chunks base k rs s ≡ (ok tt, t))
        × HasOneLeft base k (first_failure (ts.error ∷ rs)) s t
  complete_chunks-HasOneLeft [] base k wl ts s e f n small = (
    s,
    refl,
    record {
      world = refl;
      workload = wl;
      state = ts;
      there = e;
      found = f;
      left = n;
      error = ground arith;
    },
  )
  complete_chunks-HasOneLeft (r ∷ rs) base k wl ts s e f n small =
      let one = complete_chunk-more base k r wl ts s e f (omega (arith, n)) small in
      let u = completed base k r wl ts s in
      let ts' = record ts {
        error = error_after push r ts.error;
        remaining_chunks = dec_unsigned ts.remaining_chunks;
      } in
      let wl' = record wl { tasks = set wl.tasks k ts' } in
      let d = dec_unsigned-pos ts.remaining_chunks (omega (arith, n)) small in
      let there : lookup base u.inflight ≡ some wl' =
        lookup-assign base base wl' wl s.inflight e ∙ ground arith in
      let found : get_elem? wl'.tasks k ≡ some ts' =
        get_elem?-set wl.tasks k k ts' (inside wl.tasks k ts f) ∙ ground arith in
      let (t, g, v) =
        complete_chunks-HasOneLeft rs base k wl' ts' u there found (omega (arith, n, d))
          (omega (arith, n, d, small)) in
      (
        t,
        rw one g,
        record {
          world = v.world;
          workload = v.workload;
          state = v.state;
          there = v.there;
          found = v.found;
          left = v.left;
          error = v.error ∙ error_after-first_failure r ts.error rs;
        },
      )
