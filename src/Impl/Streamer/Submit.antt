-- ===== src/Impl/Streamer/Submit.antt =====
-- cpp/streamer/impl/streamer/streamer.cc: `async_request`, `response` and the reads that use them.
pub mod Queues
pub mod Endings
pub mod Commits
use runai_model_streamer.Prelude.{
  ℕ, zero, suc, ◌-◌, Bool, true, false, not, ◌&&◌, Option, none, some, List, [], ◌∷◌, ltb, ◌==◌,
  if◌then◌else◌, length, add_size, unsigned_max,
}
use runai_model_streamer.Prelude.Assoc.{lookup}
use runai_model_streamer.Common.ResponseCode.{
  ResponseCode, success, invalid_parameter_error, unknown_error, finished_error, timed_out,
  is_success,
}
use runai_model_streamer.Common.Result.{Result, ok, err, Fault, exception, assertion}
use runai_model_streamer.Common.Response.{Response, response_is_response}
use runai_model_streamer.Common.SharedQueue.{
  SharedQueue, Popped, popped, blocked, failed, push_sized,
}
use runai_model_streamer.Common.SharedQueue
use runai_model_streamer.Impl.Config.{Config}
use runai_model_streamer.Impl.Request.{ReadRange, FileRanges}
use runai_model_streamer.Impl.Batch.{World}
use runai_model_streamer.Impl.Workload.{Workload, size, fail}
use runai_model_streamer.Impl.Pools.{BackendPools, Kind, file_system, object_storage, push}
use runai_model_streamer.Impl.Submissions.{
  SubmissionsMgr, Outcome, pending, completed, generate, add, consume,
}
use runai_model_streamer.Impl.Assigner.Make.{Assigner}
use runai_model_streamer.Impl.Assigner.Make
use runai_model_streamer.Impl.Streamer.{verify_requests, lock_object_plugin}
use runai_model_streamer.Impl.Streamer.Prepare.{Limits, Preparing, prepare, preparing}

abbrev pub Responder : Type 0
Responder = SharedQueue Response

-- `world` holds the requests, up to the address `next`, and the responder. `is_ready` is whether
-- `_s3_stream_init_flag` has been passed.
pub record Streamer : Type 0 where
  pub config : Config
  pub pools : BackendPools Workload
  pub submissions : SubmissionsMgr
  pub world : World Responder
  pub next : ℕ
  pub is_ready : Bool

-- What lies outside: whether a pool for object storage can be made, the limits, the time, and for each
-- workload whether there is memory to push it.
pub record Outside : Type 0 where
  pub can_create : Result (Unit {0})
  pub limits : Limits
  pub now : ℕ
  pub can_push : ℕ → Bool

-- What a call leaves: the id that the caller is given, what it returns or throws, and the streamer.
pub record Submitted : Type 0 where
  pub id : ℕ
  pub result : Result ResponseCode
  pub streamer : Streamer

unfoldable pub ranges_in : List FileRanges → ℕ
ranges_in [] = 0
ranges_in (f ∷ fs) = add_size (length f.ranges) (ranges_in fs)

unfoldable pub bytes_of : List ReadRange → ℕ
bytes_of [] = 0
bytes_of (r ∷ rs) = add_size r.size (bytes_of rs)

unfoldable pub bytes_in : List FileRanges → ℕ
unfolding bytes_of
bytes_in [] = 0
bytes_in (f ∷ fs) = add_size (bytes_of f.ranges) (bytes_in fs)

abbrev pub kind_of : Workload → Kind
kind_of w = if w.is_object_storage then object_storage else file_system

abbrev pub is_busy : Workload → Bool
is_busy w = ltb 0 (size w)

-- The loop that dispatches: the workloads that are left when a push throws, and the pools.
unfoldable pub dispatch :
    (ℕ → Bool) → ℕ → List Workload → BackendPools Workload → List Workload × BackendPools Workload
unfolding push
dispatch can_push k [] pools = ([], pools)
dispatch can_push k (w ∷ ws) pools = elim (is_busy w) [
  | false ↦ dispatch can_push (suc k) ws pools
  | true ↦ elim (can_push k) [
    | false ↦ (w ∷ ws, pools)
    | true ↦ elim (push (kind_of w) w pools) [
      | err e ↦ (w ∷ ws, pools)
      | ok pools' ↦ dispatch can_push (suc k) ws pools'
    ]
  ]
]

unfoldable pub drain_undispatched : List Workload → World Responder → World Responder
unfolding fail push_sized
drain_undispatched [] world = world
drain_undispatched (w ∷ ws) world =
    let failed_workload = if is_busy w then (fail push_sized w unknown_error world).1 else world in
    drain_undispatched ws failed_workload

-- The end of the call: the guard drains what was not dispatched.
unfoldable pub finish : (id : ℕ) → List Workload × BackendPools Workload → Streamer → Submitted
unfolding drain_undispatched
finish id ([], pools) s = record {
  id = id;
  result = ok success;
  streamer = record s { pools = pools };
}
finish id (w ∷ ws, pools) s = record {
  id = id;
  result = ok unknown_error;
  streamer = record s { pools = pools; world = drain_undispatched (w ∷ ws) s.world };
}

module _ (env : Outside) where
  -- The commit, and the dispatch of the workloads.
  unfoldable pub commit : (id : ℕ) → List FileRanges → Preparing → Streamer → Submitted
  unfolding dispatch finish ranges_in bytes_in add SharedQueue.increment
  commit id request p s =
      elim (add s.submissions id (ranges_in request) (bytes_in request) env.now) [
        | err e ↦ record { id = id; result = err e; streamer = s }
        | ok live ↦ finish id (dispatch env.can_push 0 p.workloads s.pools) (record s {
          submissions = live;
          world = record {
            heap = p.heap;
            responder = SharedQueue.increment s.world.responder (ranges_in request);
          };
          next = p.next;
        })
      ]

  -- The requests of a build that fails cannot be reached; only the flag stays.
  abbrev pub after_prepare :
      (id : ℕ) → List FileRanges → Streamer → Result ResponseCode × Preparing → Submitted
  after_prepare id request s (err e, p) = record {
    id = id;
    result = err e;
    streamer = record s { is_ready = p.is_ready };
  }
  after_prepare id request s (ok ret, p) =
      let s' = record s { is_ready = p.is_ready } in
      let committed = commit id request p s' in
      if is_success ret then committed else record { id = id; result = ok ret; streamer = s' }

  -- The part that follows the id.
  unfoldable pub build : (id : ℕ) → List FileRanges → Streamer → Submitted
  unfolding prepare commit ranges_in Make.create
  build id request s =
      if ranges_in request == 0
      then record { id = id; result = ok success; streamer = s }
      else elim (Make.create s.config request) [
        | err e ↦ record { id = id; result = err e; streamer = s }
        | ok a ↦ after_prepare id request s (
            prepare env.limits s.config id request a.transfers
              (preparing a s.world.heap s.next s.is_ready))
      ]

  -- The part that follows the lock. The loop of `generate` ends unless there are 2^64 - 3 live ids.
  unfoldable pub mint : List FileRanges → Streamer → Submitted
  unfolding build generate ranges_in
  mint request s =
      if ltb unsigned_max (ranges_in request)
      then record { id = 0; result = ok invalid_parameter_error; streamer = s }
      else elim (generate s.submissions) [
        | none ↦ record { id = 0; result = err assertion; streamer = s }
        | some (id, live) ↦ build id request (record s { submissions = live })
      ]

  abbrev pub after_lock :
      List FileRanges → Streamer → Result (ResponseCode × BackendPools Workload) → Submitted
  after_lock request s (err e) = record { id = 0; result = err e; streamer = s }
  after_lock request s (ok (ret, pools)) =
      let s' = record s { pools = pools } in
      let minted = mint request s' in
      if is_success ret then minted else record { id = 0; result = ok ret; streamer = s' }

  unfoldable pub async_request : List FileRanges → Streamer → Submitted
  unfolding verify_requests lock_object_plugin mint
  async_request request s = elim (verify_requests request) [
    | err e ↦ record { id = 0; result = err e; streamer = s }
    | ok _ ↦ after_lock request s (lock_object_plugin env.can_create request s.pools)
  ]

  -- The ranges of `async_read`: they tile the file and the buffer, in order.
  unfoldable pub tile : (offset destination : ℕ) → List ℕ → List ReadRange
  tile offset destination [] = []
  tile offset destination (n ∷ ns) =
      record { offset = offset; size = n; dst = destination }
      ∷ tile (add_size offset n) (add_size destination n) ns

  abbrev pub code_or_throw : Result ResponseCode → Result ResponseCode
  code_or_throw (err (exception c)) = ok c
  code_or_throw r = r

  -- A common::Exception is returned as its code; any other exception goes through.
  unfoldable pub async_read :
      List ℕ → (file_offset dst : ℕ) → List ℕ → Streamer → Result ResponseCode × Streamer
  unfolding async_request tile
  async_read path file_offset dst internal_sizes s =
      let out =
        async_request (record { path = path; ranges = tile file_offset dst internal_sizes } ∷ [])
          s in
      (code_or_throw out.result, out.streamer)

-- Whether the response is of a submission.
abbrev pub is_real : ResponseCode → Bool
is_real finished_error = false
is_real timed_out = false
is_real _ = true

abbrev pub is_completed : Outcome → Bool
is_completed pending = false
is_completed (completed _ _ _) = true

unfoldable pub consume_submission_response :
    (submission_id now : ℕ) → Streamer → Result (Bool × Streamer)
unfolding consume
consume_submission_response submission_id now s = elim (consume s.submissions submission_id now) [
  | err e ↦ err e
  | ok (outcome, live) ↦ ok (is_completed outcome, record s { submissions = live })
]

-- How `response` ends; `waits` is a call that does not return until there is a response.
pub data Answer : Type 0 where
  answer : Response → (submission_done : Bool) → Streamer → Answer
  waits : Answer
  throws : Fault → Streamer → Answer

abbrev pub answered : Response → Streamer → Result (Bool × Streamer) → Answer
answered r s (err e) = throws e s
answered r s (ok (done, s')) = answer r done s'

unfoldable pub response : (timeout_ms now : ℕ) → Streamer → Answer
unfolding consume_submission_response SharedQueue.pop
response timeout_ms now s = elim (SharedQueue.pop s.world.responder timeout_ms) [
  | blocked ↦ waits
  | failed ↦ throws assertion s
  | popped r q ↦
      let s' = record s { world = record s.world { responder = q } } in
      elim (is_real r.ret) [
        | false ↦ answer r false s'
        | true ↦ answered r s' (consume_submission_response r.submission_id now s')
      ]
]
