-- ===== src/Impl/Batch.antt =====
-- cpp/streamer/impl/batch/batch.h and batch.cc: the tasks of one worker in one contiguous span of a
-- file. The synchronous read is in Batch/Read. The responder is a parameter: any queue with its `push(response, bytesize)`.
pub mod Read
pub mod Account
pub mod Execute
pub mod Ledger
use runai_model_streamer.Prelude.{
  ℕ, zero, suc, ◌+◌, ◌-◌, ◌/◌, ◌≡◌, Bool, true, false, not, ◌&&◌, Option, none, some, List, [], ◌∷◌,
  ltb, ◌==◌, if◌then◌else◌, add_size, sub_size, take, drop, ◌++◌, get_elem?, set,
}
use runai_model_streamer.Common.ResponseCode.{
  ResponseCode, success, finished_error, invalid_parameter_error, unknown_error, is_success,
}
use runai_model_streamer.Common.Result.{
  Result, ok, err, Fault, exception, assertion, assert, code_of, ◌>>=◌, ◌>>◌,
}
use runai_model_streamer.Common.Response.{Response}
use runai_model_streamer.Impl.Config.{Config}
use runai_model_streamer.Impl.Request.{Request, Heap}
use runai_model_streamer.Impl.Task.{Task}
use runai_model_streamer.Impl.Task

-- Batch::Range; `end` is the field `stop`.
pub record Range : Type 0 where
  pub start : ℕ
  pub size : ℕ
  pub stop : ℕ

unfoldable pub range_between : ℕ → ℕ → Result Range
range_between start_offset end_offset =
    if ltb end_offset start_offset
    then err (exception invalid_parameter_error)
    else ok (record {
      start = start_offset;
      size = sub_size end_offset start_offset;
      stop = end_offset;
    })

calculate_start : List Task → ℕ
calculate_start [] = 0
calculate_start (t ∷ ts) = t.offset

calculate_end : List Task → ℕ
calculate_end [] = 0
calculate_end (t ∷ []) = t.stop
calculate_end (t ∷ u ∷ ts) = calculate_end (u ∷ ts)

unfoldable pub range_of : List Task → Result Range
unfolding range_between calculate_start calculate_end
range_of tasks = range_between (calculate_start tasks) (calculate_end tasks)

-- `is_object_storage` is `object_storage_params.valid()`; `unfinished` is `_unfinished`.
pub record Batch : Type 0 where
  pub submission_id : ℕ
  pub workload_index : ℕ
  pub file_index : ℕ
  pub path : List ℕ
  pub is_object_storage : Bool
  pub tasks : List Task
  pub range : Range
  pub config : Config
  pub unfinished : ℕ

unfoldable pub create : ℕ → ℕ → ℕ → List ℕ → Bool → List Task → Config → Result Batch
unfolding range_of
create submission_id workload_index file_index path is_object_storage tasks config = do
  range ← range_of tasks
  ok (record {
    submission_id = submission_id;
    workload_index = workload_index;
    file_index = file_index;
    path = path;
    is_object_storage = is_object_storage;
    tasks = tasks;
    range = range;
    config = config;
    unfinished = 0;
  })

abbrev pub total_bytes : Batch → ℕ
total_bytes b = b.range.size

-- What a batch changes beside itself: the requests of its tasks, and the responder.
pub record World (Q : Type 0) : Type 0 where
  pub heap : Heap
  pub responder : Q

-- The response of a completed request.
abbrev pub response_for : ℕ → ℕ → Request → Response
response_for submission_id file_index r = record {
  submission_id = submission_id;
  file_index = file_index;
  index = r.index;
  ret = r.ret;
}

module _ {Q : Type 0} (push : Q → Response → ℕ → Q) where
  -- One task ends with `code`, and its request is answered if that was its last task.
  unfoldable pub settle : ℕ → ℕ → ResponseCode → Task → World Q → Task × World Q
  unfolding Task.finished_request
  settle submission_id file_index code t w =
      let (h, t', last) = Task.finished_request w.heap t code in
      let r = h t.request in
      (
        t',
        record {
          heap = h;
          responder =
              if last
              then push w.responder (response_for submission_id file_index r) r.bytesize
              else w.responder;
        },
      )

  -- The loop of `handle_error` over all tasks.
  unfoldable pub settle_all : ℕ → ℕ → ResponseCode → List Task → World Q → List Task × World Q
  unfolding settle
  settle_all submission_id file_index code [] w = ([], w)
  settle_all submission_id file_index code (t ∷ ts) w =
      let (t', w') = settle submission_id file_index code t w in
      let (ts', w'') = settle_all submission_id file_index code ts w' in (t' ∷ ts', w'')

  unfoldable pub handle_error : Batch → ResponseCode → World Q → Batch × World Q
  unfolding settle_all
  handle_error b code w =
      if is_success code
      then (b, w)
      else let (ts, w') = settle_all b.submission_id b.file_index code b.tasks w in
        (record b { tasks = ts }, w')

  -- The loop of `finished_until` from the first unfinished task on; the number is `i - _unfinished`.
  unfoldable pub settle_until :
      ℕ → ℕ → ℕ → ResponseCode → List Task → World Q → ℕ × List Task × World Q
  unfolding settle
  settle_until submission_id file_index offset code [] w = (0, [], w)
  settle_until submission_id file_index offset code (t ∷ ts) w =
      let rest : ℕ × List Task × World Q =
        (let (t', w') = settle submission_id file_index code t w in
          let (n, ts', w'') = settle_until submission_id file_index offset code ts w' in
          (suc n, t' ∷ ts', w'')) in
      if ltb offset t.stop then (0, t ∷ ts, w) else rest

  unfoldable pub finished_until : Batch → ℕ → ResponseCode → World Q → Batch × World Q
  unfolding settle_until
  finished_until b offset code w =
      let (n, ts, w') =
        settle_until b.submission_id b.file_index offset code (drop b.unfinished b.tasks) w in
      (record b { tasks = take b.unfinished b.tasks ++ ts; unfinished = b.unfinished + n }, w')

  -- The task is named by its position; `none` is a null pointer.
  unfoldable pub handle_task_response :
      Batch → ResponseCode → ℕ → World Q → Result (Batch × World Q)
  unfolding settle
  handle_task_response b code k w = elim (get_elem? b.tasks k) [
    | none ↦ err assertion
    | some t ↦ do
      assert ((w.heap t.request).file_index == b.file_index)
      let settled = settle b.submission_id b.file_index code t w
      ok (record b { tasks = set b.tasks k settled.0 }, settled.1)
  ]

  unfoldable pub handle_response :
      Batch → ResponseCode → Option ℕ → World Q → Result (Batch × World Q)
  unfolding handle_task_response
  handle_response b ret none w = if is_success ret then err assertion else err (exception ret)
  handle_response b ret (some k) w =
      if is_success ret then handle_task_response b ret k w else err (exception ret)
