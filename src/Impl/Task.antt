-- ===== src/Impl/Task.antt =====
-- cpp/streamer/impl/task/task.h and task.cc: the part of a request that one worker reads.
use runai_model_streamer.Prelude.{ℕ, Bool, true, false, if◌then◌else◌, add_size}
use runai_model_streamer.Common.ResponseCode.{ResponseCode}
use runai_model_streamer.Impl.Request.{Request, Heap, update}
use runai_model_streamer.Impl.Request

-- Task::Info; `end` is a word of the language, so the field is `stop`.
pub record Info : Type 0 where
  pub offset : ℕ
  pub bytesize : ℕ
  pub stop : ℕ
  pub relative_offset : ℕ

unfoldable pub make_info : ℕ → ℕ → ℕ → Info
make_info offset bytesize relative_offset = record {
  offset = offset;
  bytesize = bytesize;
  stop = add_size offset bytesize;
  relative_offset = relative_offset;
}

-- `request` is the address of the request; `is_finished` is `_finished`.
pub record Task : Type 0 where
  pub request : ℕ
  pub info : Info
  pub open info use *
  pub is_finished : Bool

unfoldable pub create : ℕ → Info → Task
create request i = record { request = request; info = i; is_finished = false }

-- The heap and the task after it has ended with `ret`, and whether its request is completed.
unfoldable pub finished_request : Heap → Task → ResponseCode → Heap × Task × Bool
finished_request h t ret =
    if t.is_finished
    then (h, t, false)
    else let (r, last) = Request.finished (h t.request) ret in
      (update h t.request r, record t { is_finished = true }, last)

unfoldable pub destination : Heap → Task → ℕ
destination h t = add_size (h t.request).dst t.relative_offset
