-- ===== src/Impl/Request.antt =====
-- cpp/streamer/impl/request/request.h and request.cc: what the caller asks for, and the object that
-- counts the tasks of one range. Requests are shared by the tasks of several batches, so they stand
-- on a heap and are named by their address.
use runai_model_streamer.Prelude.{ℕ, Bool, List, ◌==◌, if◌then◌else◌, dec_unsigned}
use runai_model_streamer.Common.ResponseCode.{ResponseCode, success, is_success}

pub record ReadRange : Type 0 where
  pub offset : ℕ
  pub size : ℕ
  pub dst : ℕ

-- A path is the list of its bytes.
pub record FileRanges : Type 0 where
  pub path : List ℕ
  pub ranges : List ReadRange

pub record Request : Type 0 where
  pub offset : ℕ
  pub file_index : ℕ
  pub index : ℕ
  pub bytesize : ℕ
  pub dst : ℕ
  pub tasks : ℕ
  pub ret : ResponseCode

abbrev pub Heap : Type 0
Heap = ℕ → Request

abbrev pub update : Heap → ℕ → Request → Heap
update h p r q = if p == q then r else h q

unfoldable pub create : ℕ → ℕ → ℕ → ℕ → ℕ → ℕ → Request
create offset file_index index tasks bytesize dst = record {
  offset = offset;
  file_index = file_index;
  index = index;
  bytesize = bytesize;
  dst = dst;
  tasks = tasks;
  ret = success;
}

-- The request after one of its tasks has ended with `result`, and whether it was the last one.
unfoldable pub finished : Request → ResponseCode → Request × Bool
finished r result = (
  record r { ret = if is_success result then r.ret else result; tasks = dec_unsigned r.tasks },
  r.tasks == 1,
)
