-- ===== src/Impl/ObjectStorageWorker/State.antt =====
-- cpp/streamer/impl/object_storage_worker/object_storage_worker.h: the state of a worker, and its
-- computations, which may throw and keep the state that they have reached.
use runai_model_streamer.Prelude.{
  ℕ, ◌-◌, Bool, false, Option, none, some, List, [], ◌∷◌, ltb, ◌==◌, if◌then◌else◌, get_elem?,
}
use runai_model_streamer.Common.ResponseCode.{ResponseCode, success}
use runai_model_streamer.Common.Result.{Result, ok, err, Fault, assertion}
use runai_model_streamer.Impl.Config.{default_chunk_bytesize}
use runai_model_streamer.Impl.Batch.{World}
use runai_model_streamer.Impl.Workload.{Workload}
use runai_model_streamer.Utils.CapacityQueue.{CapacityQueue, Entry}

pub record ObjectChunk : Type 0 where
  pub handle : ℕ
  pub offset : ℕ
  pub bytesize : ℕ
  pub buffer : ℕ

-- The chunks that wait in a queue, in order.
abbrev pub items_of : List (Entry ObjectChunk) → List ObjectChunk
items_of [] = []
items_of (e ∷ es) = e.item ∷ items_of es

-- The pointers to the batch and to its task are positions: of the batch in the workload, and of the
-- task in the batch.
pub record TaskState : Type 0 where
  pub batch : ℕ
  pub task : ℕ
  pub remaining_chunks : ℕ
  pub error : ResponseCode

pub record Inflight : Type 0 where
  pub workload : Workload
  pub chunk_task_idx : List ℕ
  pub tasks : List TaskState
  pub error_by_file_index : List (ℕ × ResponseCode)
  pub remaining_tasks : ℕ

abbrev pub inflight_of : Workload → Inflight
inflight_of w = record {
  workload = w;
  chunk_task_idx = [];
  tasks = [];
  error_by_file_index = [];
  remaining_tasks = 0;
}

-- An event that the client hands out: the handle of a chunk, and how its read ended.
pub record Completion : Type 0 where
  pub handle : ℕ
  pub ret : ResponseCode

-- The client of the storage, and what other threads set. The number is that of the call, so that each
-- call may have another result: whether the client can be built, how a read of a chunk is taken,
-- what a call for responses gives, and the flag `stopped`. A client gives no more responses than it
-- was asked for, which is an ASSERT of the wrapper. The window and the number of responses to ask for,
-- from a variable of the environment that parses, are fixed.
pub record Backend : Type 0 where
  pub build : ℕ → Result (Unit {0})
  pub max_inflight_bytes : ℕ
  pub max_responses : ℕ
  pub async_read : ℕ → ObjectChunk → Result (Unit {0})
  pub async_response : ℕ → ℕ → ResponseCode × List Completion
  pub stopped : ℕ → Bool

-- `has_reader` is whether `_reader` is set, `inflight` the std::map in the order of its keys, and
-- `queue` the window of the base class. `calls` counts the calls of the client and the looks at
-- `stopped`.
pub record Worker (Q : Type 0) : Type 0 where
  pub has_reader : Bool
  pub reader_error : ResponseCode
  pub chunk_bytesize : ℕ
  pub max_responses : ℕ
  pub inflight : List (ℕ × Inflight)
  pub async_handle_counter : ℕ
  pub queue : Option (CapacityQueue ObjectChunk)
  pub world : World Q
  pub calls : ℕ

unfoldable pub create : {Q : Type 0} → World Q → Worker Q
create w = record {
  has_reader = false;
  reader_error = success;
  chunk_bytesize = default_chunk_bytesize;
  max_responses = 1;
  inflight = [];
  async_handle_counter = 1;
  queue = none;
  world = w;
  calls = 0;
}

-- A computation of the worker: what it returns or throws, and the state that it leaves.
abbrev pub M : Type 0 → Type 0 → Type 0
M Q A = Worker Q → Result A × Worker Q

module _ {Q : Type 0} where
  -- The state after an exception is the one in which it was thrown.
  abbrev pub after : {A B : Type 0} → Result A × Worker Q → (A → M Q B) → Result B × Worker Q
  after (ok a, s) f = f a s
  after (err e, s) f = (err e, s)

  infixl 5 ◌>>=◌ ◌>>◌
  abbrev pub ◌>>=◌ : {A B : Type 0} → M Q A → (A → M Q B) → M Q B
  ◌>>=◌ m f s = after (m s) f

  abbrev pub ◌>>◌ : {B : Type 0} → M Q (Unit {0}) → M Q B → M Q B
  m >> k = m >>= λ _. k

  abbrev pub pure : {A : Type 0} → A → M Q A
  pure a s = (ok a, s)

  abbrev pub get : M Q (Worker Q)
  get s = (ok s, s)

  abbrev pub modify : (Worker Q → Worker Q) → M Q (Unit {0})
  modify f s = (ok tt, f s)

  -- A result without a change of state.
  abbrev pub lift : {A : Type 0} → Result A → M Q A
  lift r s = (r, s)

  -- `try { m } catch (...) { h }`
  abbrev pub handled : {A : Type 0} → Result A × Worker Q → (Fault → M Q A) → Result A × Worker Q
  handled (ok a, s) h = (ok a, s)
  handled (err e, s) h = h e s

  abbrev pub try_catch : {A : Type 0} → M Q A → (Fault → M Q A) → M Q A
  try_catch m h s = handled (m s) h

-- What a pointer or an index that is out of range would be; the code relies on that there is none.
abbrev pub the : {A : Type 0} → Option A → Result A
the none = err assertion
the (some a) = ok a

-- `_inflight.emplace`, in the order of the keys; an entry that is there is kept.
unfoldable pub insert : ℕ → Inflight → List (ℕ × Inflight) → List (ℕ × Inflight)
insert k v [] = (k, v) ∷ []
insert k v ((j, w) ∷ m) =
    if ltb k j then (k, v) ∷ (j, w) ∷ m else if k == j then (j, w) ∷ m else (j, w) ∷ insert k v m

-- The last entry whose key is not above `handle`: the one before `upper_bound`.
unfoldable pub owner : ℕ → Option (ℕ × Inflight) → List (ℕ × Inflight) → Option (ℕ × Inflight)
owner handle candidate [] = candidate
owner handle candidate ((j, w) ∷ m) =
    let rest = owner handle (some (j, w)) m in if ltb handle j then candidate else rest

abbrev pub in_block : ℕ → Option (ℕ × Inflight) → Option (ℕ × ℕ)
in_block handle none = none
in_block handle (some (base, wl)) = elim (get_elem? wl.chunk_task_idx (handle - base)) [
  | none ↦ none
  | some task_idx ↦ some (base, task_idx)
]

-- The key of the workload that owns a handle, and the index of the task. `none` is end().
unfoldable pub locate : ℕ → List (ℕ × Inflight) → Option (ℕ × ℕ)
unfolding owner
locate handle m = in_block handle (owner handle none m)
