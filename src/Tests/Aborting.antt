-- ===== src/Tests/Aborting.antt =====
-- The worker for object storage, at concrete inputs.
use runai_model_streamer.Prelude.{
  ◌+◌, ℕ, ◌≡◌, refl, inl, inr, true, false, none, some, List, [], ◌∷◌, arith, add_size, sub_size,
  length,
}
use runai_model_streamer.Common.ResponseCode.{success, file_access_error}
use runai_model_streamer.Common.Result.{ok, err, exception}
use runai_model_streamer.Impl.Batch.{Batch, World, settle}
use runai_model_streamer.Impl.Batch.Account.{Log, log}
use runai_model_streamer.Impl.Batch.Ledger.{Entry, replies}
use runai_model_streamer.Impl.Request.{finished}
use runai_model_streamer.Impl.Task.{Task, finished_request}
use runai_model_streamer.Impl.Workload.{Workload}
use runai_model_streamer.Impl.ObjectStorageWorker.State.{
  Inflight, ObjectChunk, TaskState, Backend, Worker, locate,
}
use runai_model_streamer.Impl.ObjectStorageWorker.Drive.{drain_batch, execute, pump}
use runai_model_streamer.Impl.ObjectStorageWorker.Abort.{HasGivenUp, drain_batch-HasGivenUp}
use runai_model_streamer.Impl.ObjectStorageWorker.Unbuilt.{Adds, execute-unbuilt}
use runai_model_streamer.Impl.ObjectStorageWorker.Pump.{HasPumped, pump-HasPumped}
use runai_model_streamer.Impl.ObjectStorageWorker.FirstError.{
  complete_chunks, first_failure, HasOneLeft, complete_chunks-HasOneLeft,
}
use runai_model_streamer.Impl.ObjectStorageWorker.Enqueue.{chunk_count, Place, register_task}
use runai_model_streamer.Impl.ObjectStorageWorker.Enqueue.Handles.{
  IsRegistered, register_task-IsRegistered,
}
use runai_model_streamer.Impl.ObjectStorageWorker.Complete.{error_after, complete_chunk}
use runai_model_streamer.Impl.ObjectStorageWorker.Account.{IsKept}
use runai_model_streamer.Impl.ObjectStorageWorker.Account.Chunk.{complete_chunk-IsKept}
use runai_model_streamer.Utils.CapacityQueue.{CapacityQueue}
use runai_model_streamer.Prelude.Assoc.{lookup}
use runai_model_streamer.Impl.ObjectStorageWorker.Locate.{all_handles, locate-lookup}

abbrev waiting_task : Task
waiting_task = record {
  request = 0;
  info = record { offset = 10; bytesize = 7; stop = 17; relative_offset = 0 };
  is_finished = false;
}

abbrev object_batch : Batch
object_batch = record {
  submission_id = 7;
  workload_index = 0;
  file_index = 3;
  path = 97 ∷ [];
  is_object_storage = true;
  tasks = waiting_task ∷ [];
  range = record { start = 10; size = 7; stop = 17 };
  config = record {
    concurrency = 1;
    s3_concurrency = 1;
    s3_block_bytesize = 5;
    fs_block_bytesize = 5;
  };
  unfinished = 0;
}

abbrev object_workload : Workload
object_workload = record { batches = object_batch ∷ []; is_object_storage = true }

abbrev waiting_world : World Log
waiting_world = record {
  heap = λ q. record {
    offset = 10;
    file_index = 3;
    index = 0;
    bytesize = 7;
    dst = 100;
    tasks = 1;
    ret = success;
  };
  responder = [];
}

-- A client that cannot be built, and that is stopped.
abbrev stopped_backend : Backend
stopped_backend = record {
  build = λ n. err (exception file_access_error);
  max_inflight_bytes = 100;
  max_responses = 4;
  async_read = λ n c. ok tt;
  async_response = λ n m. (success, []);
  stopped = λ n. true;
}

abbrev in_flight : Inflight
in_flight = record {
  workload = object_workload;
  chunk_task_idx = 0 ∷ 0 ∷ [];
  tasks = record { batch = 0; task = 0; remaining_chunks = 2; error = success } ∷ [];
  error_by_file_index = [];
  remaining_tasks = 1;
}

abbrev busy_worker : Worker Log
busy_worker = record {
  has_reader = true;
  reader_error = success;
  chunk_bytesize = 5;
  max_responses = 4;
  inflight = (1, in_flight) ∷ [];
  async_handle_counter = 3;
  queue = some (record { capacity = 20; inflight = 2; pending = [] });
  world = waiting_world;
  calls = 0;
}

waiting_world-Entry : Entry 7 3 (λ q. 0) 0 1 waiting_world
waiting_world-Entry = record {
  indexed = λ q. refl;
  counted = refl;
  small = omega arith;
  once = refl;
}

own_task :
    (◌≡◌ {A = ℕ} 0 0 → (◌≡◌ {A = ℕ} 7 7) × (◌≡◌ {A = ℕ} 3 3))
    × (◌≡◌ {A = ℕ} 7 7 → ◌≡◌ {A = ℕ} 3 3 → ◌≡◌ {A = ℕ} 0 0 → ◌≡◌ {A = ℕ} 0 0)
own_task = (λ e. (refl, refl), λ e f g. g)

drain_batch-HasGivenUp_example :
    (t : Worker Log) × (drain_batch log stopped_backend busy_worker ≡ (ok tt, t))
    × HasGivenUp 7 3 (λ q. 0) 0 0 t
drain_batch-HasGivenUp_example =
    drain_batch-HasGivenUp 7 3 (λ q. 0) 0 0 stopped_backend busy_worker refl (inl refl)
      (((own_task, tt), tt), tt) waiting_world-Entry

abbrev new_worker : Worker Log
new_worker = record {
  has_reader = false;
  reader_error = success;
  chunk_bytesize = 5;
  max_responses = 1;
  inflight = [];
  async_handle_counter = 1;
  queue = none;
  world = waiting_world;
  calls = 0;
}

execute-unbuilt_example :
    (t : Worker Log) × (execute log stopped_backend 0 object_workload new_worker ≡ (ok true, t))
    × ((t.has_reader ≡ false) × (t.queue ≡ none))
    × (t.inflight ≡ [])
    × (t.reader_error ≡ success)
    × Adds file_access_error [] t.world.responder
    × Entry 7 3 (λ q. 0) 0 0 t.world
    × (◌≡◌ {A = ℕ} 0 0 → replies 7 3 0 t.world.responder ≡ 1)
execute-unbuilt_example =
    execute-unbuilt 7 3 (λ q. 0) 0 0 0 stopped_backend (exception file_access_error) object_workload
      object_batch [] new_worker refl refl refl refl refl ((own_task, tt), tt) waiting_world-Entry

locate-lookup_example :
    locate 4 ((1, in_flight) ∷ (3, in_flight) ∷ [])
    ≡ lookup 4 (all_handles ((1, in_flight) ∷ (3, in_flight) ∷ []))
locate-lookup_example =
    locate-lookup 4 ((1, in_flight) ∷ (3, in_flight) ∷ []) (omega arith, (omega arith, tt))

-- The window has room for the one chunk that waits.
abbrev waiting_worker : Worker Log
waiting_worker = record busy_worker {
  queue = some (record {
    capacity = 20;
    inflight = 1;
    pending =
        record { item = record { handle = 1; offset = 10; bytesize = 5; buffer = 100 }; cost = 1 }
        ∷ [];
  });
}

pump-HasPumped_example : HasPumped log stopped_backend (pump log stopped_backend waiting_worker)
pump-HasPumped_example = pump-HasPumped log stopped_backend waiting_worker

abbrev two_chunks_left : TaskState
two_chunks_left = record { batch = 0; task = 0; remaining_chunks = 2; error = success }

complete_chunks-HasOneLeft_example :
    (t : Worker Log) × (complete_chunks log 1 0 (file_access_error ∷ []) busy_worker ≡ (ok tt, t))
    × HasOneLeft log 1 0 (first_failure (success ∷ file_access_error ∷ [])) busy_worker t
unfolding lookup
complete_chunks-HasOneLeft_example =
    complete_chunks-HasOneLeft log (file_access_error ∷ []) 1 0 in_flight two_chunks_left
      busy_worker refl refl refl (omega arith)

-- A workload with two handles, of which none is taken, and a task of two chunks.
abbrev no_chunk_yet : Inflight
no_chunk_yet = record in_flight { chunk_task_idx = 0 ∷ 0 ∷ []; tasks = [] }

abbrev empty_window : CapacityQueue ObjectChunk
empty_window = record { capacity = 20; inflight = 0; pending = [] }

abbrev ready_worker : Worker Log
ready_worker = record busy_worker { inflight = (1, no_chunk_yet) ∷ []; queue = some empty_window }

abbrev waiting_place : Place
waiting_place = record { batch = 0; task = 0; content = waiting_task }

register_task-IsRegistered_example :
    (cs : List ObjectChunk) × (wl' : Inflight) × (q' : CapacityQueue ObjectChunk) × (t : Worker Log)
    × (register_task log 1 0 waiting_place ready_worker ≡ (ok (0 + length cs), t))
    × IsRegistered 1 0 waiting_place no_chunk_yet empty_window ready_worker t cs wl' q'
unfolding chunk_count lookup add_size sub_size
register_task-IsRegistered_example =
    register_task-IsRegistered log 1 0 waiting_place no_chunk_yet empty_window ready_worker refl
      refl (omega arith) (omega arith) (omega arith) (omega arith) (omega arith)

abbrev last_chunk : TaskState
last_chunk = record { batch = 0; task = 0; remaining_chunks = 1; error = success }

abbrev last_in_flight : Inflight
last_in_flight = record in_flight { tasks = last_chunk ∷ [] }

abbrev last_worker : Worker Log
last_worker = record busy_worker { inflight = (1, last_in_flight) ∷ [] }

last_worker-IsKept : IsKept 7 3 (λ q. 0) 0 0 last_worker
last_worker-IsKept = record { owned = (((own_task, tt), tt), tt); entry = waiting_world-Entry }

complete_chunk-IsKept_example :
    (u : Worker Log) × (complete_chunk log 1 0 success last_worker ≡ (ok tt, u))
    × IsKept 7 3 (λ q. 0) 0 0 u
unfolding lookup settle finished_request finished error_after
complete_chunk-IsKept_example =
    complete_chunk-IsKept 7 3 (λ q. 0) 0 0 1 0 success last_in_flight last_chunk object_batch
      waiting_task last_worker refl refl refl refl refl (omega arith) (omega arith) (omega arith)
      refl (λ e. (inr (refl, (refl, tt)), tt)) last_worker-IsKept
