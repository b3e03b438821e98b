-- ===== src/Impl/Batches.antt =====
-- cpp/streamer/impl/batches/batches.h and batches.cc: the batches of one transfer, one for each worker
-- that has a part of it. A request that is made is put on the heap, at the next free address.
pub mod Split
pub mod Count
use runai_model_streamer.Prelude.{
  ℕ, zero, suc, ◌-◌, Bool, ◌&&◌, not, none, some, List, [], ◌∷◌, ◌++◌, ◌==◌, if◌then◌else◌,
  add_size, add_unsigned, min, length, get_elem?, replicate,
}
use runai_model_streamer.Prelude.Assoc.{emplace}
use runai_model_streamer.Common.Result.{Result, ok, err, assertion, ◌>>=◌}
use runai_model_streamer.Impl.Config.{Config}
use runai_model_streamer.Impl.Request.{Heap, update}
use runai_model_streamer.Impl.Request
use runai_model_streamer.Impl.Task.{Task, Info, make_info}
use runai_model_streamer.Impl.Task
use runai_model_streamer.Impl.Batch.{Batch, total_bytes}
use runai_model_streamer.Impl.Batch
use runai_model_streamer.Impl.Assigner.Transfer.{FileReadTask}

-- Batches::BatchItr; `_num_batches` is the length of `file_read_tasks`.
pub record BatchItr : Type 0 where
  pub file_read_tasks : List FileReadTask
  pub current_task_index : ℕ
  pub current_workload_index : ℕ
  pub current_worker_bytesize : ℕ

unfoldable pub create_itr : List FileReadTask → Result BatchItr
create_itr [] = err assertion
create_itr (t ∷ ts) = ok (record {
  file_read_tasks = t ∷ ts;
  current_task_index = 0;
  current_workload_index = t.workload_index;
  current_worker_bytesize = t.size;
})

unfoldable pub read_task : BatchItr → ℕ → Result FileReadTask
read_task itr index = elim (get_elem? itr.file_read_tasks index) [
  | none ↦ err assertion
  | some t ↦ ok t
]

-- The first part of `consume`: the next worker, if this one has no byte left.
unfoldable pub next_worker : BatchItr → Result BatchItr
unfolding read_task
next_worker itr = do
  let index = add_unsigned itr.current_task_index 1
  t ← read_task itr index
  ok (record itr {
    current_task_index = index;
    current_workload_index = t.workload_index;
    current_worker_bytesize = t.size;
  })

unfoldable pub consume : BatchItr → ℕ → Result (ℕ × BatchItr)
unfolding next_worker
consume itr bytesize = do
  at ← if (itr.current_worker_bytesize == 0) && not (bytesize == 0) then next_worker itr else ok itr
  let to_read = min at.current_worker_bytesize bytesize
  ok (to_read, record at { current_worker_bytesize = at.current_worker_bytesize - to_read })

-- The loop of `handle_request`, on fuel: the infos by the position of their batch. Positions only
-- grow, so the map is in order.
unfoldable pub split_request :
    ℕ
    → BatchItr
    → (task_offset bytes_to_request destination_offset : ℕ) → List (ℕ × Info)
    → Result (BatchItr × List (ℕ × Info))
unfolding consume
split_request zero itr task_offset bytes_to_request destination_offset infos = err assertion
split_request (suc fuel) itr task_offset bytes_to_request destination_offset infos = do
  out ← consume itr bytes_to_request
  let to_read = out.0
  let more =
      emplace out.1.current_task_index (make_info task_offset to_read destination_offset) infos
  if bytes_to_request - to_read == 0
      then ok (out.1, more)
      else split_request fuel out.1 (add_size task_offset to_read) (bytes_to_request - to_read)
          (add_size destination_offset to_read) more

-- A round that leaves bytes to request has used up its worker, so each later round takes the next
-- worker, or fails.
abbrev pub enough : BatchItr → ℕ
enough itr = suc (suc (length itr.file_read_tasks))

-- `v_tasks[k].emplace_back(t)`
unfoldable pub append_at : List (List Task) → ℕ → Task → Result (List (List Task))
append_at [] k t = err assertion
append_at (ts ∷ tss) zero t = ok ((ts ++ (t ∷ [])) ∷ tss)
append_at (ts ∷ tss) (suc k) t = do rest ← append_at tss k t; ok (ts ∷ rest)

-- The loop that makes the tasks of a request.
unfoldable pub create_tasks : ℕ → List (ℕ × Info) → List (List Task) → Result (List (List Task))
unfolding append_at
create_tasks p [] v_tasks = ok v_tasks
create_tasks p ((k, i) ∷ infos) v_tasks = do
  added ← append_at v_tasks k (Task.create p i)
  create_tasks p infos added

-- What `build_tasks` changes: the iterator, the tasks of each worker, and the heap.
pub record Building : Type 0 where
  pub itr : BatchItr
  pub v_tasks : List (List Task)
  pub heap : Heap
  pub next : ℕ

unfoldable pub handle_request :
    (file_index range_index request_file_offset request_size destination : ℕ)
    → Building
    → Result Building
unfolding split_request create_tasks
handle_request file_index range_index request_file_offset request_size destination s = do
  out ← split_request (enough s.itr) s.itr request_file_offset request_size 0 []
  let r =
      Request.create request_file_offset file_index range_index (length out.1) request_size
        destination
  tasks ← create_tasks s.next out.1 s.v_tasks
  ok (record { itr = out.0; v_tasks = tasks; heap = update s.heap s.next r; next = suc s.next })

-- The loop of `build_tasks` over the ranges.
unfoldable pub handle_requests :
    (file_index range_index request_file_offset destination : ℕ)
    → List ℕ
    → Building
    → Result Building
unfolding handle_request
handle_requests file_index range_index request_file_offset destination [] s = ok s
handle_requests file_index range_index request_file_offset destination (n ∷ ns) s = do
  t ← handle_request file_index range_index request_file_offset n destination s
  handle_requests file_index (add_unsigned range_index 1) (add_size request_file_offset n)
      (add_size destination n) ns t

-- The loop over the workers: a worker without a task gets no batch.
unfoldable pub make_batches :
    (submission_id file_index : ℕ)
    → List ℕ
    → Bool
    → Config
    → List FileReadTask
    → List (List Task)
    → Result (List Batch)
make_batches submission_id file_index path is_object_storage config [] tss = ok []
make_batches submission_id file_index path is_object_storage config (t ∷ ts) [] = ok []
make_batches submission_id file_index path is_object_storage config (t ∷ ts) ([] ∷ tss) =
    make_batches submission_id file_index path is_object_storage config ts tss
make_batches submission_id file_index path is_object_storage config (t ∷ ts) ((k ∷ ks) ∷ tss) = do
  b ← Batch.create submission_id t.workload_index file_index path is_object_storage (k ∷ ks) config
  bs ← make_batches submission_id file_index path is_object_storage config ts tss
  ok (b ∷ bs)

-- The batches, their total, and the heap with its next free address.
pub record Batches : Type 0 where
  pub batches : List Batch
  pub total : ℕ
  pub heap : Heap
  pub next : ℕ

total_of : List Batch → ℕ
total_of [] = 0
total_of (b ∷ bs) = add_size (total_bytes b) (total_of bs)

-- The constructor, with `build_tasks`.
unfoldable pub create :
    (submission_id file_index : ℕ)
    → List FileReadTask
    → Config
    → List ℕ
    → Bool
    → List ℕ
    → (first_range_index : ℕ) → Heap
    → (next : ℕ) → Result Batches
unfolding create_itr read_task handle_requests make_batches total_of
create submission_id file_index tasks config path is_object_storage range_sizes first_range_index
      heap next =
    do
      itr ← create_itr tasks
      first ← read_task itr 0
      let start : Building = record {
        itr = itr;
        v_tasks = replicate (length tasks) [];
        heap = heap;
        next = next;
      }
      built ←
          handle_requests file_index first_range_index first.offset_in_file first.destination
            range_sizes start
      batches ←
          make_batches submission_id file_index path is_object_storage config tasks built.v_tasks
      ok (record {
        batches = batches;
        total = total_of batches;
        heap = built.heap;
        next = built.next;
      })
