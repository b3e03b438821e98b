-- ===== src/Impl/Assigner/Assign.antt =====
-- cpp/streamer/impl/assigner/assigner.cc: `bytes_per_worker` and `assign`, which divide the transfers
-- between the workers by total bytes.
pub mod Tiles
pub mod Fill
pub mod Workers
use runai_model_streamer.Prelude.{
  ℕ, zero, suc, ◌+◌, ◌-◌, ◌*◌, ◌/◌, ◌≡◌, Bool, true, false, ◌&&◌, ◌||◌, not, List, [], ◌∷◌, ◌++◌,
  ltb, leb, ◌==◌, if◌then◌else◌, add_size, min, max, length, sum, sum_by, replicate,
}
use runai_model_streamer.Common.Result.{Result, ok, err, assert, ◌>>=◌, ◌>>◌}
use runai_model_streamer.Impl.Assigner.Transfer.{FileReadTask, ContiguousTransfer}

pub record Split : Type 0 where
  pub num_workloads : ℕ
  pub base : ℕ
  pub remainder : ℕ

unfoldable pub bytes_per_worker : ℕ → ℕ → ℕ → Split
bytes_per_worker block_bytesize num_workers total =
    let num_blocks = total / block_bytesize in
    let num_workloads = max (min num_blocks num_workers) 1 in
    let base = num_blocks / num_workloads * block_bytesize in
    record { num_workloads = num_workloads; base = base; remainder = total - num_workloads * base }

-- The transfers before the current one, latest first; those from the current one on; how many bytes
-- of the current one are assigned; and how many this worker has.
pub record Cursor : Type 0 where
  pub before : List ContiguousTransfer
  pub after : List ContiguousTransfer
  pub consumed : ℕ
  pub assigned : ℕ

-- The slice of `transfer` that starts at `consumed`; addresses and offsets wrap as `size_t`.
unfoldable pub slice : ℕ → ContiguousTransfer → ℕ → ℕ → FileReadTask
slice worker t consumed size = record {
  workload_index = worker;
  original_file_index = t.file_index;
  offset_in_file = add_size t.offset consumed;
  size = size;
  destination = add_size t.destination consumed;
}

-- Whether the worker stops before transfer `t`: a transfer of size zero is still given a task.
unfoldable pub is_full : ℕ → ContiguousTransfer → ℕ → Bool
is_full target t assigned = ltb 0 t.size && leb target assigned

-- How many bytes of the rest of `t` the worker takes. Neither difference is below zero: `consumed`
-- stays within the size, and `assigned` within the target.
unfoldable pub share : ℕ → ContiguousTransfer → ℕ → ℕ → ℕ
share target t consumed assigned = min (t.size - consumed) (target - assigned)

-- The body of the inner loop, after its test. The sums are of bytes of one transfer and of one
-- worker, and do not wrap.
unfoldable pub assign_slice : ℕ → ℕ → Cursor → ContiguousTransfer → List ContiguousTransfer → Cursor
unfolding slice share
assign_slice worker target c t ts =
    let n = share target t c.consumed c.assigned in
    let t' = record t { tasks = t.tasks ++ (slice worker t c.consumed n ∷ []) } in
    if c.consumed + n == t.size
    then record { before = t' ∷ c.before; after = ts; consumed = 0; assigned = c.assigned + n }
    else record c { after = t' ∷ ts; consumed = c.consumed + n; assigned = c.assigned + n }

-- The inner loop for one worker, on fuel.
unfoldable pub fill : ℕ → ℕ → ℕ → Cursor → Cursor
unfolding assign_slice is_full
fill zero worker target c = c
fill (suc fuel) worker target c = elim c.after [
  | [] ↦ c
  | t ∷ ts ↦ elim (is_full target t c.assigned) [
    | true ↦ c
    | false ↦ fill fuel worker target (assign_slice worker target c t ts)
  ]
]

-- Each round ends a transfer, or is the worker's last but the test.
abbrev pub enough : Cursor → ℕ
enough c = length c.after + 2

abbrev pub target_of : Split → ℕ → ℕ
target_of s zero = s.base + s.remainder
target_of s (suc w) = s.base

-- The test `index < _transfers.size()` of the outer loop.
abbrev pub unless_done {ℓ} : {A : Type ℓ} → List ContiguousTransfer → A → A → A
unless_done [] x y = x
unless_done (_ ∷ _) x y = y

-- The outer loop from worker `worker` on; the number is of the workers left. It gives the cursor at
-- the end, and the bytes of each worker, which are 0 for those that the loop does not reach.
unfoldable pub assign_workers : ℕ → Split → ℕ → Cursor → Cursor × List ℕ
unfolding fill
assign_workers zero s worker c = (c, [])
assign_workers (suc left) s worker c =
    let start = record c { assigned = 0 } in
    let d = fill (enough start) worker (target_of s worker) start in
    let more = assign_workers left s (suc worker) d in
    unless_done c.after (c, replicate (suc left) 0) (more.0, d.assigned ∷ more.1)

-- The check at the end of `assign`: the tasks of each transfer add up to its size.
unfoldable pub is_covered : List ContiguousTransfer → Bool
is_covered [] = true
is_covered (t ∷ ts) = (sum_by (λ s. s.size) t.tasks == t.size) && is_covered ts

-- The vector that a cursor stands for.
unfoldable pub transfers_of :
    List ContiguousTransfer → List ContiguousTransfer → List ContiguousTransfer
transfers_of [] after = after
transfers_of (t ∷ before) after = transfers_of before (t ∷ after)

unfoldable pub assign : ℕ → ℕ → List ContiguousTransfer → ℕ → Result (List ContiguousTransfer)
unfolding bytes_per_worker assign_workers transfers_of is_covered
assign block_bytesize num_workers transfers total = do
  let s = bytes_per_worker block_bytesize num_workers total
  let start : Cursor = record { before = []; after = transfers; consumed = 0; assigned = 0 }
  let end_state = assign_workers num_workers s 0 start
  let result = transfers_of end_state.0.before end_state.0.after
  assert (sum end_state.1 == total)
  assert (is_covered result)
  ok result
