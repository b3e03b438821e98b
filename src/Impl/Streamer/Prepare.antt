-- ===== src/Impl/Streamer/Prepare.antt =====
-- cpp/streamer/impl/streamer/streamer.cc: the workloads of a submission, before it is committed.
use runai_model_streamer.Prelude.{
  ℕ, ◌*◌, ◌%◌, ◌^◌, Bool, true, false, Option, none, some, List, [], ◌∷◌, ltb, ◌==◌, if◌then◌else◌,
  get_elem?, set, replicate,
}
use runai_model_streamer.Prelude.Assoc.{is_some}
use runai_model_streamer.Common.ResponseCode.{
  ResponseCode, success, insufficient_fd_limit, is_success,
}
use runai_model_streamer.Common.Result.{Result, ok, err, assertion, exception, ◌>>=◌}
use runai_model_streamer.Common.StorageUri.{parse}
use runai_model_streamer.Impl.Config.{Config}
use runai_model_streamer.Impl.Request.{FileRanges, Heap}
use runai_model_streamer.Impl.Batch.{Batch}
use runai_model_streamer.Impl.Batches
use runai_model_streamer.Impl.Workload.{Workload, empty, add_batch}
use runai_model_streamer.Impl.Assigner.Transfer.{ContiguousTransfer}
use runai_model_streamer.Impl.Assigner.Make.{Assigner}

-- What the process is given: its limits of file descriptors, and whether the limit can be raised.
pub record Limits : Type 0 where
  pub current : ℕ
  pub maximum : ℕ
  pub raised : Result (Unit {0})

-- The body of the first `call_once` of `handle_s3`.
unfoldable pub init_stream : Limits → Config → Result (Unit {0})
init_stream l config =
    let desired = config.s3_concurrency * 64 % 2 ^ 32 in
    if ltb l.current desired
    then (if ltb l.maximum desired then err (exception insufficient_fd_limit) else l.raised)
    else ok tt

-- What the loop over the transfers changes. `params` is that of the last file, with its index: whether
-- the path is a URI. `is_ready` is the flag of `call_once`, which a throw leaves unset.
pub record Preparing : Type 0 where
  pub workloads : List Workload
  pub heap : Heap
  pub next : ℕ
  pub params : Option (ℕ × Bool)
  pub is_ready : Bool

-- The parameters for a path, and the flag after the call.
unfoldable pub handle_s3 : Limits → Config → List ℕ → Bool → Result (Bool × Bool)
unfolding parse init_stream
handle_s3 l config path is_ready = elim (is_some (parse path)) [
  | false ↦ ok (false, is_ready)
  | true ↦ elim is_ready [
    | true ↦ ok (true, true)
    | false ↦ do done ← init_stream l config; ok (true, true)
  ]
]

abbrev pub is_same_file : ℕ → Option (ℕ × Bool) → Bool
is_same_file file_index none = false
is_same_file file_index (some p) = p.0 == file_index

abbrev pub params_or : Bool → Option (ℕ × Bool) → Bool
params_or b none = b
params_or b (some p) = p.1

-- The parameters are made again only if the file changes.
unfoldable pub set_params : Limits → Config → ℕ → List ℕ → Preparing → Result Preparing
unfolding handle_s3
set_params l config file_index path s = if is_same_file file_index s.params then ok s else (do
  out ← handle_s3 l config path s.is_ready
  ok (record s { params = some (file_index, out.0); is_ready = out.1 }))

abbrev pub if_added :
    ResponseCode
    → Result (ResponseCode × List Workload)
    → Result (ResponseCode × List Workload)
    → Result (ResponseCode × List Workload)
if_added ret rest stopped = if is_success ret then rest else stopped

-- The loop over the batches of a transfer, with the code of the first that cannot be added.
unfoldable pub add_batches : List Batch → List Workload → Result (ResponseCode × List Workload)
unfolding add_batch
add_batches [] ws = ok (success, ws)
add_batches (b ∷ bs) ws = elim b.tasks [
  | [] ↦ add_batches bs ws
  | _ ∷ _ ↦ elim (get_elem? ws b.workload_index) [
    | none ↦ err assertion
    | some w ↦
        let (ret, w') = add_batch w b in
        let rest = add_batches bs (set ws b.workload_index w') in if_added ret rest (ok (ret, ws))
  ]
]

-- How the loop over the transfers ends: it throws, or gives a code, Success if it is through. The
-- state stays in each case, for the flag.
abbrev pub Ended : Type 0
Ended = Result ResponseCode × Preparing

abbrev pub path_of : List FileRanges → ℕ → Result (List ℕ)
path_of request k = elim (get_elem? request k) [ none ↦ err assertion | some f ↦ ok f.path ]

abbrev pub added_to : Preparing → Batches.Batches → Result (ResponseCode × List Workload) → Ended
added_to s made (err e) = (err e, s)
added_to s made (ok (ret, ws)) =
    (ok ret, record s { workloads = ws; heap = made.heap; next = made.next })

-- The batches of one transfer, into the workloads.
unfoldable pub add_transfer :
    (submission_id : ℕ) → Config → List ℕ → ContiguousTransfer → Preparing → Ended
unfolding add_batches Batches.create
add_transfer submission_id config path t s =
    let made =
      Batches.create submission_id t.file_index t.tasks config path (params_or false s.params)
        t.range_sizes t.first_range_index s.heap s.next in
    elim made [ err e ↦ (err e, s) | ok b ↦ added_to s b (add_batches b.batches s.workloads) ]

abbrev pub then_transfers : Ended → (Preparing → Ended) → Ended
then_transfers (err e, s) k = (err e, s)
then_transfers (ok ret, s) k = if is_success ret then k s else (ok ret, s)

-- One round of the loop over the transfers.
unfoldable pub prepare_transfer :
    Limits → Config → (submission_id : ℕ) → List FileRanges → ContiguousTransfer → Preparing → Ended
unfolding set_params add_transfer
prepare_transfer l config submission_id request t s = elim (path_of request t.file_index) [
  | err e ↦ (err e, s)
  | ok path ↦ elim (set_params l config t.file_index path s) [
    | err e ↦ (err e, s)
    | ok s' ↦ add_transfer submission_id config path t s'
  ]
]

unfoldable pub prepare :
    Limits
    → Config
    → (submission_id : ℕ) → List FileRanges
    → List ContiguousTransfer
    → Preparing
    → Ended
unfolding prepare_transfer
prepare l config submission_id request [] s = (ok success, s)
prepare l config submission_id request (t ∷ ts) s =
    then_transfers (prepare_transfer l config submission_id request t s)
      (prepare l config submission_id request ts)

-- Before the loop, each workload is empty.
abbrev pub preparing : Assigner → Heap → (next : ℕ) → Bool → Preparing
preparing a heap next is_ready = record {
  workloads = replicate a.num_workloads empty;
  heap = heap;
  next = next;
  params = none;
  is_ready = is_ready;
}
