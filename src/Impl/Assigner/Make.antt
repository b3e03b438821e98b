-- ===== src/Impl/Assigner/Make.antt =====
-- cpp/streamer/impl/assigner/assigner.cc: the constructor and `check_object_storage`.
use runai_model_streamer.Prelude.{ℕ, Bool, false, List, [], ◌∷◌, if◌then◌else◌}
use runai_model_streamer.Prelude.Assoc.{is_some}
use runai_model_streamer.Common.Result.{Result, ok, ◌>>=◌}
use runai_model_streamer.Common.StorageUri.{parse}
use runai_model_streamer.Impl.Config.{Config}
use runai_model_streamer.Impl.Request.{FileRanges}
use runai_model_streamer.Impl.Assigner.Transfer.{ContiguousTransfer}
use runai_model_streamer.Impl.Assigner.Coalesce.{coalesce}
use runai_model_streamer.Impl.Assigner.Assign.{assign, bytes_per_worker}

pub record Assigner : Type 0 where
  pub is_object_storage : Bool
  pub num_workers : ℕ
  pub num_workloads : ℕ
  pub transfers : List ContiguousTransfer

-- The first file with ranges decides.
unfoldable pub check_object_storage : List FileRanges → Bool
unfolding parse
check_object_storage [] = false
check_object_storage (f ∷ fs) = elim f.ranges [
  | [] ↦ check_object_storage fs
  | _ ∷ _ ↦ is_some (parse f.path)
]

-- The part of the constructor that follows the choice of the workers.
unfoldable pub assign_transfers : Config → Bool → ℕ → List ContiguousTransfer → ℕ → Result Assigner
unfolding assign bytes_per_worker
assign_transfers config is_object_storage num_workers [] total = ok (record {
  is_object_storage = is_object_storage;
  num_workers = num_workers;
  num_workloads = 0;
  transfers = [];
})
assign_transfers config is_object_storage num_workers (t ∷ ts) total = do
  let block = if is_object_storage then config.s3_block_bytesize else config.fs_block_bytesize
  transfers ← assign block num_workers (t ∷ ts) total
  ok (record {
    is_object_storage = is_object_storage;
    num_workers = num_workers;
    num_workloads = (bytes_per_worker block num_workers total).num_workloads;
    transfers = transfers;
  })

-- An empty request has no transfer either.
unfoldable pub create : Config → List FileRanges → Result Assigner
unfolding check_object_storage coalesce assign_transfers
create config request = do
  let is_object_storage = check_object_storage request
  let num_workers = if is_object_storage then config.s3_concurrency else config.concurrency
  merged ← coalesce request
  assign_transfers config is_object_storage num_workers merged.0 merged.1
