-- ===== src/Impl/Workload/Execute.antt =====
-- cpp/streamer/impl/workload/workload.cc: `execute`, which reads the batches of a workload of files.
use runai_model_streamer.Prelude.{ℕ, suc, Bool, List, [], ◌∷◌, ◌==◌, if◌then◌else◌}
use runai_model_streamer.Common.Result.{Result, ok, err, assertion}
use runai_model_streamer.Common.Response.{Response}
use runai_model_streamer.Impl.File.{Os}
use runai_model_streamer.Impl.Batch.{Batch, World}
use runai_model_streamer.Impl.Batch.Read
use runai_model_streamer.Impl.Workload.{Workload, size}

-- The file of a path, and, for each batch by its position, what the flag `stopped` is at each look.
module _ {Q : Type 0} (push : Q → Response → ℕ → Q) (os : List ℕ → Os)
    (stopped : ℕ → ℕ → Bool) where
  unfoldable pub execute_batches : ℕ → List Batch → World Q → List Batch × World Q
  unfolding Read.execute
  execute_batches k [] w = ([], w)
  execute_batches k (b ∷ bs) w =
      let (b', w') = Read.execute push (os b.path) (stopped k) b w in
      let (bs', w'') = execute_batches (suc k) bs w' in (b' ∷ bs', w'')

  unfoldable pub execute : Workload → World Q → Result (Workload × World Q)
  unfolding execute_batches
  execute l w =
      let (bs, w') = execute_batches 0 l.batches w in
      if size l == 0
      then ok (l, w)
      else if l.is_object_storage
      then err assertion
      else ok (record l { batches = bs }, w')
