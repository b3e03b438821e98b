-- ===== src/Impl/Workload.antt =====
-- cpp/streamer/impl/workload/workload.h and workload.cc: the batches of one worker, which share the
-- kind of their storage. The responder is a parameter, with its `push`.
pub mod Execute
use runai_model_streamer.Prelude.{
  ℕ, ◌==◌, Bool, true, false, not, List, [], ◌∷◌, ◌++◌, length, if◌then◌else◌,
}
use runai_model_streamer.Common.ResponseCode.{
  ResponseCode, success, invalid_parameter_error, is_success,
}
use runai_model_streamer.Common.Response.{Response}
use runai_model_streamer.Impl.Batch.{Batch, World, handle_error}

pub record Workload : Type 0 where
  pub batches : List Batch
  pub is_object_storage : Bool

abbrev pub empty : Workload
empty = record { batches = []; is_object_storage = false }

abbrev pub size : Workload → ℕ
size w = length w.batches

abbrev pub same_kind : Bool → Bool → Bool
same_kind true b = b
same_kind false b = not b

unfoldable pub verify_batch : Workload → Batch → ResponseCode
verify_batch w b =
    if same_kind b.is_object_storage w.is_object_storage then success else invalid_parameter_error

unfoldable pub add_batch : Workload → Batch → ResponseCode × Workload
unfolding verify_batch
add_batch w b =
    let res = verify_batch w b in
    let added = w.batches ++ (b ∷ []) in
    if size w == 0
    then (success, record { batches = added; is_object_storage = b.is_object_storage })
    else if is_success res
    then (success, record w { batches = added })
    else (res, w)

module _ {Q : Type 0} (push : Q → Response → ℕ → Q) where
  unfoldable pub fail_batches : List Batch → ResponseCode → World Q → List Batch × World Q
  fail_batches [] code w = ([], w)
  fail_batches (b ∷ bs) code w =
      let (b', w') = handle_error push b code w in
      let (bs', w'') = fail_batches bs code w' in (b' ∷ bs', w'')

  unfoldable pub fail : Workload → ResponseCode → World Q → Workload × World Q
  unfolding fail_batches
  fail l code w = let (bs, w') = fail_batches l.batches code w in (record l { batches = bs }, w')
