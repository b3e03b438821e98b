-- ===== src/Tests.antt =====
-- The theorems at concrete inputs.
pub mod Plugins
pub mod Files
pub mod Queues
pub mod Windows
pub mod Versions
pub mod Threads
pub mod Building
pub mod Aborting
pub mod Submitting
pub mod Clients
use runai_model_streamer.Prelude.{
  ◌%◌, ◌^◌, ℕ, zero, suc, ◌+◌, ◌≤◌, ◌<◌, ◌≡◌, refl, Bool, true, false, Option, none, some, List, [],
  ◌∷◌, ◌++◌, arith, All, map, sum, sum_by, max, ℤ, pos, length,
}
use runai_model_streamer.Prelude.Assoc.{lookup}
use runai_model_streamer.Common.ResponseCode.{
  ResponseCode, eof_error, success, to_int, response_code_from, response_code_from_inverse,
}
use runai_model_streamer.Common.Result.{Result, ok, err}
use runai_model_streamer.Common.Response.{Response, response_is_response, of_code}
use runai_model_streamer.Impl.Request.{FileRanges}
use runai_model_streamer.Common.Text.{codes}
use runai_model_streamer.Utils.Env.{Environment}
use runai_model_streamer.Impl.Config.{from_env, max_concurrency}
use runai_model_streamer.Impl.Config.Usable.{Configures, from_env-Configures}
use runai_model_streamer.Impl.Assigner.Transfer.{ContiguousTransfer}
use runai_model_streamer.Impl.Assigner.Coalesce.{coalesce}
use runai_model_streamer.Impl.Assigner.Coalesce.Expand.{Outcome, coalesce-Outcome}
use runai_model_streamer.Impl.Assigner.Coalesce.Place.{request_bytes, index_files}
use runai_model_streamer.Impl.Assigner.Assign.{assign, bytes_per_worker}
use runai_model_streamer.Impl.Assigner.Assign.Tiles.{IsAssigned, bare}
use runai_model_streamer.Impl.Assigner.Assign.Workers.{assign-IsAssigned}
use runai_model_streamer.Impl.File.{Os}
use runai_model_streamer.Impl.Task.{Task}
use runai_model_streamer.Impl.Batch.{Batch, World}
use runai_model_streamer.Impl.Batch.Read.{execute}
use runai_model_streamer.Impl.Batch.Account.{Log, log, answers, Books, AllFinished}
use runai_model_streamer.Impl.Batch.Execute.{execute-Books}
use runai_model_streamer.Impl.Submissions.{Submission, SubmissionsMgr, Outcome as SubmissionOutcome}
use runai_model_streamer.Impl.Submissions.Consume.{consume_all, Ends, consume_all-Ends}
use runai_model_streamer.Impl.Pools.{Plugin, gcs, BackendPools}
use runai_model_streamer.Impl.Pools
use runai_model_streamer.Impl.Streamer.{lock_object_plugin}
use runai_model_streamer.Impl.Streamer.Lock.{Of, lock_object_plugin-Of}

response_code_from_inverse_example :
    (response_code_from (pos 3) ≡ some eof_error)
    × (response_code_from (pos 3) ≡ some eof_error → pos 3 ≡ pos 3)
response_code_from_inverse_example = response_code_from_inverse eof_error (pos 3)

abbrev two_files : List FileRanges
two_files =
    record {
      path = 97 ∷ [];
      ranges =
          record { offset = 10; size = 5; dst = 100 }
          ∷ record { offset = 15; size = 0; dst = 105 }
          ∷ record { offset = 15; size = 2; dst = 200 }
          ∷ [];
    }
    ∷ record { path = 98 ∷ []; ranges = record { offset = 0; size = 4; dst = 300 } ∷ [] }
    ∷ []

coalesce-Outcome_example :
    Outcome (coalesce two_files) (request_bytes two_files) (index_files 0 two_files)
coalesce-Outcome_example =
    coalesce-Outcome two_files
      ((omega arith, (omega arith, (omega arith, tt))), ((omega arith, tt), tt))

abbrev two_transfers : List ContiguousTransfer
two_transfers =
    record {
      file_index = 0;
      offset = 10;
      destination = 100;
      size = 7;
      range_sizes = 7 ∷ [];
      first_range_index = 0;
      tasks = [];
    }
    ∷ record {
      file_index = 1;
      offset = 0;
      destination = 300;
      size = 4;
      range_sizes = 4 ∷ [];
      first_range_index = 0;
      tasks = [];
    }
    ∷ []

assign-IsAssigned_example :
    let n = (bytes_per_worker 2 3 11).num_workloads in
    (r : List ContiguousTransfer) × (assign 2 3 two_transfers 11 ≡ ok r)
    × All (IsAssigned n) r
    × (n ≤ 3)
    × (map bare r ≡ map bare two_transfers)
assign-IsAssigned_example =
    assign-IsAssigned 2 3 11 two_transfers (omega arith) (refl, (refl, tt)) refl

-- RUNAI_STREAMER_CONCURRENCY is not a number.
abbrev bad_environment : Environment
bad_environment v = some (codes "abc")

from_env-Configures_example : Configures bad_environment (from_env bad_environment true)
from_env-Configures_example = from_env-Configures bad_environment

abbrev of_7 : Submission
of_7 = record { remaining = 2; total_bytes = 4000; submit_time = 0 }

abbrev live_7 : SubmissionsMgr
live_7 = record { next_id = 8; submissions = (7, of_7) ∷ [] }

consume_all-Ends_example :
    (r : List SubmissionOutcome × SubmissionsMgr) × (consume_all live_7 7 (1000 ∷ 2000000 ∷ [])
      ≡ ok r)
    × Ends live_7 7 2000000 1 of_7 r
unfolding lookup
consume_all-Ends_example =
    consume_all-Ends (1000 ∷ []) live_7 7 2000000 of_7 refl refl (omega arith)

abbrev of_gcs : List FileRanges
of_gcs =
    record {
      path = 103 ∷ 115 ∷ 58 ∷ 47 ∷ 47 ∷ 98 ∷ 47 ∷ 107 ∷ [];
      ranges = record { offset = 0; size = 4; dst = 300 } ∷ [];
    }
    ∷ record { path = 97 ∷ []; ranges = [] }
    ∷ []

lock_object_plugin-Of_example : (k : Option Plugin) × All (Of k) of_gcs
unfolding lock_object_plugin
lock_object_plugin-Of_example =
    lock_object_plugin-Of {W = ℕ} (ok tt) of_gcs Pools.create
      (record {
        filesystem_pool = none;
        object_storage_pool = some [];
        plugin = some gcs;
        ready_plugin = some gcs;
      })
      refl

-- The file of one block of 5 bytes and a rest, which reads whole.
abbrev whole_file : Os
whole_file = record { opens = true; seeks = λ n. true; reads = λ offset n. some n }

abbrev one_task : Task
one_task = record {
  request = 0;
  info = record { offset = 10; bytesize = 7; stop = 17; relative_offset = 0 };
  is_finished = false;
}

abbrev one_batch : Batch
one_batch = record {
  submission_id = 7;
  workload_index = 0;
  file_index = 3;
  path = 97 ∷ [];
  is_object_storage = false;
  tasks = one_task ∷ [];
  range = record { start = 10; size = 7; stop = 17 };
  config = record {
    concurrency = 1;
    s3_concurrency = 1;
    s3_block_bytesize = 5;
    fs_block_bytesize = 5;
  };
  unfinished = 0;
}

abbrev one_world : World Log
one_world = record {
  heap = λ q. record {
    offset = 10;
    file_index = 3;
    index = 0;
    bytesize = 7;
    dst = 100;
    tasks = 1;
    ret = success;
  };
  responder = [];
}

one_world-Books : Books 3 (λ q. 0) 0 0 one_batch.tasks one_world
one_world-Books = record {
  indexed = λ q. refl;
  apart = (λ e. refl, tt);
  account = record { counted = refl; small = omega arith; once = refl };
}

execute-Books_example :
    let (b', w') = execute log whole_file (λ n. false) one_batch one_world in
    AllFinished b'.tasks
    × ((w'.heap 0).tasks ≡ 0)
    × (◌≡◌ {A = ℕ} 0 0 → answers 3 0 w'.responder ≡ 1)
execute-Books_example =
    execute-Books one_batch (λ q. 0) 0 0 whole_file (λ n. false) one_world (λ n e. e) refl
      (omega arith, tt) one_world-Books
