-- ===== src/Tests/Submitting.antt =====
-- Submissions through the streamer and the C interface, at concrete inputs.
use runai_model_streamer.Prelude.{◌≡◌, refl, true, false, none, some, List, [], ◌∷◌, arith}
use runai_model_streamer.Common.ResponseCode.{success}
use runai_model_streamer.Common.Result.{ok}
use runai_model_streamer.Common.SharedQueue.{persistent}
use runai_model_streamer.Prelude.{add_size}
use runai_model_streamer.Prelude.Assoc.{lookup, emplace}
use runai_model_streamer.Impl.Batch
use runai_model_streamer.Impl.Task
use runai_model_streamer.Impl.Request.{FileRanges}
use runai_model_streamer.Impl.Streamer.Submit.{Streamer, Outside, async_request}
use runai_model_streamer.Impl.Streamer.Submit.Endings.{Commits}
use runai_model_streamer.Impl.Streamer.Submit.Commits.{async_request-Commits}
use runai_model_streamer.Api.{marshal, runai_request}
use runai_model_streamer.Api.Marshal.{arrays, marshal-arrays}
use runai_model_streamer.Api.Owes.{Owes, runai_request-Owes}

abbrev one_file : List FileRanges
one_file =
    record {
      path = 97 ∷ [];
      ranges =
          record { offset = 10; size = 5; dst = 100 }
          ∷ record { offset = 20; size = 2; dst = 200 }
          ∷ [];
    }
    ∷ []

abbrev new_streamer : Streamer
new_streamer = record {
  config = record {
    concurrency = 2;
    s3_concurrency = 1;
    s3_block_bytesize = 5;
    fs_block_bytesize = 5;
  };
  pools = record {
    filesystem_pool = none;
    object_storage_pool = none;
    plugin = none;
    ready_plugin = none;
  };
  submissions = record { next_id = 1; submissions = [] };
  world = record {
    heap = λ q. record {
      offset = 0;
      file_index = 0;
      index = 0;
      bytesize = 0;
      dst = 0;
      tasks = 0;
      ret = success;
    };
    responder = record {
      mode = persistent;
      running = 0;
      responses = [];
      ready = 0;
      stopped = false;
      total_bytesize = 0;
      successful = true;
      unexpected_push_error = false;
    };
  };
  next = 0;
  is_ready = false;
}

abbrev outside : Outside
outside = record {
  can_create = ok tt;
  limits = record { current = 1024; maximum = 4096; raised = ok tt };
  now = 5;
  can_push = λ k. true;
}

async_request-Commits_example :
    Commits 5 one_file new_streamer (async_request outside one_file new_streamer)
async_request-Commits_example =
    async_request-Commits outside one_file new_streamer (omega arith) (omega arith) (λ e. refl)

runai_request-Owes_example :
    let r = runai_request outside 1 (arrays one_file) (some new_streamer) in
    (t : Streamer) × (r.streamer ≡ some t) × Owes outside 1 (arrays one_file) new_streamer t r
runai_request-Owes_example =
    runai_request-Owes outside 1 (arrays one_file) new_streamer (omega arith) (omega arith)
      (λ e. refl)

marshal-arrays_example : marshal 1 (arrays one_file) ≡ ok (some one_file)
marshal-arrays_example = marshal-arrays one_file (omega arith) (
  record {
    path = ((omega arith, omega arith), tt);
    count = omega arith;
    fields =
        ((omega arith, omega arith, omega arith), ((omega arith, omega arith, omega arith), tt));
  },
  tt,
)

-- The submission of one file is committed and dispatched.
submits_one_file :
    let r = async_request outside one_file new_streamer in (r.result ≡ ok success) × (r.id ≡ 1)
unfolding async_request add_size lookup emplace Batch.create Task.create Task.make_info
submits_one_file = (refl, refl)
