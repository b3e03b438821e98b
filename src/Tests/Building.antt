-- ===== src/Tests/Building.antt =====
-- Ids, batches and chunks, at concrete inputs.
use runai_model_streamer.Prelude.{
  ℕ, ◌-◌, ◌^◌, ◌<◌, ◌≡◌, refl, none, some, List, [], ◌∷◌, arith, length,
}
use runai_model_streamer.Prelude.Assoc.{lookup}
use runai_model_streamer.Common.Result.{ok}
use runai_model_streamer.Common.ResponseCode.{success}
use runai_model_streamer.Impl.Task.{Info}
use runai_model_streamer.Impl.Assigner.Transfer.{FileReadTask}
use runai_model_streamer.Impl.Submissions.{SubmissionsMgr, generate}
use runai_model_streamer.Impl.Submissions.Fresh.{generate-fresh}
use runai_model_streamer.Impl.Batches.{BatchItr, Building, split_request, enough, handle_requests}
use runai_model_streamer.Impl.Batches.Split.{Splits, range-Splits}
use runai_model_streamer.Impl.Batches.Count.{IsCounted, Built, handle_requests-Built}
use runai_model_streamer.Impl.ObjectStorageWorker.Enqueue.{chunk_count, split_chunks}
use runai_model_streamer.Impl.ObjectStorageWorker.Enqueue.Chunks.{Tiled, split_chunks-tile}

-- The counter is at its end, where the next id is 0, which is none.
abbrev at_wrap : SubmissionsMgr
at_wrap = record {
  next_id = 2 ^ 64 - 1;
  submissions =
      (2 ^ 64 - 1, record { remaining = 2; total_bytes = 40; submit_time = 0 })
      ∷ (1, record { remaining = 1; total_bytes = 4; submit_time = 0 })
      ∷ [];
}

generate-fresh_example :
    (id : ℕ) × (m' : SubmissionsMgr) × (generate at_wrap ≡ some (id, m'))
    × (lookup id at_wrap.submissions ≡ none)
    × (0 < id)
    × (id < 2 ^ 64)
    × (m'.next_id < 2 ^ 64)
    × (m'.submissions ≡ at_wrap.submissions)
generate-fresh_example = generate-fresh at_wrap (omega arith) (omega arith)

-- Two workers with 4 and 6 bytes of a transfer.
abbrev two_tasks : List FileReadTask
two_tasks =
    record {
      workload_index = 0;
      original_file_index = 0;
      offset_in_file = 10;
      size = 4;
      destination = 100;
    }
    ∷ record {
      workload_index = 1;
      original_file_index = 0;
      offset_in_file = 14;
      size = 6;
      destination = 104;
    }
    ∷ []

abbrev at_first : BatchItr
at_first = record {
  file_read_tasks = two_tasks;
  current_task_index = 0;
  current_workload_index = 0;
  current_worker_bytesize = 4;
}

range-Splits_example :
    (at : BatchItr) × (infos : List (ℕ × Info)) × (split_request
        (enough at_first)
        at_first
        10
        7
        0
        []
      ≡ ok (at, infos))
    × Splits 0 at_first at 10 7 0 infos
range-Splits_example =
    range-Splits at_first 10 7 (record { inside = omega arith; small = omega arith }) (omega arith)

abbrev none_made : Building
none_made = record {
  itr = at_first;
  v_tasks = [] ∷ [] ∷ [];
  heap = λ q. record {
    offset = 0;
    file_index = 0;
    index = 0;
    bytesize = 0;
    dst = 0;
    tasks = 0;
    ret = success;
  };
  next = 5;
}

none_made-IsCounted : IsCounted 5 none_made
none_made-IsCounted = record {
  valid = record { inside = omega arith; small = omega arith };
  lists = refl;
  after_base = omega arith;
  counted = λ q b k. absurd (omega arith);
  some_task = λ q b k. absurd (omega arith);
  unused = λ q k. refl;
}

handle_requests-Built_example :
    (t : Building) × (handle_requests 0 0 10 100 (3 ∷ 0 ∷ 7 ∷ []) none_made ≡ ok t)
    × Built 5 0 0 10 100 (3 ∷ 0 ∷ 7 ∷ []) none_made t
handle_requests-Built_example =
    handle_requests-Built (3 ∷ 0 ∷ 7 ∷ []) 5 0 0 10 100 none_made none_made-IsCounted (omega arith)

split_chunks-tile_example :
    (length (split_chunks (chunk_count 4 10) 4 7 100 10 500) ≡ chunk_count 4 10)
    × Tiled 4 7 100 10 500 (split_chunks (chunk_count 4 10) 4 7 100 10 500)
split_chunks-tile_example = split_chunks-tile 4 7 100 10 500 (omega arith) (omega arith)
