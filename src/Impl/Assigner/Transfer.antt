-- ===== src/Impl/Assigner/Transfer.antt =====
-- cpp/streamer/impl/assigner/assigner.h and file_read_task: the groups of ranges that one sequential
-- read serves, and their slices.
use runai_model_streamer.Prelude.{ℕ, List}

pub record FileReadTask : Type 0 where
  pub workload_index : ℕ
  pub original_file_index : ℕ
  pub offset_in_file : ℕ
  pub size : ℕ
  pub destination : ℕ

pub record ContiguousTransfer : Type 0 where
  pub file_index : ℕ
  pub offset : ℕ
  pub size : ℕ
  pub destination : ℕ
  pub first_range_index : ℕ
  pub range_sizes : List ℕ
  pub tasks : List FileReadTask
