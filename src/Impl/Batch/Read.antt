-- ===== src/Impl/Batch/Read.antt =====
-- cpp/streamer/impl/batch/batch.cc: `read` and `execute`, the synchronous read of a batch. The
-- system calls of the file are a parameter, and so is the flag `stopped`, which another thread sets:
-- its value each time that the code looks at it.
use runai_model_streamer.Prelude.{
  ℕ, zero, suc, ◌/◌, Bool, List, [], ◌∷◌, ltb, if◌then◌else◌, add_size, sub_size,
}
use runai_model_streamer.Common.ResponseCode.{ResponseCode, success, finished_error}
use runai_model_streamer.Common.Result.{Result, ok, err, exception, assertion, code_of}
use runai_model_streamer.Common.Response.{Response}
use runai_model_streamer.Impl.Request.{Heap}
use runai_model_streamer.Impl.Task.{Task, destination}
use runai_model_streamer.Impl.File.{Os}
use runai_model_streamer.Impl.File
use runai_model_streamer.Impl.Batch.{Batch, World, finished_until, handle_error}

-- One read that was done: where in the file, how many bytes, and where to.
pub record Chunk : Type 0 where
  pub offset : ℕ
  pub bytesize : ℕ
  pub buffer : ℕ

-- Where a read stands: the batch and the world, the cursors in the file and in the destination, how
-- often the code has looked at `stopped`, the reads that were done, the latest first, and what the
-- code has thrown, if anything.
pub record Reading (Q : Type 0) : Type 0 where
  pub batch : Batch
  pub world : World Q
  pub file_offset : ℕ
  pub buffer : ℕ
  pub looks : ℕ
  pub chunks : List Chunk
  pub status : Result (Unit {0})

-- `tasks[0].destination()`; the list is not empty.
unfoldable pub first_destination : Heap → List Task → ℕ
first_destination h [] = 0
first_destination h (t ∷ ts) = destination h t

-- What follows a step that may have thrown: `t` if it did not.
abbrev pub continue : {Q : Type 0} → Result (Unit {0}) → Reading Q → Reading Q → Reading Q
continue (err e) s t = s
continue (ok _) s t = t

-- The state after a read at the cursors. The cursors stay; the callers that go on advance them.
abbrev pub after_read : {Q : Type 0} → Result (Unit {0}) → ℕ → Reading Q → Reading Q
after_read (err e) bytesize s = record s { status = err e }
after_read (ok _) bytesize s = record s {
  chunks = record { offset = s.file_offset; bytesize = bytesize; buffer = s.buffer } ∷ s.chunks;
}

unfoldable pub read_at : {Q : Type 0} → Os → ℕ → Reading Q → Reading Q
read_at os bytesize s = after_read (File.read os s.file_offset bytesize) bytesize s

abbrev pub look : {Q : Type 0} → Reading Q → Reading Q
look s = record s { looks = suc s.looks }

abbrev pub reading : {Q : Type 0} → Batch → World Q → Reading Q
reading b w = record {
  batch = b;
  world = w;
  file_offset = b.range.start;
  buffer = first_destination w.heap b.tasks;
  looks = 0;
  chunks = [];
  status = ok tt;
}

-- `finished_until(offset, Success)` on the batch that is read.
unfoldable pub notify : {Q : Type 0} → (Q → Response → ℕ → Q) → ℕ → Reading Q → Reading Q
notify push offset s =
    let (b, w) = finished_until push s.batch offset success s.world in
    record s { batch = b; world = w }

-- Both cursors move past a block.
abbrev pub advance : {Q : Type 0} → ℕ → Reading Q → Reading Q
advance block s = record s {
  file_offset = add_size s.file_offset block;
  buffer = add_size s.buffer block;
}

-- The state after an open or a seek: `t` if it did not throw.
abbrev pub after_seek : {Q : Type 0} → Result (Unit {0}) → Reading Q → Reading Q → Reading Q
after_seek (err e) s t = record s { status = err e }
after_seek (ok _) s t = t

-- A batch without tasks reads nothing.
abbrev pub unless_empty : {Q : Type 0} → List Task → Reading Q → Reading Q → Reading Q
unless_empty [] s t = s
unless_empty (_ ∷ _) s t = t

-- The code with which `execute` leaves the `try` block.
abbrev pub code_of_status : Result (Unit {0}) → ResponseCode
code_of_status (ok _) = success
code_of_status (err e) = code_of e

module _ {Q : Type 0} (push : Q → Response → ℕ → Q) (os : Os) (stopped : ℕ → Bool) where
  -- The body of the loop over whole blocks.
  unfoldable pub read_chunk : ℕ → Reading Q → Reading Q
  unfolding read_at notify
  read_chunk block s =
      let t = read_at os block s in
      continue t.status t (notify push (advance block t).file_offset (advance block t))

  -- The loop over the whole blocks; the number is of the rounds left.
  unfoldable pub read_chunks : ℕ → ℕ → Reading Q → Reading Q
  unfolding read_chunk
  read_chunks block zero s = s
  read_chunks block (suc k) s =
      let t = read_chunk block (look s) in
      let more = read_chunks block k t in
      let rest = continue t.status t more in if stopped s.looks then look s else rest

  -- The part of a block that is left at the end of the range.
  unfoldable pub read_rest : Reading Q → Reading Q
  unfolding read_at notify
  read_rest s =
      let t = read_at os (sub_size s.batch.range.stop s.file_offset) (look s) in
      if ltb s.file_offset s.batch.range.stop
      then if stopped s.looks
        then look s
        else continue t.status t (notify push s.batch.range.stop t)
      else s

  -- The last notification, and the error of a read that was stopped.
  unfoldable pub read_end : Reading Q → Reading Q
  unfolding notify
  read_end s =
      let t = if stopped s.looks then look s else notify push s.batch.range.stop (look s) in
      if stopped t.looks
      then record t { looks = suc t.looks; status = err (exception finished_error) }
      else look t

  -- `read` on a batch that has tasks, after the seek. A block size of zero, which the minimum of
  -- Impl/Config rules out, would divide by zero.
  unfoldable pub read_range : Reading Q → Reading Q
  unfolding read_chunks read_rest read_end
  read_range s =
      let block = s.batch.config.fs_block_bytesize in
      let t = read_chunks block (s.batch.range.size / block) s in
      let u = continue t.status t (read_rest t) in continue u.status u (read_end u)

  unfoldable pub read : Batch → World Q → Reading Q
  unfolding read_range first_destination
  read b w =
      let s = reading b w in
      unless_empty b.tasks s (after_seek (File.seek os b.range.start) s (read_range s))

  -- What the `try` block of `execute` leaves: a batch of object storage is refused, and a file that
  -- does not open reads nothing.
  unfoldable pub attempt : Batch → World Q → Reading Q
  unfolding read
  attempt b w =
      let s = reading b w in
      if b.is_object_storage
      then record s { status = err assertion }
      else after_seek (File.open_file os) s (read b w)

  unfoldable pub execute : Batch → World Q → Batch × World Q
  unfolding attempt
  execute b w = let s = attempt b w in handle_error push s.batch (code_of_status s.status) s.world
