-- ===== src/Impl/Assigner/Coalesce.antt =====
-- cpp/streamer/impl/assigner/assigner.cc: `coalesce`, which merges the ranges of a file that are
-- adjacent in the file and in the destination. The transfer that is open for extension is always the
-- last one of the vector, so it is carried beside the ones before it.
pub mod Place
pub mod Expand
use runai_model_streamer.Prelude.{
  ℕ, suc, ◌+◌, ◌-◌, ◌≡◌, Bool, true, false, ◌&&◌, Option, none, some, List, [], ◌∷◌, ◌++◌, ltb,
  ◌==◌, if◌then◌else◌, add_size, size_max, length,
}
use runai_model_streamer.Common.ResponseCode.{invalid_parameter_error}
use runai_model_streamer.Common.Result.{Result, ok, err, exception, ◌>>=◌, ◌>>◌}
use runai_model_streamer.Impl.Request.{ReadRange, FileRanges}
use runai_model_streamer.Impl.Assigner.Transfer.{ContiguousTransfer}

-- Whether a range starts where a transfer ends, in the file and in the destination.
unfoldable pub extends : ContiguousTransfer → ReadRange → Bool
extends t r = (add_size t.offset t.size == r.offset) && (add_size t.destination t.size == r.dst)

unfoldable pub extend : ContiguousTransfer → ReadRange → ContiguousTransfer
extend t r = record t {
  size = add_size t.size r.size;
  range_sizes = t.range_sizes ++ (r.size ∷ []);
}

unfoldable pub open_transfer : ℕ → ℕ → ReadRange → ContiguousTransfer
open_transfer file_index i r = record {
  file_index = file_index;
  offset = r.offset;
  size = r.size;
  destination = r.dst;
  first_range_index = i;
  range_sizes = r.size ∷ [];
  tasks = [];
}

-- Where range `i` goes: the transfer that it closes, if any, and the one that is open after it.
unfoldable pub place :
    ℕ → ℕ → Option ContiguousTransfer → ReadRange → List ContiguousTransfer × ContiguousTransfer
unfolding extends extend open_transfer
place file_index i none r = ([], open_transfer file_index i r)
place file_index i (some t) r =
    if extends t r then ([], extend t r) else (t ∷ [], open_transfer file_index i r)

abbrev pub opened : Option ContiguousTransfer → List ContiguousTransfer
opened none = []
opened (some t) = t ∷ []

-- The ranges of one file from index `i` on, with the total of the bytes so far: the transfers from
-- the open one on, and the total after them.
unfoldable pub coalesce_ranges :
    ℕ → ℕ → Option ContiguousTransfer → ℕ → List ReadRange → Result (List ContiguousTransfer × ℕ)
unfolding place
coalesce_ranges file_index i current total [] = ok (opened current, total)
coalesce_ranges file_index i current total (r ∷ rs) =
    let (closed, t) = place file_index i current r in
    let rest = coalesce_ranges file_index (suc i) (some t) (add_size total r.size) rs in
    if ltb (size_max - r.size) total
    then err (exception invalid_parameter_error)
    else do more ← rest; ok (closed ++ more.0, more.1)

-- The files from `file_index` on. No transfer is open at the start of a file.
unfoldable pub coalesce_files : ℕ → ℕ → List FileRanges → Result (List ContiguousTransfer × ℕ)
unfolding coalesce_ranges
coalesce_files file_index total [] = ok ([], total)
coalesce_files file_index total (f ∷ fs) = do
  this ← coalesce_ranges file_index 0 none total f.ranges
  rest ← coalesce_files (suc file_index) this.1 fs
  ok (this.0 ++ rest.0, rest.1)

unfoldable pub coalesce : List FileRanges → Result (List ContiguousTransfer × ℕ)
unfolding coalesce_files
coalesce request = coalesce_files 0 0 request
