-- ===== src/Impl/File.antt =====
-- cpp/streamer/impl/file/file.cc: the synchronous reader of one file. The system calls
-- (cpp/utils/fd calls them) are a parameter.
use runai_model_streamer.Prelude.{
  ℕ, ◌≡◌, Bool, false, Option, none, some, ◌==◌, if◌then◌else◌, arith,
}
use runai_model_streamer.Common.ResponseCode.{
  file_access_error, eof_error, unknown_error, is_success,
}
use runai_model_streamer.Common.Result.{Result, ok, err, exception, code_of}

-- Whether the file opens, whether a seek to an offset succeeds, and how many bytes a read of a
-- number of bytes at an offset gives, if the system reports no error.
pub record Os : Type 0 where
  pub opens : Bool
  pub seeks : ℕ → Bool
  pub reads : ℕ → ℕ → Option ℕ

unfoldable pub open_file : Os → Result (Unit {0})
open_file os = if os.opens then ok tt else err (exception file_access_error)

unfoldable pub seek : Os → ℕ → Result (Unit {0})
seek os offset = if os.seeks offset then ok tt else err (exception eof_error)

unfoldable pub read : Os → ℕ → ℕ → Result (Unit {0})
read os offset bytesize = elim (os.reads offset bytesize) [
  | none ↦ err (exception file_access_error)
  | some result ↦ if result == bytesize then ok tt else err (exception eof_error)
]

-- The file reader has no asynchronous reads.
unfoldable pub async_read : Result (Unit {0})
async_read = err (exception unknown_error)

unfoldable pub async_response : Result (Unit {0})
async_response = err (exception unknown_error)

-- An error is one.
abbrev pub IsFailure : Result (Unit {0}) → Type 0
IsFailure (ok _) = Unit
IsFailure (err e) = is_success (code_of e) ≡ false

pub open_file-IsFailure : (os : Os) → IsFailure (open_file os)
unfolding open_file
open_file-IsFailure os = ground arith

pub seek-IsFailure : (os : Os) (n : ℕ) → IsFailure (seek os n)
unfolding seek
seek-IsFailure os n = ground arith

pub read-IsFailure : (os : Os) (n k : ℕ) → IsFailure (read os n k)
unfolding read
read-IsFailure os n k = ground arith
