-- ===== src/Impl/Config.antt =====
-- cpp/streamer/impl/config/config.h and config.cc. The environment is an argument of the second
-- constructor.
pub mod Usable
use runai_model_streamer.Prelude.{
  refl, ℕ, ◌*◌, ◌^◌, ◌%◌, ◌≤◌, ◌<◌, ◌≡◌, Bool, true, ◌&&◌, Option, none, some, ltb, arith,
  if◌then◌else◌, max, not, ◌==◌,
}
use runai_model_streamer.Common.Result.{Result, ok, assert, ◌>>◌, ◌>>=◌}
use runai_model_streamer.Common.Text.{Text, codes}
use runai_model_streamer.Utils.Env.{Environment, getenv_unsigned_long_or}

pub record Config : Type 0 where
  pub concurrency : ℕ
  pub s3_concurrency : ℕ
  pub s3_block_bytesize : ℕ
  pub fs_block_bytesize : ℕ

-- `S3ClientWrapper::min_chunk_bytesize` and `default_chunk_bytesize`
abbrev pub min_chunk_bytesize : ℕ
min_chunk_bytesize = 5 * 1024 * 1024

abbrev pub default_chunk_bytesize : ℕ
default_chunk_bytesize = 8 * 1024 * 1024

abbrev pub min_fs_block_bytesize : ℕ
min_fs_block_bytesize = 2 * 1024 * 1024

-- A block size, raised to the backend's minimum.
unfoldable pub at_least : Bool → ℕ → ℕ → ℕ
at_least enforce minimum n = if enforce && ltb n minimum then minimum else n

unfoldable pub create : ℕ → ℕ → ℕ → ℕ → Bool → Result Config
unfolding at_least
create concurrency s3_concurrency s3_block fs_block enforce_minimum = do
  assert (not (concurrency == 0))
  assert (not (s3_block == 0))
  ok (record {
    concurrency = concurrency;
    s3_concurrency = s3_concurrency;
    s3_block_bytesize = at_least enforce_minimum min_chunk_bytesize s3_block;
    fs_block_bytesize = at_least enforce_minimum min_fs_block_bytesize fs_block;
  })

abbrev pub concurrency_variable : Text
concurrency_variable = codes "RUNAI_STREAMER_CONCURRENCY"

abbrev pub chunk_bytesize_variable : Text
chunk_bytesize_variable = codes "RUNAI_STREAMER_CHUNK_BYTESIZE"

-- Each variable is read twice, with another default. RUNAI_STREAMER_CONCURRENCY is narrowed to
-- `unsigned`, RUNAI_STREAMER_CHUNK_BYTESIZE is not.
unfoldable pub from_env : Environment → Bool → Result Config
unfolding create getenv_unsigned_long_or
from_env env enforce_minimum = do
  concurrency ← getenv_unsigned_long_or env concurrency_variable 16
  s3_concurrency ← getenv_unsigned_long_or env concurrency_variable 8
  s3_block ← getenv_unsigned_long_or env chunk_bytesize_variable default_chunk_bytesize
  fs_block ← getenv_unsigned_long_or env chunk_bytesize_variable min_fs_block_bytesize
  create (concurrency % 2 ^ 32) (s3_concurrency % 2 ^ 32) s3_block fs_block enforce_minimum

unfoldable pub max_concurrency : Config → ℕ
max_concurrency c = max c.concurrency c.s3_concurrency
