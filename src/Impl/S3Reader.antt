-- ===== src/Impl/S3Reader.antt =====
-- cpp/streamer/impl/s3/s3.cc: the reader of an object storage, over the wrapper of its plugin.
use runai_model_streamer.Prelude.{ℕ, List, [], if◌then◌else◌}
use runai_model_streamer.Common.ResponseCode.{ResponseCode, success, unknown_error, is_success}
use runai_model_streamer.Common.Result.{Result, ok, err, exception, ◌>>=◌}
use runai_model_streamer.Common.BackendApi.{Response, ObjectRange}
use runai_model_streamer.Common.S3Wrapper.{S3ClientWrapper}
use runai_model_streamer.Common.S3Wrapper.Opening.{Params}
use runai_model_streamer.Common.S3Wrapper

module _ {H C : Type 0} where
  unfoldable pub seek : S3ClientWrapper H C → ℕ → Result (Unit {0})
  seek client offset = err (exception unknown_error)

  unfoldable pub read : S3ClientWrapper H C → ℕ → ℕ → Result (Unit {0})
  read client bytesize buffer = err (exception unknown_error)

  unfoldable pub async_read :
      S3ClientWrapper H C
      → Params
      → (request_handle : ℕ) → ObjectRange
      → (buffer : ℕ) → Result (Unit {0})
  unfolding S3Wrapper.async_read
  async_read client params request_handle range buffer = do
    response_code ← S3Wrapper.async_read client params request_handle range buffer
    if is_success response_code then ok tt else err (exception response_code)

  -- The responses are those of the events; with another code than Success there are none.
  unfoldable pub async_response : S3ClientWrapper H C → ℕ → Result (ResponseCode × List Response)
  unfolding S3Wrapper.async_read_response
  async_response client max_responses = do
    out ← S3Wrapper.async_read_response client max_responses
    if is_success out.0 then ok (success, out.1) else ok (out.0, [])

  unfoldable pub max_inflight_bytes : S3ClientWrapper H C → ℕ
  unfolding S3Wrapper.max_inflight_bytes
  max_inflight_bytes client = S3Wrapper.max_inflight_bytes client
