-- ===== src/Common/BackendApi.antt =====
-- cpp/common/backend_api: what the streamer and the plugins for object storage give one another. A
-- struct for a completion event and a response have the same two members.
use runai_model_streamer.Prelude.{ℕ, Option, List}
use runai_model_streamer.Common.ResponseCode.{ResponseCode}
use runai_model_streamer.Common.SharedQueue.{IsResponse}

pub record Response : Type 0 where
  pub handle : ℕ
  pub ret : ResponseCode

-- `Response(ret)`
abbrev pub of_code : ResponseCode → Response
of_code c = record { handle = 0; ret = c }

instance abbrev pub response_is_response : IsResponse Response
response_is_response = record { ret = λ r. r.ret; of_code = of_code }

pub record ObjectRange : Type 0 where
  pub offset : ℕ
  pub length : ℕ

-- A string is the list of its bytes. `none` is a null pointer.
pub record ObjectClientConfig : Type 0 where
  pub endpoint_url : Option (List ℕ)
  pub default_storage_chunk_size : ℕ
  pub initial_params : List (List ℕ × Option (List ℕ))

pub data ObjectShutdownPolicy : Type 0 where
  on_process_exit on_streamer_shutdown : ObjectShutdownPolicy
