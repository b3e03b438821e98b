-- ===== src/Common/Response.antt =====
-- cpp/common/response: what the consumer gets for one range.
use runai_model_streamer.Prelude.{ℕ}
use runai_model_streamer.Common.ResponseCode.{ResponseCode}
use runai_model_streamer.Common.SharedQueue.{IsResponse}

pub record Response : Type 0 where
  pub submission_id : ℕ
  pub file_index : ℕ
  pub index : ℕ
  pub ret : ResponseCode

-- `Response(ret)`: the other members have their defaults.
abbrev pub of_code : ResponseCode → Response
of_code c = record { submission_id = 0; file_index = 0; index = 0; ret = c }

instance abbrev pub response_is_response : IsResponse Response
response_is_response = record { ret = λ a. a.ret; of_code = of_code }
