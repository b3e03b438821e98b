-- ===== src/Plugins/S3/Base.antt =====
-- cpp/s3/client/client.cc: the endpoint of a client of S3, and what is compared before it is used again.
use runai_model_streamer.Prelude.{
  ℕ, ◌+◌, Bool, true, false, ◌&&◌, Option, none, some, List, [], ◌∷◌, leb, ◌==◌, if◌then◌else◌,
  drop,
}
use runai_model_streamer.Common.Text.{Text, codes}
use runai_model_streamer.Common.Credentials.{same_text}
use runai_model_streamer.Common.BackendApi.{ObjectClientConfig, response_is_response}

-- std::tolower in the C locale.
abbrev pub to_lower : ℕ → ℕ
to_lower c = if leb 65 c && leb c 90 then c + 32 else c

unfoldable pub starts_with_ci : Text → Text → Bool
starts_with_ci str [] = true
starts_with_ci [] (p ∷ ps) = false
starts_with_ci (c ∷ cs) (p ∷ ps) = (to_lower c == to_lower p) && starts_with_ci cs ps

pub data Scheme : Type 0 where
  http https : Scheme

pub record EndpointParseResult : Type 0 where
  pub host : Text
  pub scheme : Option Scheme

unfoldable pub parse_endpoint_scheme : Text → EndpointParseResult
unfolding starts_with_ci
parse_endpoint_scheme endpoint =
    if starts_with_ci endpoint (codes "https://")
    then record { host = drop 8 endpoint; scheme = some https }
    else if starts_with_ci endpoint (codes "http://")
    then record { host = drop 7 endpoint; scheme = some http }
    else record { host = endpoint; scheme = none }

-- `client_credentials` are the key, the secret and the token that the client is built with.
pub record S3ClientBase : Type 0 where
  pub key : Option Text
  pub secret : Option Text
  pub token : Option Text
  pub region : Option Text
  pub endpoint : Option Text
  pub client_credentials : Option (Text × Text × Text)
  pub chunk_bytesize : ℕ

-- The loop over the parameters: a later one replaces an earlier one, a null value removes it, and an
-- unknown one is skipped.
unfoldable pub take_params : List (Text × Option Text) → S3ClientBase → S3ClientBase
take_params [] b = b
take_params ((k, v) ∷ params) b = take_params params (
    if same_text k (codes "access_key_id")
    then record b { key = v }
    else if same_text k (codes "secret_access_key")
    then record b { secret = v }
    else if same_text k (codes "session_token")
    then record b { token = v }
    else if same_text k (codes "region")
    then record b { region = v }
    else b)

abbrev pub text_or : Option Text → Text
text_or none = []
text_or (some t) = t

-- Explicit credentials need a key and a secret.
abbrev pub credentials_of : Option Text → Option Text → Option Text → Option (Text × Text × Text)
credentials_of none secret token = none
credentials_of (some key) none token = none
credentials_of (some key) (some secret) token = some (key, secret, text_or token)

unfoldable pub create_base : ObjectClientConfig → S3ClientBase
unfolding take_params
create_base config =
    let b = take_params config.initial_params (record {
      key = none;
      secret = none;
      token = none;
      region = none;
      endpoint = config.endpoint_url;
      client_credentials = none;
      chunk_bytesize = config.default_storage_chunk_size;
    }) in
    record b { client_credentials = credentials_of b.key b.secret b.token }

unfoldable pub verify_credentials_member : Option Text → Option Text → Bool
verify_credentials_member none none = true
verify_credentials_member none (some value) = false
verify_credentials_member (some member) none = false
verify_credentials_member (some member) (some value) = same_text member value

abbrev pub same_members : S3ClientBase → S3ClientBase → Bool
same_members b other =
    verify_credentials_member b.key other.key
    && (verify_credentials_member b.secret other.secret
        && (verify_credentials_member b.token other.token
            && (verify_credentials_member b.region other.region
                && verify_credentials_member b.endpoint other.endpoint)))

unfoldable pub verify_credentials : S3ClientBase → ObjectClientConfig → Bool
verify_credentials b config = same_members b (create_base config)
