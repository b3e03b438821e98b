-- ===== src/Common/S3Wrapper/Opening.antt =====
-- cpp/common/s3_wrapper: what a client of an object storage is made from, and the plugin that it needs.
use runai_model_streamer.Prelude.{ℕ, true, Option, none, some, [], ◌∷◌, if◌then◌else◌, map}
use runai_model_streamer.Common.Text.{Text, codes}
use runai_model_streamer.Common.Result.{Result, ok, ◌>>=◌}
use runai_model_streamer.Common.StorageUri.{StorageUri, is_gcs, is_azure}
use runai_model_streamer.Common.Credentials.{Credentials}
use runai_model_streamer.Common.Credentials
use runai_model_streamer.Common.BackendApi.{ObjectClientConfig}
use runai_model_streamer.Utils.Env.{Environment, getenv_bool_or}

-- Every URI that is made is not null.
pub record Params : Type 0 where
  pub chunk_bytesize : ℕ
  pub uri : Option StorageUri
  pub credentials : Credentials
  pub endpoint : Text

-- The endpoint: that of the credentials, or else that of the environment unless a flag forbids it.
unfoldable pub create_params : Environment → StorageUri → Credentials → ℕ → Result Params
unfolding Credentials.endpoint
create_params env uri credentials chunk_bytesize =
    let params : Text → Params = λ endpoint. record {
      chunk_bytesize = chunk_bytesize;
      uri = some uri;
      credentials = credentials;
      endpoint = endpoint;
    } in
    elim (Credentials.endpoint credentials) [
      | some ep ↦ ok (params ep)
      | none ↦ (do
        override_endpoint_flag ←
            getenv_bool_or env (codes "RUNAI_STREAMER_OVERRIDE_ENDPOINT_URL") true
        ok (
            params (elim (env (codes "AWS_ENDPOINT_URL")) [
              | none ↦ []
              | some endpoint ↦ if override_endpoint_flag then endpoint else []
            ])))
    ]

-- `Params()`
abbrev pub no_params : Params
no_params = record { chunk_bytesize = 0; uri = none; credentials = []; endpoint = [] }

abbrev pub with_value : Text × Text → Text × Option Text
with_value (k, v) = (k, some v)

unfoldable pub to_config : Params → ObjectClientConfig
unfolding Credentials.to_object_client_config
to_config p = record {
  endpoint_url = elim p.endpoint [ [] ↦ none | c ∷ cs ↦ some (c ∷ cs) ];
  default_storage_chunk_size = p.chunk_bytesize;
  initial_params = map with_value (Credentials.to_object_client_config p.credentials);
}

pub data ObjectPluginType : Type 0 where
  gcs s3 azure : ObjectPluginType

abbrev pub so_name : ObjectPluginType → Text
so_name gcs = codes "libstreamergcs.so"
so_name s3 = codes "libstreamers3.so"
so_name azure = codes "libstreamerazure.so"

unfoldable pub get_libstreamers_plugin_type : Option StorageUri → ObjectPluginType
get_libstreamers_plugin_type none = s3
get_libstreamers_plugin_type (some uri) =
    if is_gcs uri then gcs else if is_azure uri then azure else s3
