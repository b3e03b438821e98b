-- ===== src/Plugins/S3.antt =====
-- cpp/s3/client/client.cc: a client of S3. The client of the vendor is an argument: how its reads end,
-- and the pages that it lists.
pub mod Verify
pub mod Pages
pub mod Backend
pub mod Base
use runai_model_streamer.Prelude.{
  ℕ, zero, suc, ◌+◌, ◌-◌, ◌%◌, ◌^◌, Bool, true, false, not, ◌&&◌, ◌||◌, Option, none, some, List,
  [], ◌∷◌, ◌++◌, leb, ◌==◌, if◌then◌else◌, add_size, sub_size, length, drop, ◌⊎◌, inl, inr, take,
}
use runai_model_streamer.Common.Text.{Text, codes}
use runai_model_streamer.Common.Decimal.{to_string}
use runai_model_streamer.Common.Credentials.{same_text}
use runai_model_streamer.Common.ResponseCode.{
  ResponseCode, success, file_access_error, file_truncated_error, finished_error, ca_file_not_found,
}
use runai_model_streamer.Common.Result.{Result, ok, err, exception, assertion, ◌>>=◌, ◌>>◌}
use runai_model_streamer.Common.SharedQueue.{SharedQueue, finish_on_drain, Popped}
use runai_model_streamer.Common.SharedQueue
use runai_model_streamer.Common.StorageUri.{StorageUri}
use runai_model_streamer.Common.StorageUri
use runai_model_streamer.Common.BackendApi.{
  Response, of_code, ObjectRange, ObjectClientConfig, response_is_response,
}
use runai_model_streamer.Utils.Env.{Environment, try_getenv_bool}
use runai_model_streamer.Plugins.S3.Base.{
  Scheme, http, https, to_lower, starts_with_ci, EndpointParseResult, parse_endpoint_scheme,
  S3ClientBase, take_params, text_or, credentials_of, create_base, verify_credentials_member,
  same_members, verify_credentials,
}

-- What the configuration of the vendor's client is set to; `none` leaves its default.
pub record ClientConfiguration : Type 0 where
  pub endpoint_override : Option Text
  pub scheme : Option Scheme
  pub use_virtual_addressing : Option Bool
  pub region : Option Text
  pub ca_file : Text

pub record S3Client : Type 0 where
  pub base : S3ClientBase
  pub stopped : Bool
  pub client_config : ClientConfiguration
  pub max_inflight_bytes : ℕ
  pub responder : Option (SharedQueue Response)

-- An endpoint has a host.
unfoldable pub endpoint_of : Option Text → Result (Option Text × Option Scheme)
unfolding parse_endpoint_scheme
endpoint_of none = ok (none, none)
endpoint_of (some endpoint) =
    let parsed = parse_endpoint_scheme endpoint in
    elim parsed.host [
      | [] ↦ err (exception file_access_error)
      | c ∷ cs ↦
          if c == 58 then err (exception file_access_error) else ok (some (c ∷ cs), parsed.scheme)
    ]

-- The constructor. The path of the profile's certificates, whether a file exists, and the window that
-- is computed from the chunk size are arguments.
unfoldable pub create :
    Environment → Text → (Text → Bool) → (ℕ → ℕ) → ObjectClientConfig → Result S3Client
unfolding create_base endpoint_of
create env ca_bundle exists inflight_window_bytes config = do
  let b = create_base config
  endpoint ← endpoint_of b.endpoint
  use_virtual_addressing ← try_getenv_bool env (codes "RUNAI_STREAMER_S3_USE_VIRTUAL_ADDRESSING")
  let ca_file : Text = elim (env (codes "AWS_CA_BUNDLE")) [ none ↦ ca_bundle | some path ↦ path ]
  if same_text ca_file [] || exists ca_file
      then ok (record {
        base = b;
        stopped = false;
        client_config = record {
          endpoint_override = endpoint.0;
          scheme = endpoint.1;
          use_virtual_addressing = use_virtual_addressing;
          region = b.region;
          ca_file = ca_file;
        };
        max_inflight_bytes = inflight_window_bytes b.chunk_bytesize;
        responder = none;
      })
      else err (exception ca_file_not_found)

unfoldable pub async_read_response : S3Client → Response ⊎ Popped Response
async_read_response c = elim c.responder [
  | none ↦ inl (of_code finished_error)
  | some q ↦ inr (SharedQueue.pop q 0)
]

unfoldable pub stop : S3Client → S3Client
stop c = record c {
  stopped = true;
  responder = elim c.responder [ none ↦ none | some q ↦ some (SharedQueue.stop q) ];
}

pub record GetObjectRequest : Type 0 where
  pub bucket : Text
  pub key : Text
  pub range : Text
  pub buffer : ℕ
  pub bytesize : ℕ

unfoldable pub range_text : ObjectRange → Text
range_text r =
    codes "bytes="
    ++ to_string r.offset
    ++ codes "-"
    ++ to_string (sub_size (add_size r.offset r.length) 1)

-- `async_read`: the request that is sent, or the exception of a path that is no URI; the code; and the
-- client. The flag tells whether the client is stopped at the end.
unfoldable pub async_read :
    Bool → Text → ObjectRange → ℕ → S3Client → Result (GetObjectRequest × ResponseCode) × S3Client
unfolding range_text
async_read stopped path range buffer c =
    let q : SharedQueue Response = elim c.responder [
      | none ↦ SharedQueue.create 1 finish_on_drain
      | some q ↦ SharedQueue.increment q 1
    ] in
    let c' = record c { responder = some q } in
    elim (StorageUri.parse path) [
      | none ↦ (err assertion, c')
      | some uri ↦ (
        ok (
          record {
            bucket = uri.bucket;
            key = uri.path;
            range = range_text range;
            buffer = buffer;
            bytesize = range.length;
          },
          if stopped then finished_error else success,
        ),
        c',
      )
    ]

-- The callback of a read: a failed one, or one that has ended with a length, as the bits of a long
-- long.
unfoldable pub complete_read : ℕ → ℕ → Option ℕ → SharedQueue Response → SharedQueue Response
complete_read request_id bytesize outcome q =
    let ret : ResponseCode = elim outcome [
      | none ↦ file_access_error
      | some content_length ↦ if content_length == bytesize then success else file_truncated_error
    ] in
    SharedQueue.push q (record { handle = request_id; ret = ret })

-- What the vendor lists in one call: keys with sizes, and the token of the next page, if there is one.
pub record Page : Type 0 where
  pub contents : List (Text × ℕ)
  pub next : Option Text

unfoldable pub ends_with_slash : Text → Bool
ends_with_slash [] = false
ends_with_slash (c ∷ []) = c == 47
ends_with_slash (c ∷ d ∷ cs) = ends_with_slash (d ∷ cs)

-- The loop over the objects of a page.
unfoldable pub take_objects : Text → List (Text × ℕ) → List (Text × ℕ) → List (Text × ℕ)
unfolding ends_with_slash
take_objects uri_prefix [] results = results
take_objects uri_prefix ((key, size) ∷ objects) results =
    take_objects uri_prefix objects
      (if ends_with_slash key then results else results ++ (uri_prefix ++ key, size) ∷ [])

-- The loop of `list_files`, on fuel: whether it came to its end, its code, and the results. A page is
-- asked for with the token that is set; `none` is a call that fails.
unfoldable pub list_pages :
    ℕ
    → (Option Text → Option Page)
    → Text
    → Option Text
    → List (Text × ℕ)
    → Bool × ResponseCode × List (Text × ℕ)
unfolding take_objects
list_pages zero server uri_prefix token results = (false, success, results)
list_pages (suc fuel) server uri_prefix token results = elim (server token) [
  | none ↦ (true, file_access_error, results)
  | some page ↦
      let results' = take_objects uri_prefix page.contents results in
      elim page.next [
        | none ↦ (true, success, results')
        | some next ↦ list_pages fuel server uri_prefix (some next) results'
      ]
]

-- `list_files`, or the exception of a prefix that is no URI. The vendor's client gets the bucket, the
-- prefix, and whether to stop at a delimiter.
unfoldable pub list_files :
    ℕ
    → (Text → Text → Bool → Option Text → Option Page)
    → Text
    → Bool
    → List (Text × ℕ)
    → Result (Bool × ResponseCode × List (Text × ℕ))
unfolding list_pages
list_files fuel server path is_recursive results = elim (StorageUri.parse path) [
  | none ↦ err assertion
  | some uri ↦ ok (
      list_pages fuel (server uri.bucket uri.path (not is_recursive))
        (uri.scheme ++ codes "://" ++ uri.bucket ++ codes "/") none results)
]
