-- ===== src/Tests/Plugins.antt =====
-- The plugins and the wrapper that loads them, at concrete inputs.
use runai_model_streamer.Prelude.{
  ℕ, ◌<◌, ◌^◌, ◌++◌, ◌≡◌, ◌↔◌, refl, Bool, true, false, Option, none, some, List, [], ◌∷◌, arith,
  length, All, add_size,
}
use runai_model_streamer.Common.Text.{Text, codes}
use runai_model_streamer.Prelude.Assoc.{lookup}
use runai_model_streamer.Common.ClientMgr.{reuse, enter}
use runai_model_streamer.Common.ClientMgr
use runai_model_streamer.Common.ResponseCode.{ResponseCode, success, file_access_error}
use runai_model_streamer.Common.Result.{ok}
use runai_model_streamer.Common.StorageUri.{StorageUri}
use runai_model_streamer.Common.StorageUri
use runai_model_streamer.Common.BackendApi.{
  ObjectRange, ObjectClientConfig, response_is_response, on_process_exit, on_streamer_shutdown,
}
use runai_model_streamer.Common.S3Wrapper.{
  Library, S3ClientWrapper, unset, destroy_op, handle_of, manage_backend_handle, max_inflight_bytes,
}
use runai_model_streamer.Common.S3Wrapper.Opening.{no_params}
use runai_model_streamer.Common.S3Wrapper.Handle.{
  Lifecycle, was_open, manage_backend_handle-Lifecycle,
}
use runai_model_streamer.Plugins.Gcs.{GcsClient, expect_one, Started, complete_parts, async_read}
use runai_model_streamer.Plugins.Gcs.OneResponse.Parts.{Tiles, first_failure}
use runai_model_streamer.Plugins.Gcs.OneResponse.{HasGot, async_read-OneResponse}
use runai_model_streamer.Plugins.Gcs.Stream.Reads.{read_stream, write_stream_to_buffer}
use runai_model_streamer.Plugins.Gcs.Stream.{IsWritten, write_stream_to_buffer-IsWritten}
use runai_model_streamer.Plugins.Gcs
use runai_model_streamer.Plugins.ListFiles.{ObjectFileEntry, NoNull}
use runai_model_streamer.Plugins.S3.{S3Client, Page, ends_with_slash}
use runai_model_streamer.Plugins.S3.Base.{create_base, verify_credentials}
use runai_model_streamer.Plugins.S3.Verify.{SameButChunk, verify_credentials-create_base}
use runai_model_streamer.Plugins.S3.Pages.{Serves, last, more, Lists, objects, obj_list_files-Lists}
use runai_model_streamer.Plugins.S3.Backend.{
  Backend, start, obj_create_client, obj_get_backend_config, obj_list_files,
}
use runai_model_streamer.Plugins.S3.Backend.Window.{max_inflight_bytes-obj_create_client}

abbrev gs_uri : StorageUri
gs_uri = record { scheme = codes "gs"; bucket = codes "b"; path = codes "k" }

gs_parsed : StorageUri.parse (codes "gs://b/k") ≡ some gs_uri
unfolding StorageUri.parse
gs_parsed = refl

abbrev gcs_client : GcsClient
gcs_client = record {
  stopped = false;
  responder = none;
  chunk_bytesize = 10;
  max_inflight_bytes = 20;
}

abbrev some_range : ObjectRange
some_range = record { offset = 100; length = 25 }

abbrev two_codes : List ResponseCode
two_codes = success ∷ file_access_error ∷ []

two_parts : length two_codes ≡ Gcs.part_count 10 25
unfolding Gcs.part_count
two_parts = refl

few_parts : Gcs.part_count 10 25 < 2 ^ 32
unfolding Gcs.part_count
few_parts = omega arith

async_read-OneResponse_example :
    (s : Started) × (async_read (λ _. false) false (codes "gs://b/k") some_range 500 gcs_client
      ≡ (ok (s, success), record gcs_client { responder = some (expect_one none) }))
    × Tiles 100 500 25 s.parts
    × (length s.parts ≡ 2)
    × HasGot none
        (record { handle = 7; ret = first_failure two_codes })
        (complete_parts 7 two_codes s.pending (expect_one none)).1
async_read-OneResponse_example =
    async_read-OneResponse (codes "gs://b/k") some_range 500 7 gcs_client two_codes gs_parsed
      (omega arith) few_parts (omega arith) (omega arith) tt two_parts

write_stream_to_buffer-IsWritten_example :
    IsWritten
      (1 ∷ 2 ∷ 3 ∷ [])
      false
      2
      (write_stream_to_buffer (1 ∷ 2 ∷ 3 ∷ []) false 2 (0 ∷ 0 ∷ []))
write_stream_to_buffer-IsWritten_example =
    write_stream_to_buffer-IsWritten (1 ∷ 2 ∷ 3 ∷ []) false 2 (0 ∷ 0 ∷ []) (omega arith)
      (omega arith) refl

-- The stream holds a byte more than is asked for, and is taken for a success.
overlong_stream :
    write_stream_to_buffer (1 ∷ 2 ∷ 3 ∷ []) false 2 (0 ∷ 0 ∷ []) ≡ (success, 3 ∷ 2 ∷ [])
unfolding write_stream_to_buffer read_stream add_size
overlong_stream = refl

-- A library that is closed on shutdown; its backend is 5 and its client 6.
abbrev toy_library : Library ℕ ℕ
toy_library = record {
  exports = λ _. true;
  open_backend = (success, 5);
  create_client = λ _ _. (success, 6);
  request_read = λ _ _ _ _ _. success;
  wait_for_completions = λ _ _. (success, []);
  shutdown_policy = some on_streamer_shutdown;
  get_backend_config = λ _ _ buffer len. (file_access_error, buffer, len);
}

abbrev toy_dlopen : Text → Option (Library ℕ ℕ)
toy_dlopen name = some toy_library

manage_backend_handle-Lifecycle_example :
    let (result, s') = manage_backend_handle toy_dlopen destroy_op no_params unset in
    Lifecycle toy_dlopen destroy_op no_params none false result
      (handle_of toy_dlopen s')
      (was_open toy_dlopen s')
manage_backend_handle-Lifecycle_example =
    manage_backend_handle-Lifecycle toy_dlopen destroy_op no_params unset

abbrev a_config : ObjectClientConfig
a_config = record {
  endpoint_url = none;
  default_storage_chunk_size = 8;
  initial_params = (codes "region", some (codes "x")) ∷ [];
}

abbrev b_config : ObjectClientConfig
b_config = record {
  endpoint_url = none;
  default_storage_chunk_size = 9;
  initial_params = (codes "other", none) ∷ (codes "region", some (codes "x")) ∷ [];
}

verify_credentials-create_base_example :
    (verify_credentials (create_base a_config) b_config ≡ true)
    ↔ SameButChunk (create_base a_config) (create_base b_config)
verify_credentials-create_base_example = verify_credentials-create_base a_config b_config

abbrev a_client : S3Client
a_client = record {
  base = create_base a_config;
  stopped = false;
  client_config = record {
    endpoint_override = none;
    scheme = none;
    use_virtual_addressing = none;
    region = some (codes "x");
    ca_file = [];
  };
  max_inflight_bytes = 12_345;
  responder = none;
}

abbrev one_client : Backend
one_client = record {
  mgr = record { unused = []; clients = (3, a_client) ∷ [] };
  g_max_inflight_bytes = 12_345;
}

one_created : obj_create_client 3 (ok a_client) a_config start ≡ (success, some 3, one_client)
unfolding obj_create_client start reuse ClientMgr.create enter
one_created = refl

abbrev s3_wrapper : S3ClientWrapper ℕ ℕ
s3_wrapper = record {
  backend = record {
    library = record toy_library {
      shutdown_policy = some on_process_exit;
      get_backend_config = λ _ key buffer len. obj_get_backend_config one_client key buffer len;
    };
    handle = 5;
  };
  client = 6;
}

max_inflight_bytes-obj_create_client_example : max_inflight_bytes s3_wrapper ≡ 12_345
unfolding lookup
max_inflight_bytes-obj_create_client_example =
    max_inflight_bytes-obj_create_client s3_wrapper 3 3 (ok a_client) a_config start one_client
      a_client one_created refl (omega arith) (λ key buffer len. refl)

abbrev s3_uri : StorageUri
s3_uri = record { scheme = codes "s3"; bucket = codes "b"; path = codes "m/" }

s3_parsed : StorageUri.parse (codes "s3://b/m/") ≡ some s3_uri
unfolding StorageUri.parse
s3_parsed = refl

abbrev first_page : List (Text × ℕ)
first_page = (codes "m/", 0) ∷ (codes "m/a", 4) ∷ []

abbrev second_page : List (Text × ℕ)
second_page = (codes "m/b", 5) ∷ []

-- The first page leads to the second by a token.
abbrev server : Text → Text → Bool → Option Text → Option Page
server bucket prefix delimited none =
    some (record { contents = first_page; next = some (codes "t") })
server bucket prefix delimited (some token) = some (record { contents = second_page; next = none })

two_pages :
    Serves (server (codes "b") (codes "m/") false) none (first_page ∷ second_page ∷ []) success
two_pages = more refl (last refl)

abbrev found_objects : List (Text × ℕ)
found_objects = objects (codes "s3://b/") (first_page ++ second_page)

found_strings : All (λ r. NoNull r.0) found_objects
unfolding ends_with_slash
found_strings = omega arith

found_few : length found_objects < 2 ^ 32
unfolding ends_with_slash
found_few = omega arith

obj_list_files-Lists_example :
    (out : ResponseCode × Option (ℕ × Option (List ObjectFileEntry × Text))) × (obj_list_files 3
        server true
        (codes "s3://b/m/")
        true
      ≡ some out)
    × Lists success found_objects out
obj_list_files-Lists_example =
    obj_list_files-Lists 3 server (codes "s3://b/m/") true (first_page ∷ second_page ∷ []) success
      s3_parsed two_pages (omega arith) found_strings found_few
