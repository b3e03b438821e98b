-- ===== src/Common/S3Wrapper.antt =====
-- cpp/common/s3_wrapper: the client of an object storage, through a plugin that is loaded at run time.
-- What a library offers is an argument; a loaded library is named by its functions.
pub mod Handle
pub mod Opening
use runai_model_streamer.Prelude.{
  ℕ, suc, ◌-◌, ◌+◌, Bool, true, false, Option, none, some, List, [], ◌∷◌, ◌++◌, leb, ◌==◌,
  if◌then◌else◌, size_max, map, set, drop, length, take, replicate,
}
use runai_model_streamer.Common.Text.{Text, codes}
use runai_model_streamer.Common.Decimal.{strtoull}
use runai_model_streamer.Common.ResponseCode.{
  ResponseCode, success, s3_not_supported, gcs_not_supported, azure_blob_not_supported,
  obj_plugin_load_error, is_success,
}
use runai_model_streamer.Common.Result.{Result, ok, err, exception, assertion, ◌>>=◌, ◌>>◌, assert}
use runai_model_streamer.Common.StorageUri.{StorageUri, is_gcs, is_azure}
use runai_model_streamer.Common.Credentials.{Credentials}
use runai_model_streamer.Common.Credentials
use runai_model_streamer.Common.BackendApi.{
  Response, ObjectClientConfig, ObjectRange, ObjectShutdownPolicy, on_process_exit,
  on_streamer_shutdown,
}
use runai_model_streamer.Utils.Env.{Environment, getenv_bool_or}
use runai_model_streamer.Common.S3Wrapper.Opening.{
  ObjectPluginType, gcs, s3, azure, Params, create_params, no_params, with_value, to_config,
  so_name, get_libstreamers_plugin_type,
}

-- What a plugin offers: its symbols, and its functions as far as the wrapper uses their results. A
-- handle of the backend and of a client are arguments; `get_backend_config` gets the key, the buffer
-- and its length, and gives the code and both after the call.
pub record Library (H C : Type 0) : Type 0 where
  pub exports : Text → Bool
  pub open_backend : ResponseCode × H
  pub create_client : H → ObjectClientConfig → ResponseCode × C
  pub request_read : C → Text → ObjectRange → ℕ → ℕ → ResponseCode
  pub wait_for_completions : C → ℕ → ResponseCode × List Response
  pub shutdown_policy : Option ObjectShutdownPolicy
  pub get_backend_config : H → Text → List ℕ → ℕ → ResponseCode × List ℕ × ℕ

pub record BackendHandle (H C : Type 0) : Type 0 where
  pub library : Library H C
  pub handle : H

abbrev required : List Text
required =
    codes "obj_open_backend"
    ∷ codes "obj_close_backend"
    ∷ codes "obj_create_client"
    ∷ codes "obj_remove_client"
    ∷ codes "obj_remove_all_clients"
    ∷ codes "obj_cancel_all_reads"
    ∷ codes "obj_request_read"
    ∷ codes "obj_wait_for_completions"
    ∷ codes "obj_list_files"
    ∷ codes "obj_free_file_list"
    ∷ codes "obj_get_backend_shutdown_policy"
    ∷ codes "obj_get_backend_config"
    ∷ []

module _ {H C : Type 0} where
  -- A library that is not loaded: its storage is not supported.
  abbrev pub loaded_or : ObjectPluginType → Option (Library H C) → Result (Library H C)
  loaded_or plugin_type (some library) = ok library
  loaded_or gcs none = err (exception gcs_not_supported)
  loaded_or s3 none = err (exception s3_not_supported)
  loaded_or azure none = err (exception azure_blob_not_supported)

  unfoldable pub open_object_storage_impl :
      (Text → Option (Library H C)) → Params → Result (Library H C)
  unfolding get_libstreamers_plugin_type
  open_object_storage_impl dlopen p =
      let plugin_type = get_libstreamers_plugin_type p.uri in
      loaded_or plugin_type (dlopen (so_name plugin_type))

  -- `require` for each of the symbols, in order.
  unfoldable pub require_all : Library H C → List Text → Result (Unit {0})
  require_all library [] = ok tt
  require_all library (name ∷ names) =
      let rest = require_all library names in
      if library.exports name then rest else err (exception obj_plugin_load_error)

  unfoldable pub resolve_api : Library H C → Result (Unit {0})
  unfolding require_all
  resolve_api library = require_all library required

  abbrev pub opened : Library H C → ResponseCode × H → Result (BackendHandle H C)
  opened library (ret, handle) =
      if is_success ret
      then ok (record { library = library; handle = handle })
      else err (exception ret)

  -- The constructor of the handle.
  unfoldable pub create_handle : (Text → Option (Library H C)) → Params → Result (BackendHandle H C)
  unfolding open_object_storage_impl resolve_api
  create_handle dlopen p = do
    library ← open_object_storage_impl dlopen p
    resolve_api library
    opened library library.open_backend

-- The static pointer of `manage_backend_handle`: `unset` before its first construction has
-- succeeded, and `closed` once it was reset.
pub data Static (H C : Type 0) : Type 0 where
  unset closed : Static H C
  made : BackendHandle H C → Static H C

pub data ManageBackendHandleOp : Type 0 where
  create_op destroy_op : ManageBackendHandleOp

module _ {H C : Type 0} (dlopen : Text → Option (Library H C)) where
  abbrev pub handle_of : Static H C → Option (BackendHandle H C)
  handle_of unset = none
  handle_of closed = none
  handle_of (made h) = some h

  abbrev pub made_or : Static H C → Result (BackendHandle H C) → Result (Unit {0}) × Static H C
  made_or s (err e) = (err e, s)
  made_or s (ok h) = (ok tt, made h)

  -- The construction of the static variable, at the first call that succeeds in it, whatever the
  -- operation; and then another one if it was reset and the operation is CREATE.
  unfoldable pub ensure :
      ManageBackendHandleOp → Params → Static H C → Result (Unit {0}) × Static H C
  unfolding create_handle
  ensure op p unset = made_or unset (create_handle dlopen p)
  ensure create_op p closed = made_or closed (create_handle dlopen p)
  ensure destroy_op p closed = (ok tt, closed)
  ensure op p (made h) = (ok tt, made h)

  abbrev pub held_under : Option ObjectShutdownPolicy → BackendHandle H C → Static H C
  held_under (some on_streamer_shutdown) h = closed
  held_under (some on_process_exit) h = made h
  held_under none h = made h

  -- The part for DESTROY.
  unfoldable pub destroy : ManageBackendHandleOp → Static H C → Static H C
  destroy create_op s = s
  destroy destroy_op unset = unset
  destroy destroy_op closed = closed
  destroy destroy_op (made h) = held_under h.library.shutdown_policy h

  abbrev pub settled :
      ManageBackendHandleOp
      → Result (Unit {0}) × Static H C
      → Result (Option (BackendHandle H C)) × Static H C
  settled op (err e, s) = (err e, s)
  settled op (ok _, s) = (ok (handle_of (destroy op s)), destroy op s)

  unfoldable pub manage_backend_handle :
      ManageBackendHandleOp → Params → Static H C → Result (Option (BackendHandle H C)) × Static H C
  unfolding ensure destroy
  manage_backend_handle op p s = settled op (ensure op p s)

  -- `shutdown`: whether the clients of the plugin are removed, and the pointer after it. Errors are
  -- caught.
  unfoldable pub shutdown : Static H C → Bool × Static H C
  unfolding manage_backend_handle
  shutdown s =
      let (r, s') = manage_backend_handle create_op no_params s in
      elim r [
        | err _ ↦ (false, s')
        | ok _ ↦ (true, (manage_backend_handle destroy_op no_params s').1)
      ]

  -- `stop`: whether the reads of the plugin are cancelled.
  unfoldable pub stop : Static H C → Bool × Static H C
  unfolding manage_backend_handle
  stop s =
      let (r, s') = manage_backend_handle create_op no_params s in
      elim r [ err _ ↦ (false, s') | ok o ↦ (elim o [ none ↦ false | some _ ↦ true ], s') ]

-- The text of a URI is what its parts were read from.
abbrev pub uri_text : StorageUri → Text
uri_text u = u.scheme ++ (codes "://" ++ (u.bucket ++ (codes "/" ++ u.path)))

pub record S3ClientWrapper (H C : Type 0) : Type 0 where
  pub backend : BackendHandle H C
  pub client : C

module _ {H C : Type 0} where
  unfoldable pub create_client : BackendHandle H C → Params → Result C
  unfolding to_config
  create_client h p =
      let (ret, client) = h.library.create_client h.handle (to_config p) in
      if is_success ret then ok client else err (exception ret)

  -- The constructor; a null handle would be dereferenced in `create_client`.
  unfoldable pub create :
      (Text → Option (Library H C))
      → Params
      → Static H C
      → Result (S3ClientWrapper H C) × Static H C
  unfolding manage_backend_handle create_client
  create dlopen p s =
      let (r, s') = manage_backend_handle dlopen create_op p s in
      (
        do
          o ← r
          h ← elim o [ none ↦ err assertion | some h ↦ ok h ]
          client ← create_client h p
          ok (record { backend = h; client = client }),
        s',
      )

  -- A null URI would be dereferenced.
  unfoldable pub async_read :
      S3ClientWrapper H C
      → Params
      → (request_id : ℕ) → ObjectRange
      → (buffer : ℕ) → Result ResponseCode
  async_read w p request_id range buffer = elim p.uri [
    | none ↦ err assertion
    | some uri ↦ ok (w.backend.library.request_read w.client (uri_text uri) range buffer request_id)
  ]

  -- The code, and the events if it is Success. Nothing is asked for no event.
  unfoldable pub async_read_response :
      S3ClientWrapper H C → ℕ → Result (ResponseCode × List Response)
  async_read_response w max_events_to_retrieve =
      let (ret, events) = w.backend.library.wait_for_completions w.client max_events_to_retrieve in
      if max_events_to_retrieve == 0
      then ok (success, [])
      else if is_success ret
      then (do assert (leb (length events) max_events_to_retrieve); ok (ret, events))
      else ok (ret, [])

  -- The window that the plugin advertises; a plugin that has none gives another code than Success.
  unfoldable pub max_inflight_bytes : S3ClientWrapper H C → ℕ
  max_inflight_bytes w =
      let (ret, buf, len) =
        w.backend.library.get_backend_config w.backend.handle (codes "max_inflight_bytes")
          (replicate 32 0) 32 in
      if is_success ret then strtoull (set buf 31 0) else size_max
