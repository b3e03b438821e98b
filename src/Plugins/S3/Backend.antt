-- ===== src/Plugins/S3/Backend.antt =====
-- cpp/s3/s3.cc: the functions that the plugin for S3 exports. A client is named by its address in the
-- client manager; a null pointer is `none`.
pub mod Window
use runai_model_streamer.Prelude.{
  ℕ, suc, ◌+◌, ◌%◌, ◌^◌, Bool, true, false, Option, none, some, List, [], ◌∷◌, ◌++◌, ltb, leb, ◌==◌,
  if◌then◌else◌, size_max, drop, length, ◌⊎◌, inl, inr, ◌||◌,
}
use runai_model_streamer.Prelude.Assoc.{lookup, assign, is_some}
use runai_model_streamer.Common.Text.{Text, codes}
use runai_model_streamer.Common.Decimal.{to_string}
use runai_model_streamer.Common.Credentials.{same_text}
use runai_model_streamer.Common.ResponseCode.{
  ResponseCode, success, unknown_error, glibc_prerequisite, s3_not_supported,
}
use runai_model_streamer.Common.Result.{Result, ok, err}
use runai_model_streamer.Common.ClientMgr.{ClientMgr, reuse, enter}
use runai_model_streamer.Common.ClientMgr
use runai_model_streamer.Common.SharedQueue.{Popped}
use runai_model_streamer.Common.BackendApi.{
  Response, ObjectRange, ObjectClientConfig, ObjectShutdownPolicy, on_process_exit,
}
use runai_model_streamer.Utils.Env.{Environment, try_getenv_unsigned_long}
use runai_model_streamer.Utils.Semver.{Semver, greater}
use runai_model_streamer.Plugins.ListFiles.{ObjectFileEntry, impl_obj_list_files}
use runai_model_streamer.Plugins.S3.{
  S3Client, GetObjectRequest, async_read, async_read_response, Page, list_files,
}
use runai_model_streamer.Plugins.S3.Base.{verify_credentials}
use runai_model_streamer.Plugins.S3

-- `S3ClientMgr` and `g_max_inflight_bytes`.
pub record Backend : Type 0 where
  pub mgr : ClientMgr S3Client
  pub g_max_inflight_bytes : ℕ

unfoldable pub start : Backend
start = record { mgr = ClientMgr.create; g_max_inflight_bytes = size_max }

-- The versions are the least one and that of the system. A chunk size that is no number throws.
unfoldable pub obj_open_backend : Environment → (min_glibc glibc : Semver) → ResponseCode
obj_open_backend env min_glibc glibc =
    if greater min_glibc glibc
    then glibc_prerequisite
    else elim (try_getenv_unsigned_long env (codes "RUNAI_STREAMER_CHUNK_BYTESIZE")) [
      | err _ ↦ s3_not_supported
      | ok _ ↦ success
    ]

abbrev pub obj_get_backend_shutdown_policy : ObjectShutdownPolicy
obj_get_backend_shutdown_policy = on_process_exit

-- The bytes of a text written at the start of a buffer.
abbrev pub write_over : List ℕ → List ℕ → List ℕ
write_over bytes buffer = bytes ++ drop (length bytes) buffer

-- The value as text with a null byte, if it fits: the code, the buffer, and its length after the call.
unfoldable pub write_value : Text → List ℕ → ℕ → ResponseCode × List ℕ × ℕ
write_value tmp buffer len =
    let needed = (length tmp % 2 ^ 32 + 1) % 2 ^ 32 in
    if leb 32 (length tmp)
    then (unknown_error, buffer, len)
    else if ltb len needed
    then (unknown_error, buffer, needed)
    else (success, write_over (tmp ++ 0 ∷ []) buffer, length tmp)

unfoldable pub obj_get_backend_config : Backend → Text → List ℕ → ℕ → ResponseCode × List ℕ × ℕ
unfolding write_value
obj_get_backend_config b key buffer len =
    if same_text key (codes "max_inflight_bytes")
    then write_value (to_string b.g_max_inflight_bytes) buffer len
    else (unknown_error, buffer, len)

-- The same for pointers that may be null.
unfoldable pub obj_get_backend_config_at :
    Backend → Option Text → Option (List ℕ) → Option ℕ → ResponseCode × Option (List ℕ) × Option ℕ
unfolding obj_get_backend_config
obj_get_backend_config_at b (some key) (some buffer) (some len) =
    let (ret, buffer', len') = obj_get_backend_config b key buffer len in
    (ret, some buffer', some len')
obj_get_backend_config_at b key buffer len = (unknown_error, buffer, len)

abbrev pub window_of : ClientMgr S3Client → ℕ → ℕ → ℕ
window_of mgr p window = elim (lookup p mgr.clients) [
  | none ↦ window
  | some c ↦ c.max_inflight_bytes
]

-- What `pop` has found under its lock; a new client is entered then. An error of the constructor
-- leaves the clients that are left.
unfoldable pub given :
    ℕ
    → Result S3Client
    → Backend
    → Result (Option ℕ × ClientMgr S3Client)
    → ResponseCode × Option ℕ × Backend
given address built b (err _) = (unknown_error, none, b)
given address built b (ok (some p, mgr)) = (
  success,
  some p,
  record { mgr = mgr; g_max_inflight_bytes = window_of mgr p b.g_max_inflight_bytes },
)
given address (err _) b (ok (none, mgr)) = (unknown_error, none, record b { mgr = mgr })
given address (ok c) b (ok (none, mgr)) = (
  success,
  some address,
  record { mgr = enter address c mgr; g_max_inflight_bytes = c.max_inflight_bytes },
)

-- A client that is used again, or else the one that the constructor makes at a free address.
unfoldable pub obj_create_client :
    ℕ → Result S3Client → ObjectClientConfig → Backend → ResponseCode × Option ℕ × Backend
unfolding given
obj_create_client address built config b =
    given address built b (reuse (λ c. verify_credentials c.base config) b.mgr.unused b.mgr.clients)

unfoldable pub obj_remove_client : Option ℕ → Backend → ResponseCode × Backend
obj_remove_client none b = (success, b)
obj_remove_client (some p) b = (success, record b { mgr = ClientMgr.push p b.mgr })

unfoldable pub obj_remove_all_clients : Backend → ResponseCode × Backend
obj_remove_all_clients b = (success, record b { mgr = ClientMgr.clear b.mgr })

unfoldable pub obj_cancel_all_reads : Backend → ResponseCode × Backend
obj_cancel_all_reads b = (success, record b { mgr = ClientMgr.stop S3.stop b.mgr })

abbrev pub requested :
    Result (GetObjectRequest × ResponseCode) → ResponseCode × Option GetObjectRequest
requested (err _) = (unknown_error, none)
requested (ok (request, ret)) = (ret, some request)

-- The code, the request that is sent, and the plugin. A pointer to no client is not defined.
unfoldable pub obj_request_read :
    Bool
    → Option ℕ
    → Text
    → ObjectRange
    → ℕ
    → Backend
    → (ResponseCode × Option GetObjectRequest) × Backend
obj_request_read stopped none path range buffer b = ((unknown_error, none), b)
obj_request_read stopped (some p) path range buffer b = elim (lookup p b.mgr.clients) [
  | none ↦ ((unknown_error, none), b)
  | some c ↦
      let (r, c') = async_read stopped path range buffer c in
      (requested r, record b { mgr = record b.mgr { clients = assign p c' b.mgr.clients } })
]

-- What the wait gives: an error, or the one event that is awaited.
unfoldable pub obj_wait_for_completions :
    Option ℕ → Bool → ℕ → Backend → ResponseCode ⊎ (Response ⊎ Popped Response)
obj_wait_for_completions none has_buffers max_events b = inl unknown_error
obj_wait_for_completions (some p) has_buffers max_events b =
    if max_events == 0
    then inl unknown_error
    else if has_buffers
    then elim (lookup p b.mgr.clients) [
      | none ↦ inl unknown_error
      | some c ↦ inr (async_read_response c)
    ]
    else inl unknown_error

-- The listing of the client, once its loop has come to its end.
abbrev pub ended :
    Result (Bool × ResponseCode × List (Text × ℕ))
    → Option (Result (ResponseCode × List (Text × ℕ)))
ended (err e) = some (err e)
ended (ok (false, ret, results)) = none
ended (ok (true, ret, results)) = some (ok (ret, results))

-- `obj_list_files`; the flag tells whether no pointer is null. `none` is a loop that has not ended.
unfoldable pub obj_list_files :
    ℕ
    → (Text → Text → Bool → Option Text → Option Page)
    → Bool
    → Text
    → Bool
    → Option (ResponseCode × Option (ℕ × Option (List ObjectFileEntry × Text)))
obj_list_files fuel server not_null path is_recursive =
    elim (ended (list_files fuel server path is_recursive [])) [
      | none ↦ none
      | some listing ↦ some (impl_obj_list_files not_null listing)
    ]
