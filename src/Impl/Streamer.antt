-- ===== src/Impl/Streamer.antt =====
-- cpp/streamer/impl/streamer/streamer.h and streamer.cc: what a submission must satisfy before it is
-- built, the lock on one plugin, and the credentials.
pub mod Lock
pub mod Prepare
pub mod Submit
pub mod Listing
use runai_model_streamer.Prelude.{
  ℕ, ◌≡◌, Bool, true, false, ◌&&◌, Option, none, some, List, [], ◌∷◌, ltb, ◌==◌, if◌then◌else◌,
}
use runai_model_streamer.Common.ResponseCode.{
  ResponseCode, success, invalid_parameter_error, unsupported_backend_mix, credentials_already_set,
}
use runai_model_streamer.Common.Result.{Result, ok, err, Fault, exception, ◌>>=◌, ◌>>◌}
use runai_model_streamer.Common.StorageUri.{parse, is_gcs, is_azure}
use runai_model_streamer.Impl.Request.{ReadRange, FileRanges}
use runai_model_streamer.Impl.Pools.{Plugin, s3, gcs, azure, same_plugin, BackendPools}
use runai_model_streamer.Impl.Pools

-- The inner loop of `verify_requests`; a null pointer is address 0.
unfoldable pub verify_ranges : List ReadRange → Result (Unit {0})
verify_ranges [] = ok tt
verify_ranges (r ∷ rs) =
    let rest = verify_ranges rs in
    if ltb 0 r.size && (r.dst == 0) then err (exception invalid_parameter_error) else rest

unfoldable pub verify_requests : List FileRanges → Result (Unit {0})
unfolding verify_ranges
verify_requests [] = ok tt
verify_requests (f ∷ fs) = verify_ranges f.ranges >> verify_requests fs

-- The plugin of a path; `none` is a path of the file system.
unfoldable pub plugin_of : List ℕ → Option Plugin
unfolding parse
plugin_of path = elim (parse path) [
  | none ↦ none
  | some uri ↦ some (if is_gcs uri then gcs else if is_azure uri then azure else s3)
]

-- Whether the plugin of the submission so far is another one.
abbrev pub differs : Option Plugin → Plugin → Bool
differs none p = false
differs (some q) p = if same_plugin q p then false else true

-- The loop of `lock_object_plugin`: the plugin and `has_filesystem` after it, or `none` for two
-- plugins in one submission.
unfoldable pub classify : List FileRanges → Option Plugin → Bool → Option (Option Plugin × Bool)
unfolding plugin_of
classify [] plugin has_filesystem = some (plugin, has_filesystem)
classify (f ∷ fs) plugin has_filesystem = elim f.ranges [
  | [] ↦ classify fs plugin has_filesystem
  | _ ∷ _ ↦ elim (plugin_of f.path) [
    | none ↦ classify fs plugin true
    | some p ↦ elim (differs plugin p) [ true ↦ none | false ↦ classify fs (some p) has_filesystem ]
  ]
]

module _ {W : Type 0} (can_create : Result (Unit {0})) where
  -- What follows the loop.
  unfoldable pub lock_classified :
      BackendPools W → Option (Option Plugin × Bool) → Result (ResponseCode × BackendPools W)
  unfolding Pools.lock_object_plugin
  lock_classified pools none = ok (unsupported_backend_mix, pools)
  lock_classified pools (some (none, has_filesystem)) = ok (success, pools)
  lock_classified pools (some (some plugin, true)) = ok (unsupported_backend_mix, pools)
  lock_classified pools (some (some plugin, false)) =
      Pools.lock_object_plugin can_create plugin pools

  unfoldable pub lock_object_plugin :
      List FileRanges → BackendPools W → Result (ResponseCode × BackendPools W)
  unfolding classify lock_classified
  lock_object_plugin request pools = lock_classified pools (classify request none false)

-- CredentialsState, with the equality of credentials and the empty ones as parameters.
module _ {C : Type 0} (same : C → C → Bool) (empty : C) where
  unfoldable pub set_credentials : Option C → C → ResponseCode × Option C
  set_credentials none c = (success, some c)
  set_credentials (some d) c =
      if same d c then (success, some d) else (credentials_already_set, some d)

  unfoldable pub get_credentials : Option C → C
  get_credentials none = empty
  get_credentials (some c) = c
