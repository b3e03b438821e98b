-- ===== src/Impl/Pools.antt =====
-- cpp/streamer/impl/pools/backend_pools.h and backend_pools.cc: the pool of each kind of storage, made
-- on first use, and the lock on one plugin. A pool is the list of the workloads pushed to it; that a
-- pool cannot be made is the argument `can_create`.
use runai_model_streamer.Prelude.{
  ℕ, ◌+◌, Bool, true, false, Option, none, some, List, [], ◌∷◌, ◌++◌, if◌then◌else◌,
}
use runai_model_streamer.Common.ResponseCode.{ResponseCode, success, unsupported_backend_mix}
use runai_model_streamer.Common.Result.{Result, ok, err, assertion}

pub data Kind : Type 0 where
  file_system : Kind
  object_storage : Kind

pub data Plugin : Type 0 where
  s3 : Plugin
  gcs : Plugin
  azure : Plugin

abbrev pub same_plugin : Plugin → Plugin → Bool
same_plugin s3 s3 = true
same_plugin gcs gcs = true
same_plugin azure azure = true
same_plugin _ _ = false

abbrev pub compare : Plugin → Plugin → ResponseCode
compare locked plugin = if same_plugin locked plugin then success else unsupported_backend_mix

-- `ready_plugin` is `none` for -1. `none` for a pool is a null pointer.
pub record BackendPools (W : Type 0) : Type 0 where
  pub filesystem_pool : Option (List W)
  pub object_storage_pool : Option (List W)
  pub plugin : Option Plugin
  pub ready_plugin : Option Plugin

module _ {W : Type 0} where
  abbrev pub create : BackendPools W
  create = record {
    filesystem_pool = none;
    object_storage_pool = none;
    plugin = none;
    ready_plugin = none;
  }

  abbrev pub pushed : Option (List W) → W → List W
  pushed none w = w ∷ []
  pushed (some ws) w = ws ++ (w ∷ [])

  unfoldable pub push : Kind → W → BackendPools W → Result (BackendPools W)
  push object_storage w p = elim p.object_storage_pool [
    | none ↦ err assertion
    | some ws ↦ ok (record p { object_storage_pool = some (ws ++ (w ∷ [])) })
  ]
  push file_system w p = ok (record p { filesystem_pool = some (pushed p.filesystem_pool w) })

  -- Under the mutex.
  unfoldable pub lock_slowly :
      Result (Unit {0}) → Plugin → BackendPools W → Result (ResponseCode × BackendPools W)
  lock_slowly can_create plugin p = elim p.plugin [
    | some locked ↦ ok (compare locked plugin, p)
    | none ↦ elim can_create [
      | err e ↦ err e
      | ok _ ↦ ok (
        success,
        record p {
          object_storage_pool = some [];
          plugin = some plugin;
          ready_plugin = some plugin;
        },
      )
    ]
  ]

  unfoldable pub lock_object_plugin :
      Result (Unit {0}) → Plugin → BackendPools W → Result (ResponseCode × BackendPools W)
  unfolding lock_slowly
  lock_object_plugin can_create plugin p = elim p.ready_plugin [
    | some ready ↦ ok (compare ready plugin, p)
    | none ↦ lock_slowly can_create plugin p
  ]

  abbrev pub counted : Option (List W) → ℕ
  counted none = 0
  counted (some ws) = 1

  abbrev pub pools_created : BackendPools W → ℕ
  pools_created p = counted p.filesystem_pool + counted p.object_storage_pool
