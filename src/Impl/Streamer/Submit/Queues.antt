-- ===== src/Impl/Streamer/Submit/Queues.antt =====
-- cpp/streamer/impl/streamer/streamer.cc: the lock on a plugin and the workloads of
-- the pools.
use runai_model_streamer.Prelude.{◌≡◌, refl, Bool, true, false, Option, none, some, List, [], arith}
use runai_model_streamer.Common.ResponseCode.{ResponseCode}
use runai_model_streamer.Common.Result.{Result, ok, err}
use runai_model_streamer.Common.Response.{response_is_response}
use runai_model_streamer.Impl.Pools.{BackendPools, Plugin}
use runai_model_streamer.Impl.Pools
use runai_model_streamer.Impl.Streamer.{lock_classified}

abbrev pub queued : {W : Type 0} → Option (List W) → List W
queued none = []
queued (some ws) = ws

-- There is a pool for object storage only after the lock on a plugin.
abbrev pub IsLocked : {W : Type 0} → BackendPools W → Type 0
IsLocked p = p.plugin ≡ none → p.object_storage_pool ≡ none

-- The same workloads wait in the pools.
abbrev pub SameQueues : {W : Type 0} → BackendPools W → BackendPools W → Type 0
SameQueues p q =
    (queued q.filesystem_pool ≡ queued p.filesystem_pool)
    × (queued q.object_storage_pool ≡ queued p.object_storage_pool)

lock_slowly-queued :
    {W : Type 0} (can_create : Result (Unit {0})) (plugin : Plugin) (p q : BackendPools W)
    (ret : ResponseCode) (locked : Option Plugin)
    → p.plugin ≡ locked
    → IsLocked p
    → Pools.lock_slowly can_create plugin p ≡ ok (ret, q)
    → SameQueues p q
unfolding Pools.lock_slowly
lock_slowly-queued can_create plugin p q ret (some l) f i e = ground arith
lock_slowly-queued (ok u) plugin p q ret none f i e = ground (arith, i f)
lock_slowly-queued (err u) plugin p q ret none f i e = absurd (ground arith)

lock_object_plugin-queued :
    {W : Type 0} (can_create : Result (Unit {0})) (plugin : Plugin) (p q : BackendPools W)
    (ret : ResponseCode) (ready : Option Plugin)
    → p.ready_plugin ≡ ready
    → IsLocked p
    → Pools.lock_object_plugin can_create plugin p ≡ ok (ret, q)
    → SameQueues p q
unfolding Pools.lock_object_plugin
lock_object_plugin-queued can_create plugin p q ret (some r) f i e = ground arith
lock_object_plugin-queued can_create plugin p q ret none f i e =
    lock_slowly-queued can_create plugin p q ret p.plugin refl i (ground arith)

pub lock_classified-queued :
    {W : Type 0} (can_create : Result (Unit {0})) (p q : BackendPools W) (ret : ResponseCode)
    (c : Option (Option Plugin × Bool))
    → IsLocked p
    → lock_classified can_create p c ≡ ok (ret, q)
    → SameQueues p q
unfolding lock_classified
lock_classified-queued can_create p q ret none i e = ground arith
lock_classified-queued can_create p q ret (some (none, b)) i e = ground arith
lock_classified-queued can_create p q ret (some (some plugin, true)) i e = ground arith
lock_classified-queued can_create p q ret (some (some plugin, false)) i e =
    lock_object_plugin-queued can_create plugin p q ret p.ready_plugin refl i e
