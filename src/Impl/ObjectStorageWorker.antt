-- ===== src/Impl/ObjectStorageWorker.antt =====
-- cpp/streamer/impl/object_storage_worker: the worker that reads workloads from object storage. The
-- state, the completion of chunks, the chunks of a workload, and the loops stand in modules of their
-- own.
pub mod State
pub mod Complete
pub mod Enqueue
pub mod Drive
pub mod Abort
pub mod Unbuilt
pub mod Locate
pub mod Pump
pub mod Account
pub mod FirstError
