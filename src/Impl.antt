-- ===== src/Impl.antt =====
-- cpp/streamer/impl: from a submission to the reads of the workers and the responses.
pub mod Config
pub mod Request
pub mod Task
pub mod File
pub mod Batch
pub mod Assigner
pub mod Batches
pub mod Submissions
pub mod ObjectStorageWorker
pub mod Pools
pub mod S3Reader
pub mod Workload
pub mod Streamer
