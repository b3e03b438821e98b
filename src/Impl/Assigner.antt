-- ===== src/Impl/Assigner.antt =====
-- cpp/streamer/impl/assigner: the division of a request between the workers.
pub mod Transfer
pub mod Coalesce
pub mod Assign
pub mod Make
