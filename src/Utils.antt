-- ===== src/Utils.antt =====
-- cpp/utils: the building blocks that know nothing of the streamer.
pub mod CapacityQueue
pub mod Env
pub mod Fd
pub mod FdLimit
pub mod Semver
pub mod ThreadPool
