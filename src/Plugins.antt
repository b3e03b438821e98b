-- ===== src/Plugins.antt =====
-- The plugins for object storage: the repository's own code around the clients of the vendors.
pub mod Gcs
pub mod ListFiles
pub mod S3
