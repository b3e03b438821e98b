-- ===== src/Common.antt =====
-- cpp/common: response codes, responses and the queue that hands them to the consumer.
pub mod ResponseCode
pub mod Result
pub mod SharedQueue
pub mod Response
pub mod StorageUri
pub mod ClientMgr
pub mod Credentials
pub mod BackendApi
pub mod S3Wrapper
pub mod Text
pub mod Decimal
