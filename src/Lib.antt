-- ===== src/Lib.antt =====
-- The Run:ai model streamer reads tensors from files or object storage into buffers of the caller,
-- with many workers, and reports each range that has arrived. This library models the core of it, in
-- cpp/.
--
-- A submission is a list of files with ranges. The C interface (cpp/streamer/streamer.cc: Api, with
-- Api/Marshal and Api/Owes) makes it from flat arrays. The streamer (cpp/streamer/impl/streamer)
-- checks it and locks it to one kind of storage (Impl/Streamer and Streamer/Lock; URIs in
-- cpp/common/storage_uri: Common/StorageUri; pools in cpp/streamer/impl/pools: Impl/Pools), gives
-- it an id and a count of the responses that are left (cpp/streamer/impl/submissions:
-- Impl/Submissions, and Fresh and Consume under it), makes its workloads (Streamer/Prepare),
-- commits it and dispatches them (Streamer/Submit, with Queues, Endings and Commits under it).
--
-- The assigner (cpp/streamer/impl/assigner: Impl/Assigner, with its constructor in Assigner/Make)
-- joins ranges that are adjacent into transfers (Assigner/Coalesce, with Place and Expand under
-- it) and divides the transfers
-- between the workers (Assigner/Assign). The part of one worker in one transfer is a batch of tasks
-- (cpp/streamer/impl/batch: Impl/Batch, and Batch/Read for the synchronous read through
-- cpp/streamer/impl/file: Impl/File); cpp/streamer/impl/batches makes the batches (Impl/Batches,
-- with Split for the parts of a range and Count for the tasks of a request). A task is a part of
-- one range (Impl/Task); a range is a request, which the tasks of several batches share and count
-- down (Impl/Request), so that the last one sends the response. Batch/Account and Batch/Ledger keep
-- the account of a request. Batches for a worker form a workload (Impl/Workload).
--
-- Responses go through a queue to the one consumer (cpp/common/shared_queue: Common/SharedQueue,
-- and its threads in SharedQueue/Steps). Workloads go through the queue of a thread pool
-- (cpp/utils/threadpool: Utils/ThreadPool, its threads in ThreadPool/Steps, the loop of one of them
-- in ThreadPool/Rounds). A worker for object storage (cpp/streamer/impl/object_storage_worker, with
-- its base class in cpp/utils/capacity_worker: Impl/ObjectStorageWorker) splits each task into
-- chunks (Enqueue, with Chunks, Register and Handles under it), bounds the chunks in flight by a queue
-- (cpp/utils/capacity_queue: Utils/CapacityQueue, and the use of it in CapacityQueue/Window), finds
-- the task of a completed chunk (State, and Locate) and ends it (Complete, and FirstError), and
-- drives these (Drive). Account, with Ends and Chunk under it, keeps the account of a request while
-- chunks complete; Abort and Unbuilt are about errors of the worker. The limit of file descriptors
-- (cpp/utils/fdlimit) is in Utils/FdLimit. Versions (cpp/utils/semver) are in Utils/Semver, and
-- their order in Semver/Order.
--
-- The clients of a storage are kept by cpp/common/client_mgr (Common/ClientMgr, its users in
-- ClientMgr/Held), and their parameters in cpp/common/s3_credentials (Common/Credentials, and
-- Credentials/Params). The C interface sets the parameters (Api/Start) and lists files
-- (Api/Listing, and Streamer/Listing). Files are read by the other loop of the pool
-- (ThreadPool/Routine, and Workload/Execute); ObjectStorageWorker/Pump is about the loop that
-- submits chunks. The configuration is in Impl/Config, and what it is in any environment in
-- Config/Usable.
--
-- An object storage is reached through a plugin that is loaded at run time (cpp/common/s3_wrapper:
-- Common/S3Wrapper, with what a client is made from in S3Wrapper/Opening and the life of the handle
-- in S3Wrapper/Handle; the reader of the worker in cpp/streamer/impl/s3: Impl/S3Reader). The types
-- that both sides know are in cpp/common/backend_api (Common/BackendApi, and the listing in
-- Plugins/ListFiles). Plugins/S3 is the client of the plugin for S3 (cpp/s3/client), with Base for
-- its endpoint and credentials, Verify about these and Pages about its listing; S3/Backend has the
-- functions that this plugin exports (cpp/s3/s3.cc), with Backend/Window for the window that it
-- advertises as text (Common/Decimal). Plugins/Gcs is the client of the plugin for Google Cloud
-- Storage (cpp/gcs/client), with OneResponse for the parts of a range and Stream for the bytes of
-- one. Variables of the environment (cpp/utils/env) are in Utils/Env, and file descriptors
-- (cpp/utils/fd) in Utils/Fd, with Fd/Reads for the loop over read(2). Common/Text has literal
-- strings.
--
-- Fields and functions have the names of the members and methods, less the leading underscore; a
-- constructor is `create`. `end` is spelled `stop`, and a fault that is thrown is an `err` of
-- Common/Result: common::Exception with its code, or a failed ASSERT. A method that changes its
-- object returns the new one; a method of the object storage worker, which may throw with a part of
-- its changes made, is a computation of the monad in ObjectStorageWorker/State. Numbers are natural
-- numbers; `size_t`, addresses and `unsigned` wrap where the source may (Prelude/Word). A
-- `std::map` is an association list (Prelude/Assoc). Requests stand on a heap and are named by
-- address, since they are shared. The environment, the clock, the limits of the process, the system
-- calls on the file, the client of the storage, the responder of a batch and the stop flag are
-- arguments.
--
-- The inner loop of `assign` runs on fuel, two more than the transfers that are left, since each
-- round ends a transfer or fills the worker. The
-- loop that makes an id has one round more than there are live ids, and the loop that splits a
-- range between the workers has two more than there are tasks of workers, since each round but the
-- first takes the next one. `pump` has one round more
-- than there are chunks in its queue, since each round takes one. The loop of `execute` in the
-- capacity worker takes its fuel as an argument, since the client decides how many rounds it takes.
--
-- Not modelled: the constructor of the streamer, which makes the pools, and `sync_read`, which
-- waits for a response of the workers; of a worker for object storage, the limit of responses for a
-- call is an argument, which stands for a variable of the environment that parses. Of the plugins,
-- what the SDKs of the vendors do, and the numbers that are computed with floating point, are
-- arguments; the plugin for Azure is not modelled, and the functions that the plugin for GCS
-- exports are those of the plugin for S3. The other wrappers of the system in cpp/utils have little
-- state of their own.
pub mod Prelude
pub mod Common
pub mod Utils
pub mod Impl
pub mod Plugins
pub mod Api
pub mod Tests
