-- ===== src/Plugins/Gcs.antt =====
-- cpp/gcs/client/client.cc: a client of Google Cloud Storage. It reads a range by parts that end in
-- any order, and gives one response for the range. The client of the vendor is an argument: what a
-- stream holds, and when its reads end. Ranges have less than 2^32 parts.
pub mod Stream
pub mod OneResponse
use runai_model_streamer.Prelude.{
  ℕ, zero, suc, ◌*◌, ◌/◌, ◌%◌, ◌^◌, Bool, true, false, Option, none, some, List, [], ◌∷◌, ◌==◌,
  if◌then◌else◌, max, add_size, sub_size, dec_unsigned, ◌⊎◌, inl, inr,
}
use runai_model_streamer.Common.ResponseCode.{ResponseCode, success, finished_error, is_success}
use runai_model_streamer.Common.Result.{Result, ok, err, assertion}
use runai_model_streamer.Common.SharedQueue.{SharedQueue, finish_on_drain, Popped}
use runai_model_streamer.Common.SharedQueue
use runai_model_streamer.Common.StorageUri.{StorageUri}
use runai_model_streamer.Common.StorageUri
use runai_model_streamer.Common.BackendApi.{
  Response, of_code, ObjectRange, ObjectClientConfig, response_is_response,
}

pub record GcsClient : Type 0 where
  pub stopped : Bool
  pub responder : Option (SharedQueue Response)
  pub chunk_bytesize : ℕ
  pub max_inflight_bytes : ℕ

-- The first argument is the product of the margin, the concurrency and the chunk size, which the
-- source computes on floating-point numbers and then makes a `size_t`.
unfoldable pub create : ℕ → ObjectClientConfig → GcsClient
create scaled config = record {
  stopped = false;
  responder = none;
  chunk_bytesize = config.default_storage_chunk_size;
  max_inflight_bytes = max scaled (2 * config.default_storage_chunk_size % 2 ^ 64);
}

-- `async_read_response`; without a permit the caller waits.
unfoldable pub async_read_response : GcsClient → Response ⊎ Popped Response
async_read_response c = elim c.responder [
  | none ↦ inl (of_code finished_error)
  | some q ↦ inr (SharedQueue.pop q 0)
]

unfoldable pub stop : GcsClient → GcsClient
stop c = record c {
  stopped = true;
  responder = elim c.responder [ none ↦ none | some q ↦ some (SharedQueue.stop q) ];
}

-- One read of the loop of `async_read`.
pub record Part : Type 0 where
  pub offset : ℕ
  pub bytesize : ℕ
  pub buffer : ℕ

-- The loop, with the parts that are left; the last part has all that is left. The function tells
-- for each round whether the client has been stopped.
unfoldable pub split_range :
    (left i : ℕ) → (ℕ → Bool) → (chunk_bytesize offset total buffer : ℕ) → List Part
split_range zero i stopped chunk_bytesize offset total buffer = []
split_range (suc left) i stopped chunk_bytesize offset total buffer =
    let bs = if left == 0 then total else chunk_bytesize in
    let part : Part = record { offset = offset; bytesize = bs; buffer = buffer } in
    let rest =
      part
      ∷ split_range left (suc i) stopped chunk_bytesize (add_size offset bs) (sub_size total bs)
          (add_size buffer bs) in
    if stopped i then [] else rest

-- The number of parts of a range.
unfoldable pub part_count : ℕ → ℕ → ℕ
part_count chunk_bytesize bytesize = max 1 (bytesize / chunk_bytesize)

-- The two variables that the callbacks of one range share.
pub record Pending : Type 0 where
  pub counter : ℕ
  pub is_success : Bool

-- The callback of a part whose read has ended with a code: the one change of a shared variable, and
-- the response to push, if there is one.
unfoldable pub complete_part : ℕ → ResponseCode → Pending → Pending × Option Response
complete_part request_id code p =
    if is_success code
    then (
      record p { counter = dec_unsigned p.counter },
      if p.counter == 1 then some (record { handle = request_id; ret = code }) else none,
    )
    else (
      record p { is_success = false },
      if p.is_success then some (record { handle = request_id; ret = code }) else none,
    )

abbrev pub push_some : SharedQueue Response → Option Response → SharedQueue Response
push_some q none = q
push_some q (some r) = SharedQueue.push q r

-- The callbacks of one range in the order in which they run.
unfoldable pub complete_parts :
    ℕ → List ResponseCode → Pending → SharedQueue Response → Pending × SharedQueue Response
complete_parts request_id [] p q = (p, q)
complete_parts request_id (code ∷ codes) p q =
    let out = complete_part request_id code p in
    complete_parts request_id codes out.0 (push_some q out.1)

-- The responder with one more response to come.
unfoldable pub expect_one : Option (SharedQueue Response) → SharedQueue Response
expect_one none = SharedQueue.create 1 finish_on_drain
expect_one (some q) = SharedQueue.increment q 1

-- What `async_read` leaves for its callbacks.
pub record Started : Type 0 where
  pub uri : StorageUri
  pub parts : List Part
  pub pending : Pending

-- `async_read`: what it has started, or the exception of a path that is no URI; its code; and the
-- client after it. The second function tells of a round, and the flag of the end, whether the client
-- is stopped.
unfoldable pub async_read :
    (ℕ → Bool)
    → Bool
    → List ℕ
    → ObjectRange
    → ℕ
    → GcsClient
    → Result (Started × ResponseCode) × GcsClient
unfolding split_range part_count expect_one
async_read stopped stopped_at_end path range buffer c =
    let c' = record c { responder = some (expect_one c.responder) } in
    let size = part_count c.chunk_bytesize range.length in
    elim (StorageUri.parse path) [
      | none ↦ (err assertion, c')
      | some uri ↦ (
        ok (
          record {
            uri = uri;
            parts = split_range size 0 stopped c.chunk_bytesize range.offset range.length buffer;
            pending = record { counter = size % 2 ^ 32; is_success = true };
          },
          if stopped_at_end then finished_error else success,
        ),
        c',
      )
    ]
