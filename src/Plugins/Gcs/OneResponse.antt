-- ===== src/Plugins/Gcs/OneResponse.antt =====
-- cpp/gcs/client/client.cc, `async_read`: the parts of a range, and the responses of their callbacks.
pub mod Parts
use runai_model_streamer.Prelude.{
  ℕ, zero, suc, ◌+◌, ◌-◌, ◌*◌, ◌/◌, ◌%◌, ◌^◌, ◌≤◌, ◌<◌, ◌≡◌, refl, ap, ◌∙◌, Bool, true, false,
  Option, none, some, List, [], ◌∷◌, ◌++◌, ◌==◌, if◌then◌else◌, max, dec_unsigned, length, ltb,
  arith, Bool-cases, inl, inr, sym, ◌⊎◌, add_size-lt, sub_size-le, add_unsigned,
}
use runai_model_streamer.Common.ResponseCode.{ResponseCode, success, is_success}
use runai_model_streamer.Common.Result.{ok}
use runai_model_streamer.Common.SharedQueue.{SharedQueue, finish_on_drain}
use runai_model_streamer.Common.SharedQueue
use runai_model_streamer.Common.StorageUri.{StorageUri}
use runai_model_streamer.Common.StorageUri
use runai_model_streamer.Common.BackendApi.{Response, ObjectRange, response_is_response}
use runai_model_streamer.Plugins.Gcs.{
  GcsClient, Part, split_range, part_count, Pending, complete_part, push_some, complete_parts,
  expect_one, Started, async_read,
}
use runai_model_streamer.Plugins.Gcs.OneResponse.Parts.{
  Tiles, first_failure, is_success→eq, complete_part-more, complete_part-last, complete_part-error,
  complete_parts-cons, complete_parts-failed, complete_parts-push, length-split_range,
  split_range-Tiles, part_count-suc, part_count-fits,
}

-- A responder that is not stopped and can count one response more.
abbrev pub IsOpen : Option (SharedQueue Response) → Type 0
IsOpen none = Unit {0}
IsOpen (some q) = (q.stopped ≡ false) × (suc q.running < 2 ^ 32)

abbrev pub running_of : Option (SharedQueue Response) → ℕ
running_of none = 0
running_of (some q) = q.running

abbrev pub responses_of : Option (SharedQueue Response) → List Response
responses_of none = []
responses_of (some q) = q.responses

abbrev pub ready_of : Option (SharedQueue Response) → ℕ
ready_of none = 0
ready_of (some q) = q.ready

-- The responder has got one response, and expects as many as it did.
pub record HasGot (old : Option (SharedQueue Response)) (r : Response) (q : SharedQueue Response)
    : Type 0 where
  pub responses : q.responses ≡ responses_of old ++ (r ∷ [])
  pub running : q.running ≡ running_of old
  pub ready : q.ready ≡ suc (ready_of old)

push-expect_one-HasGot :
    (old : Option (SharedQueue Response)) (r : Response)
    → IsOpen old
    → HasGot old r (SharedQueue.push (expect_one old) r)
unfolding expect_one SharedQueue.push SharedQueue.create SharedQueue.increment add_unsigned
push-expect_one-HasGot none r h = record { responses = refl; running = refl; ready = refl }
push-expect_one-HasGot (some q) r h =
    let sum : (q.running + 1) % 2 ^ 32 ≡ suc q.running = omega arith in
    let more : ltb 0 (suc q.running) ≡ true = ground arith in
    rw (h.0, sum, more) (record { responses = refl; running = omega arith; ready = refl })

-- The responder after all callbacks.
complete_parts-HasGot :
    (id count : ℕ) (codes : List ResponseCode) (old : Option (SharedQueue Response))
    → IsOpen old
    → 0 < count
    → count < 2 ^ 32
    → length codes ≡ count
    → HasGot old
        (record { handle = id; ret = first_failure codes })
        (complete_parts id codes
          (record { counter = count % 2 ^ 32; is_success = true })
          (expect_one old)).1
complete_parts-HasGot id count [] old h z b e = absurd (omega arith)
complete_parts-HasGot id count (c ∷ cs) old h z b e =
    let same : count % 2 ^ 32 ≡ suc (length cs) = omega arith in
    rw (same, complete_parts-push id c cs (expect_one old) (omega arith))
      (push-expect_one-HasGot old _ h)

module _ (path : List ℕ) (range : ObjectRange) (buffer id : ℕ) (c : GcsClient)
    (codes : List ResponseCode) {uri : StorageUri} (parsed : StorageUri.parse path ≡ some uri)
    (positive : 0 < c.chunk_bytesize) (few : part_count c.chunk_bytesize range.length < 2 ^ 32)
    (fits : range.offset + range.length < 2 ^ 64) (fits_buffer : buffer + range.length < 2 ^ 64)
    (opened : IsOpen c.responder)
    (complete : length codes ≡ part_count c.chunk_bytesize range.length) where
  -- For a path that is a URI, a chunk size that is not 0, a range with less than 2^32 parts, and
  -- places that fit `size_t`, on a client that is not stopped and whose responder can count one
  -- more: `async_read` returns Success and starts as many reads as the range has parts, which tile
  -- it in the object and in the buffer. However they end and in whatever order, when all have
  -- ended the responder has exactly one response more, for this request; its code is Success if
  -- all have succeeded, and else that of the first that failed; and the count of the responses to
  -- come is as it was before.
  pub async_read-OneResponse :
      (s : Started) × (async_read (λ _. false) false path range buffer c
        ≡ (ok (s, success), record c { responder = some (expect_one c.responder) }))
      × Tiles range.offset buffer range.length s.parts
      × (length s.parts ≡ length codes)
      × HasGot c.responder
          (record { handle = id; ret = first_failure codes })
          (complete_parts id codes s.pending (expect_one c.responder)).1
  unfolding async_read
  async_read-OneResponse =
      let (left, size, exact) = part_count-suc c.chunk_bytesize range.length positive in
      (
        record {
          uri = uri;
          parts =
              split_range (part_count c.chunk_bytesize range.length) 0 (λ _. false) c.chunk_bytesize
                range.offset range.length buffer;
          pending = record {
            counter = part_count c.chunk_bytesize range.length % 2 ^ 32;
            is_success = true;
          };
        },
        rw (parsed, async_read) refl,
        rw size (
            split_range-Tiles left 0 c.chunk_bytesize range.offset range.length buffer
              (part_count-fits _ _ left exact) fits fits_buffer),
        length-split_range _ 0 c.chunk_bytesize _ _ _ ∙ sym complete,
        complete_parts-HasGot id _ codes c.responder opened (omega (arith, size)) few complete,
      )
