-- ===== src/Common/SharedQueue.antt =====
-- cpp/common/shared_queue/shared_queue.h: the queue of ready responses, with its semaphore
-- (cpp/utils/semaphore) as a number of permits. Each function that locks `_mutex` is one atomic step;
-- the post that follows the lock is a step of its own.
pub mod Steps
use runai_model_streamer.Prelude.{
  ℕ, zero, suc, ◌+◌, ◌-◌, ◌≡◌, Bool, true, false, ◌&&◌, ◌||◌, not, List, [], ◌∷◌, ◌++◌, ltb, ◌==◌,
  if◌then◌else◌, add_size, add_unsigned,
}
use runai_model_streamer.Common.ResponseCode.{
  ResponseCode, success, finished_error, timed_out, unknown_error, is_success,
}
use runai_model_streamer.Common.Result.{Result, ok, err, assertion}

pub data QueueMode : Type 0 where
  finish_on_drain persistent : QueueMode

-- What a ResponseType offers: its `ret`, and its construction from a code.
pub record IsResponse (R : Type 0) : Type 0 where
  pub ret : R → ResponseCode
  pub of_code : ResponseCode → R

pub record SharedQueue (R : Type 0) : Type 0 where
  pub mode : QueueMode
  pub running : ℕ
  pub responses : List R
  pub ready : ℕ
  pub stopped : Bool
  pub total_bytesize : ℕ
  pub successful : Bool
  pub unexpected_push_error : Bool

-- What one round of `pop` ends with: a response (and the queue after it), or a thread that waits.
pub data Popped (R : Type 0) : Type 0 where
  popped : R → SharedQueue R → Popped R
  blocked : Popped R
  failed : Popped R

module _ {R : Type 0} ⦃r : IsResponse R⦄ where
  unfoldable pub create : ℕ → QueueMode → SharedQueue R
  create running mode = record {
    mode = mode;
    running = running;
    responses = [];
    ready = 0;
    stopped = false;
    total_bytesize = 0;
    successful = true;
    unexpected_push_error = false;
  }

  unfoldable pub increment : SharedQueue R → ℕ → SharedQueue R
  increment q n = record q { running = add_unsigned q.running n }

  -- The semaphore's post.
  abbrev pub post : SharedQueue R → SharedQueue R
  post q = record q { ready = suc q.ready }

  abbrev pub is_empty : SharedQueue R → Bool
  is_empty q = elim q.responses [ [] ↦ true | _ ∷ _ ↦ false ]

  unfoldable pub finished : SharedQueue R → Bool
  finished q = (q.running == 0) && is_empty q

  -- The locked part of `push`; the flag is `posted_to_semaphore`.
  unfoldable pub push_locked : SharedQueue R → R → SharedQueue R × Bool
  push_locked q a =
      if q.stopped
      then (q, false)
      else let successful = q.successful && is_success (r.ret a) in
        if ltb 0 q.running
        then (
          record q {
            successful = successful;
            responses = q.responses ++ (a ∷ []);
            running = q.running - 1;
          },
          true,
        )
        else (record q { successful = successful; unexpected_push_error = true }, false)

  abbrev pub post_if : SharedQueue R × Bool → SharedQueue R
  post_if (q, true) = post q
  post_if (q, false) = q

  unfoldable pub push : SharedQueue R → R → SharedQueue R
  unfolding push_locked
  push q a = post_if (push_locked q a)

  -- `push(response, bytesize)`
  unfoldable pub push_sized : SharedQueue R → R → ℕ → SharedQueue R
  unfolding push
  push_sized q a bytesize =
      push (record q { total_bytesize = add_size q.total_bytesize bytesize }) a

  -- The locked part of `stop`; the flag is `needs_post`.
  unfoldable pub stop_locked : SharedQueue R → SharedQueue R × Bool
  stop_locked q = (record q { stopped = true }, not q.stopped)

  unfoldable pub stop : SharedQueue R → SharedQueue R
  unfolding stop_locked
  stop q = post_if (stop_locked q)

  -- The second test at the entry of `pop`: a drained queue is at its end, in that mode only.
  unfoldable pub drained : SharedQueue R → Bool
  unfolding finished
  drained q = elim q.mode [ finish_on_drain ↦ finished q | persistent ↦ false ]

  -- The locked part of `pop`, after a permit was taken; an error is the failed ASSERT.
  unfoldable pub pop_locked : SharedQueue R → Result (R × SharedQueue R)
  pop_locked q = if q.stopped then ok (r.of_code finished_error, q) else elim q.responses [
    | [] ↦ err assertion
    | a ∷ rest ↦ ok (a, record q { responses = rest })
  ]

  abbrev pub popped_of : Result (R × SharedQueue R) → Popped R
  popped_of (ok (a, q)) = popped a q
  popped_of (err e) = failed

  -- `pop`, while no other thread moves: without a permit it blocks for ever, or times out.
  unfoldable pub pop : SharedQueue R → ℕ → Popped R
  unfolding drained pop_locked
  pop q timeout_ms =
      if q.stopped || drained q then popped (r.of_code finished_error) q else elim q.ready [
        | zero ↦ if timeout_ms == 0 then blocked else popped (r.of_code timed_out) q
        | suc n ↦ popped_of (pop_locked (record q { ready = n }))
      ]

  unfoldable pub valid : SharedQueue R → ResponseCode
  valid q = if q.unexpected_push_error then unknown_error else success
