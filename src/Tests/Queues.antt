-- ===== src/Tests/Queues.antt =====
-- The queue of responses with its threads, at a concrete run.
use runai_model_streamer.Prelude.{◌+◌, ◌≤◌, ◌≡◌, refl, true, false, [], ◌∷◌, arith}
use runai_model_streamer.Common.ResponseCode.{success}
use runai_model_streamer.Common.Result.{ok}
use runai_model_streamer.Common.Response.{Response, response_is_response}
use runai_model_streamer.Common.SharedQueue.{
  SharedQueue, persistent, create, push_locked, drained, pop_locked,
}
use runai_model_streamer.Common.SharedQueue.Steps.{
  System, Reach, here, next, pushes, posts_one, enters, waits, wakes, woken, start, is_parked,
  pop_never_fails,
}

abbrev response_7 : Response
response_7 = record { submission_id = 7; file_index = 0; index = 1; ret = success }

-- One response is pushed, and the consumer is woken by its permit.
abbrev reached : System Response
reached = record {
  queue = record {
    mode = persistent;
    running = 1;
    responses = response_7 ∷ [];
    ready = 0;
    stopped = false;
    total_bytesize = 0;
    successful = true;
    unexpected_push_error = false;
  };
  posts = 0;
  consumer = woken;
}

reached-Reach : Reach (start 2 persistent) reached
unfolding create push_locked drained
reached-Reach =
    next
      (next
        (next (next (next here (pushes response_7)) (posts_one (omega arith))) (enters refl refl))
        (waits refl refl))
      (wakes refl (omega arith))

pop_never_fails_example :
    (reached.consumer ≡ woken
      → (a : Response) × (q : SharedQueue Response) × (pop_locked reached.queue ≡ ok (a, q)))
    × (reached.queue.stopped ≡ true
        → is_parked reached.consumer ≡ true
        → 1 ≤ reached.queue.ready + reached.posts)
pop_never_fails_example = pop_never_fails 2 persistent reached-Reach
