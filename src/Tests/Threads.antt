-- ===== src/Tests/Threads.antt =====
-- The thread pool, at concrete runs.
use runai_model_streamer.Prelude.{
  ℕ, ◌+◌, ◌≤◌, ◌≡◌, refl, true, false, Option, some, List, [], ◌∷◌, arith, get_elem?, sum_by,
  length, ◌==◌,
}
use runai_model_streamer.Common.Result.{ok}
use runai_model_streamer.Utils.ThreadPool.{
  Deque, Worker, create, push_locked, pop_locked, try_wait, goes_on, leaves, worker_rounds,
  routine_rounds,
}
use runai_model_streamer.Utils.ThreadPool.Steps.{
  Phase, free, woken, System, Reach, here, next, pushes, stops, posts_one, parks, wakes, start,
  holds, is_alive, permits_serve,
}
use runai_model_streamer.Utils.ThreadPool.Routine.{idle_worker, routine-same}
use runai_model_streamer.Utils.ThreadPool.Rounds.{push_all, rounds-fifo, rounds-leave}

-- Of two threads one is parked, one message is pushed, and the thread has its permit; then the pool stops.
abbrev stopped_pool : System ℕ
stopped_pool = record {
  deque = record { sem = 0; messages = 5 ∷ []; stopped = true };
  posts = 2;
  threads = woken ∷ free ∷ [];
}

stopped_pool-Reach : Reach (start 2) stopped_pool
unfolding create push_locked try_wait
stopped_pool-Reach =
    next
      (next (next (next (next here (pushes 5 _ refl)) (posts_one (omega arith))) (parks 0 refl))
        (wakes 0 _ refl refl))
      stops

permits_serve_example :
    ((k : ℕ) (p : Phase)
      → get_elem? stopped_pool.threads k ≡ some p
      → holds p ≡ 1
      → (out : Option ℕ × Deque ℕ) × (pop_locked stopped_pool.deque ≡ ok out))
    × (stopped_pool.deque.stopped ≡ true
        → sum_by is_alive stopped_pool.threads
          ≤ stopped_pool.deque.sem + stopped_pool.posts + sum_by holds stopped_pool.threads)
permits_serve_example = permits_serve 2 stopped_pool-Reach

-- A worker that keeps the messages that it has executed, and drains them one by one.
abbrev drop_one : List ℕ → List ℕ
drop_one [] = []
drop_one (m ∷ ms) = ms

abbrev keeper : Worker ℕ (List ℕ)
keeper = record { execute = λ m w. m ∷ w; drain = drop_one; idle = λ w. length w == 0 }

rounds-fifo_example :
    (d : Deque ℕ) × (push_all (7 ∷ 8 ∷ []) create ≡ ok d)
    × (worker_rounds keeper 2 [] d ≡ ok (goes_on, 8 ∷ 7 ∷ [], create))
rounds-fifo_example = rounds-fifo keeper (7 ∷ 8 ∷ []) []

rounds-leave_example :
    worker_rounds keeper 2 (8 ∷ []) (record { sem = 1; messages = 9 ∷ []; stopped = true })
    ≡ ok (leaves, [], record { sem = 0; messages = 9 ∷ []; stopped = true })
rounds-leave_example = rounds-leave keeper 1 0 (9 ∷ []) (8 ∷ []) (refl, refl)

abbrev two_messages : Deque ℕ
two_messages = record { sem = 2; messages = 7 ∷ 8 ∷ []; stopped = false }

routine-same_example :
    routine_rounds ◌+◌ 3 1 two_messages ≡ worker_rounds (idle_worker ◌+◌) 3 1 two_messages
routine-same_example = routine-same ◌+◌ 3 1 two_messages
