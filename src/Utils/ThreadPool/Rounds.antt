-- ===== src/Utils/ThreadPool/Rounds.antt =====
-- cpp/utils/threadpool/threadpool.h: the loop of one thread, while the queue stands still otherwise.
use runai_model_streamer.Prelude.{
  ℕ, zero, suc, ◌≡◌, refl, true, false, List, [], ◌∷◌, ◌++◌, ◌+◌, ◌∙◌, length, append_assoc,
  append-nil, arith,
}
use runai_model_streamer.Common.Result.{Result, ok, ◌>>=◌}
use runai_model_streamer.Utils.ThreadPool.{
  Worker, goes_on, leaves, worker_round, worker_rounds, try_pop, try_wait, pop_locked, pop, Deque,
  create, push, push_locked,
}

-- The calls of `push`, the first message first.
abbrev pub push_all : {A : Type 0} → List A → Deque A → Result (Deque A)
push_all [] d = ok d
push_all (m ∷ ms) d = do d' ← push d m; push_all ms d'

push_all-messages :
    {A : Type 0} (ms xs : List A) (n : ℕ)
    → push_all ms (record { sem = n; messages = xs; stopped = false })
      ≡ ok (record { sem = n + length ms; messages = xs ++ ms; stopped = false })
unfolding push push_locked
push_all-messages [] xs n = let e : n + 0 ≡ n = omega arith in rw (append-nil xs, e) refl
push_all-messages (m ∷ ms) xs n =
    push_all-messages ms (xs ++ (m ∷ [])) (suc n)
    ∙ rw (append_assoc xs (m ∷ []) ms)
        (let e : suc n + length ms ≡ n + suc (length ms) = omega arith in rw e refl)

module _ {A W : Type 0} (worker : Worker A W) where
  -- The worker after it has executed the messages, the first one first.
  abbrev pub executed : List A → W → W
  executed [] w = w
  executed (m ∷ ms) w = executed ms (worker.execute m w)

  abbrev pub drained : ℕ → W → W
  drained zero w = w
  drained (suc n) w = drained n (worker.drain w)

  -- The worker has work left for so many calls of `drain`, and is then idle.
  abbrev pub IsIdleAfter : ℕ → W → Type 0
  IsIdleAfter zero w = worker.idle w ≡ true
  IsIdleAfter (suc n) w = (worker.idle w ≡ false) × IsIdleAfter n (worker.drain w)

  rounds-executed :
      (ms : List A) (w : W)
      → worker_rounds worker
          (length ms)
          w
          (record { sem = length ms; messages = ms; stopped = false })
        ≡ ok (goes_on, executed ms w, record { sem = 0; messages = []; stopped = false })
  unfolding worker_rounds worker_round try_pop try_wait pop_locked
  rounds-executed [] w = refl
  rounds-executed (m ∷ ms) w = rounds-executed ms (worker.execute m w)

  -- Messages are pushed to a new queue, and then a thread makes as many rounds: every push succeeds, the
  -- thread executes just these messages, in the order in which they were pushed and whether or not its
  -- worker is idle in between, and leaves the queue as it was when it was new.
  pub rounds-fifo :
      (ms : List A) (w : W)
      → (d : Deque A) × (push_all ms create ≡ ok d)
        × (worker_rounds worker (length ms) w d ≡ ok (goes_on, executed ms w, create))
  unfolding create
  rounds-fifo ms w = (
    record { sem = length ms; messages = ms; stopped = false },
    push_all-messages ms [] 0 ∙ (let e : 0 + length ms ≡ length ms = omega arith in rw e refl),
    rounds-executed ms w,
  )

  -- Once the queue is stopped and has a permit, a worker that is idle after `n` drains makes just these,
  -- executes no message, and leaves the loop; it takes one permit with it, and no more.
  pub rounds-leave :
      (n sem : ℕ) (ms : List A) (w : W)
      → IsIdleAfter n w
      → worker_rounds worker (suc n) w (record { sem = suc sem; messages = ms; stopped = true })
        ≡ ok (leaves, drained n w, record { sem = sem; messages = ms; stopped = true })
  unfolding worker_rounds worker_round try_pop try_wait pop_locked pop
  rounds-leave zero sem ms w h = rw h refl
  rounds-leave (suc n) sem ms w h = rw h.0 (rounds-leave n sem ms (worker.drain w) h.1)
