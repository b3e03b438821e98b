-- ===== src/Utils/ThreadPool/Routine.antt =====
-- cpp/utils/threadpool/threadpool.h: the two loops of a thread compared.
use runai_model_streamer.Prelude.{ℕ, zero, suc, ◌≡◌, refl, Bool, true, false, List, [], ◌∷◌}
use runai_model_streamer.Common.Result.{Result, ok, err, ◌>>=◌}
use runai_model_streamer.Utils.ThreadPool.{
  Deque, Worker, Round, goes_on, waits, leaves, worker_round, worker_rounds, routine_round,
  routine_rounds, try_pop, try_wait, pop_locked, pop,
}

module _ {A W : Type 0} (handler : A → W → W) where
  -- A worker that has nothing in flight after a call.
  abbrev pub idle_worker : Worker A W
  idle_worker = record { execute = handler; drain = λ w. w; idle = λ w. true }

  same_round :
      (sem : ℕ) (ms : List A) (stopped : Bool) (w : W)
      → let d : Deque A = record { sem = sem; messages = ms; stopped = stopped } in
        routine_round handler w d ≡ worker_round idle_worker w d
  unfolding routine_round worker_round try_pop try_wait pop_locked pop
  same_round zero ms stopped w = refl
  same_round (suc sem) ms true w = refl
  same_round (suc sem) [] false w = refl
  same_round (suc sem) (m ∷ ms) false w = refl

  after_same :
      (n : ℕ) (out : Result (Round × W × Deque A))
      → ((w : W) (d : Deque A) → routine_rounds handler n w d ≡ worker_rounds idle_worker n w d)
      → (out >>= λ o. elim o.0 as (λ x. Result (Round × W × Deque A)) [
        | goes_on ↦ routine_rounds handler n o.1 o.2
        | waits ↦ ok o
        | leaves ↦ ok o
      ])
        ≡ (out >>= λ o. elim o.0 as (λ x. Result (Round × W × Deque A)) [
          | goes_on ↦ worker_rounds idle_worker n o.1 o.2
          | waits ↦ ok o
          | leaves ↦ ok o
        ])
  after_same n (err e) ih = refl
  after_same n (ok (goes_on, w, d)) ih = ih w d
  after_same n (ok (waits, w, d)) ih = refl
  after_same n (ok (leaves, w, d)) ih = refl

  -- The loop of a pool with a shared handler is the loop of a worker that is idle after each call:
  -- after any number of rounds, from any queue, both have handled the same messages, left the same
  -- queue, and ended in the same way.
  pub routine-same :
      (n : ℕ) (w : W) (d : Deque A) → routine_rounds handler n w d ≡ worker_rounds idle_worker n w d
  unfolding routine_rounds worker_rounds
  routine-same zero w d = refl
  routine-same (suc n) w d =
      rw (same_round d.sem d.messages d.stopped w)
        (after_same n (worker_round idle_worker w d) (routine-same n))
