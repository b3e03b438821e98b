-- ===== src/Utils/ThreadPool.antt =====
-- cpp/utils/threadpool/threadpool.h: the queue of a thread pool, and one round of the loop of a thread
-- that owns a worker. What happens between the threads is in ThreadPool/Steps.
pub mod Steps
pub mod Rounds
pub mod Routine
use runai_model_streamer.Prelude.{
  ℕ, zero, suc, ◌+◌, ◌-◌, Bool, true, false, Option, none, some, List, [], ◌∷◌, ◌++◌, ◌==◌,
  if◌then◌else◌,
}
use runai_model_streamer.Common.Result.{Result, ok, err, assertion, ◌>>=◌}

-- `sem` is the number of permits of `_sem`.
pub record Deque (A : Type 0) : Type 0 where
  pub sem : ℕ
  pub messages : List A
  pub stopped : Bool

module _ {A : Type 0} where
  unfoldable pub create : Deque A
  create = record { sem = 0; messages = []; stopped = false }

  abbrev pub post : Deque A → Deque A
  post d = record d { sem = suc d.sem }

  -- The part of `push` under the lock.
  unfoldable pub push_locked : Deque A → A → Result (Deque A)
  push_locked d m =
      if d.stopped then err assertion else ok (record d { messages = d.messages ++ (m ∷ []) })

  unfoldable pub push : Deque A → A → Result (Deque A)
  unfolding push_locked
  push d m = do d' ← push_locked d m; ok (post d')

  -- The part of `pop` and of `try_pop` under the lock: `none` if the queue is stopped. The front of an
  -- empty queue is not defined.
  unfoldable pub pop_locked : Deque A → Result (Option A × Deque A)
  pop_locked d = elim d.stopped [
    | true ↦ ok (none, d)
    | false ↦ elim d.messages [
      | [] ↦ err assertion
      | m ∷ rest ↦ ok (some m, record d { messages = rest })
    ]
  ]

  -- `_sem.try_wait()`: `none` if there is no permit.
  unfoldable pub try_wait : Deque A → Option (Deque A)
  try_wait d = elim d.sem [ zero ↦ none | suc n ↦ some (record d { sem = n }) ]

  -- What `try_pop` does with what it found: the permit of a stop is given back.
  abbrev pub give_back : Option A × Deque A → Option A × Deque A
  give_back (none, d) = (none, post d)
  give_back (some m, d) = (some m, d)

  unfoldable pub try_pop : Deque A → Result (Option A × Deque A)
  unfolding try_wait pop_locked
  try_pop d = elim (try_wait d) [
    | none ↦ ok (none, d)
    | some d' ↦ do out ← pop_locked d'; ok (give_back out)
  ]

  -- `pop` with its wait: `none` while the thread waits.
  unfoldable pub pop : Deque A → Result (Option (Option A × Deque A))
  unfolding try_wait pop_locked
  pop d = elim (try_wait d) [ none ↦ ok none | some d' ↦ do out ← pop_locked d'; ok (some out) ]

  abbrev pub posts : ℕ → Deque A → Deque A
  posts times d = record d { sem = d.sem + times }

  unfoldable pub stop : Deque A → ℕ → Deque A
  stop d times = posts times (record d { stopped = true })

-- The contract of a worker, on its state `W`. What an operation throws is caught by the loop, so
-- here it returns the state that is left.
pub record Worker (A W : Type 0) : Type 0 where
  pub execute : A → W → W
  pub drain : W → W
  pub idle : W → Bool

-- How a round of the loop ends: the thread goes on, waits inside `pop`, or leaves the loop.
pub data Round : Type 0 where
  goes_on waits leaves : Round

module _ {A W : Type 0} (worker : Worker A W) where
  abbrev pub after_pop : W → Deque A → Option (Option A × Deque A) → Round × W × Deque A
  after_pop w d none = (waits, w, d)
  after_pop w d (some (none, d')) = (leaves, w, d')
  after_pop w d (some (some m, d')) = (goes_on, worker.execute m w, d')

  -- One round of `worker_routine`.
  unfoldable pub worker_round : W → Deque A → Result (Round × W × Deque A)
  unfolding try_pop pop
  worker_round w d = do
    out ← try_pop d
    elim out.0 [
      | some m ↦ ok (goes_on, worker.execute m w, out.1)
      | none ↦ elim (worker.idle w) [
        | false ↦ ok (goes_on, worker.drain w, out.1)
        | true ↦ do popped ← pop out.1; ok (after_pop w out.1 popped)
      ]
    ]

  -- So many rounds, or fewer if the thread waits or leaves.
  unfoldable pub worker_rounds : ℕ → W → Deque A → Result (Round × W × Deque A)
  unfolding worker_round
  worker_rounds zero w d = ok (goes_on, w, d)
  worker_rounds (suc n) w d = do
    out ← worker_round w d
    elim out.0 [ goes_on ↦ worker_rounds n out.1 out.2 | waits ↦ ok out | leaves ↦ ok out ]

-- One round of `routine`, for a handler that is shared by the threads; what it throws is caught.
abbrev pub handle_popped :
    {A W : Type 0} → (A → W → W) → W → Deque A → Option (Option A × Deque A) → Round × W × Deque A
handle_popped handler w d none = (waits, w, d)
handle_popped handler w d (some (none, d')) = (leaves, w, d')
handle_popped handler w d (some (some m, d')) = (goes_on, handler m w, d')

unfoldable pub routine_round :
    {A W : Type 0} → (A → W → W) → W → Deque A → Result (Round × W × Deque A)
unfolding pop
routine_round handler w d = do popped ← pop d; ok (handle_popped handler w d popped)

unfoldable pub routine_rounds :
    {A W : Type 0} → (A → W → W) → ℕ → W → Deque A → Result (Round × W × Deque A)
unfolding routine_round
routine_rounds handler zero w d = ok (goes_on, w, d)
routine_rounds handler (suc n) w d = do
  out ← routine_round handler w d
  elim out.0 [ goes_on ↦ routine_rounds handler n out.1 out.2 | waits ↦ ok out | leaves ↦ ok out ]
