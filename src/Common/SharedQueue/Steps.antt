-- ===== src/Common/SharedQueue/Steps.antt =====
-- cpp/common/shared_queue/shared_queue.h with its threads: any number of producers, one consumer.
use runai_model_streamer.Prelude.{
  ℕ, ◌+◌, ◌-◌, ◌≤◌, ◌<◌, ◌≡◌, refl, Bool, true, false, List, [], ◌∷◌, arith, length, length-append,
  add_size,
}
use runai_model_streamer.Common.ResponseCode.{finished_error}
use runai_model_streamer.Common.Result.{ok}
use runai_model_streamer.Common.SharedQueue.{
  SharedQueue, IsResponse, QueueMode, create, increment, post, push_locked, stop_locked, drained,
  pop_locked,
}

-- Where the consumer is inside `pop`: outside, past the test of `_stopped`, at the semaphore, or past it
-- and before the lock.
pub data Phase : Type 0 where
  outside entered waiting woken : Phase

-- The queue, the posts that threads still owe (they have left the lock), and the consumer.
pub record System (R : Type 0) : Type 0 where
  pub queue : SharedQueue R
  pub posts : ℕ
  pub consumer : Phase

abbrev owed : Bool → ℕ
owed true = 1
owed false = 0

abbrev holds : Phase → ℕ
holds woken = 1
holds _ = 0

-- The consumer has seen the queue run, and has no permit yet.
abbrev pub is_parked : Phase → Bool
is_parked entered = true
is_parked waiting = true
is_parked _ = false

module _ {R : Type 0} ⦃r : IsResponse R⦄ where
  pub data Step (s : System R) : System R → Type 0 where
    increments : (n : ℕ) → Step s (record s { queue = increment s.queue n })
    sizes :
        (n : ℕ)
        → Step s (record s {
          queue = record s.queue { total_bytesize = add_size s.queue.total_bytesize n };
        })
    pushes :
        (a : R)
        → Step s (record s {
          queue = (push_locked s.queue a).0;
          posts = s.posts + owed (push_locked s.queue a).1;
        })
    stops : Step s (record s {
      queue = (stop_locked s.queue).0;
      posts = s.posts + owed (stop_locked s.queue).1;
    })
    posts_one : 0 < s.posts → Step s (record s { queue = post s.queue; posts = s.posts - 1 })
    enters :
        s.consumer ≡ outside → s.queue.stopped ≡ false → Step s (record s { consumer = entered })
    ends : s.consumer ≡ entered → drained s.queue ≡ true → Step s (record s { consumer = outside })
    waits :
        s.consumer ≡ entered → drained s.queue ≡ false → Step s (record s { consumer = waiting })
    wakes :
        s.consumer ≡ waiting
        → 0 < s.queue.ready
        → Step s
            (record s { queue = record s.queue { ready = s.queue.ready - 1 }; consumer = woken })
    times_out : s.consumer ≡ waiting → Step s (record s { consumer = outside })
    takes :
        (a : R) (q : SharedQueue R)
        → s.consumer ≡ woken
        → pop_locked s.queue ≡ ok (a, q)
        → Step s (record s { queue = q; consumer = outside })

  pub data Reach (s : System R) : System R → Type 0 where
    here : Reach s s
    next : {t u : System R} → Reach s t → Step t u → Reach s u

  -- While the queue runs, every waiting response has one permit, one post on its way, or is held by
  -- the consumer that was woken for it. Once stopped, a consumer at the semaphore has a permit coming.
  pub record IsBalanced (s : System R) : Type 0 where
    pub permits :
        s.queue.stopped ≡ false
        → s.queue.ready + s.posts + holds s.consumer ≡ length s.queue.responses
    pub released :
        s.queue.stopped ≡ true → is_parked s.consumer ≡ true → 1 ≤ s.queue.ready + s.posts

  pop_locked_by :
      (q : SharedQueue R) (b : Bool) (l : List R)
      → q.stopped ≡ b
      → q.responses ≡ l
      → (q.stopped ≡ false → 1 ≤ length q.responses)
      → (a : R) × (q' : SharedQueue R) × (pop_locked q ≡ ok (a, q'))
  unfolding pop_locked
  pop_locked_by q true l e f h = (r.of_code finished_error, q, ground arith)
  pop_locked_by q false [] e f h = absurd (ground (arith, h e))
  pop_locked_by q false (a ∷ l) e f h = (a, record q { responses = l }, ground arith)

  -- `pop_locked` fails only on a running, empty queue.
  woken-pop_locked :
      (q : SharedQueue R)
      → (q.stopped ≡ false → 1 ≤ length q.responses)
      → (a : R) × (q' : SharedQueue R) × (pop_locked q ≡ ok (a, q'))
  unfolding pop_locked
  woken-pop_locked q h = pop_locked_by q q.stopped q.responses refl refl h

  pub Step-IsBalanced : {s t : System R} → Step s t → IsBalanced s → IsBalanced t
  unfolding push_locked stop_locked pop_locked increment
  Step-IsBalanced {s} (increments n) v = record { permits = v.permits; released = v.released }
  Step-IsBalanced {s} (sizes n) v = record { permits = v.permits; released = v.released }
  Step-IsBalanced {s} (pushes a) v = ground (arith, length-append s.queue.responses (a ∷ []))
  Step-IsBalanced {s} stops v = ground arith
  Step-IsBalanced {s} (posts_one h) v = ground arith
  Step-IsBalanced {s} (enters h e) v = ground arith
  Step-IsBalanced {s} (ends h e) v = ground arith
  Step-IsBalanced {s} (waits h e) v = ground arith
  Step-IsBalanced {s} (wakes h e) v = ground arith
  Step-IsBalanced {s} (times_out h) v = ground arith
  Step-IsBalanced {s} (takes a q h e) v = ground arith

  Reach-IsBalanced : {s t : System R} → IsBalanced s → Reach s t → IsBalanced t
  Reach-IsBalanced v here = v
  Reach-IsBalanced v (next p st) = Step-IsBalanced st (Reach-IsBalanced v p)

  abbrev pub start : ℕ → QueueMode → System R
  start running mode = record { queue = create running mode; posts = 0; consumer = outside }

  start-IsBalanced : (n : ℕ) (m : QueueMode) → IsBalanced (start n m)
  unfolding create
  start-IsBalanced n m = ground arith

  -- However the threads interleave after the queue is made, the consumer that was woken by a permit
  -- never finds the queue empty: the locked part of `pop` succeeds, so its ASSERT does not fail. And
  -- once the queue is stopped, a consumer that has passed the first test of `pop` and has no permit
  -- yet finds one at the semaphore, or a post of one is on its way.
  pub pop_never_fails :
      (n : ℕ) (m : QueueMode) {s : System R}
      → Reach (start n m) s
      → (s.consumer ≡ woken → (a : R) × (q : SharedQueue R) × (pop_locked s.queue ≡ ok (a, q)))
        × (s.queue.stopped ≡ true → is_parked s.consumer ≡ true → 1 ≤ s.queue.ready + s.posts)
  pop_never_fails n m {s} p =
      let v = Reach-IsBalanced (start-IsBalanced n m) p in
      (λ w. woken-pop_locked s.queue (λ e. ground (arith, v.permits e)), v.released)
