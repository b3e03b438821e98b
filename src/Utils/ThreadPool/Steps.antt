-- ===== src/Utils/ThreadPool/Steps.antt =====
-- cpp/utils/threadpool/threadpool.h with its threads: any number of producers, and the workers' threads.
use runai_model_streamer.Prelude.{
  ℕ, zero, suc, ◌+◌, ◌-◌, ◌≤◌, ◌<◌, ◌≡◌, refl, Bool, true, false, Option, none, some, List, [], ◌∷◌,
  arith, length, length-append, get_elem?, set, sum_by, replicate,
}
use runai_model_streamer.Common.Result.{ok}
use runai_model_streamer.Utils.ThreadPool.{Deque, create, push_locked, pop_locked, post, try_wait}

-- Where a thread is: outside the queue, in `try_pop` past its permit, at the semaphore of `pop`, past
-- it and before the lock, or out of its loop.
pub data Phase : Type 0 where
  free trying waiting woken ended : Phase

-- The queue, the posts that threads still owe (they have left the lock), and the pool's threads.
pub record System (A : Type 0) : Type 0 where
  pub deque : Deque A
  pub posts : ℕ
  pub threads : List Phase

-- The thread has a permit.
abbrev pub holds : Phase → ℕ
holds trying = 1
holds woken = 1
holds _ = 0

abbrev pub is_alive : Phase → ℕ
is_alive ended = 0
is_alive _ = 1

sum_by-set :
    (f : Phase → ℕ) (l : List Phase) (k : ℕ) (x y : Phase)
    → get_elem? l k ≡ some x
    → sum_by f (set l k y) + f x ≡ sum_by f l + f y
sum_by-set f [] k x y e = absurd cc
sum_by-set f (z ∷ l) zero x y e = let p : z ≡ x = cc in rw p (omega arith)
sum_by-set f (z ∷ l) (suc k) x y e = omega (arith, sum_by-set f l k x y e)

alive_bound : (l : List Phase) → sum_by is_alive l ≤ length l
alive_bound [] = omega arith
alive_bound (x ∷ l) = ground (arith, alive_bound l)

holds-replicate : (n : ℕ) → sum_by holds (replicate n free) ≡ 0
holds-replicate zero = refl
holds-replicate (suc n) = omega (arith, holds-replicate n)

holds-bound :
    (l : List Phase) (k : ℕ) (p : Phase) → get_elem? l k ≡ some p → holds p ≡ 1 → 1 ≤ sum_by holds l
holds-bound [] k p h e = absurd cc
holds-bound (x ∷ l) zero p h e = let q : x ≡ p = cc in rw q (omega arith)
holds-bound (x ∷ l) (suc k) p h e = omega (arith, holds-bound l k p h e)

module _ {A : Type 0} where
  pub data Step (s : System A) : System A → Type 0 where
    pushes :
        (m : A) (d : Deque A)
        → push_locked s.deque m ≡ ok d
        → Step s (record s { deque = d; posts = suc s.posts })
    stops :
        Step s (record s {
          deque = record s.deque { stopped = true };
          posts = s.posts + length s.threads;
        })
    posts_one : 0 < s.posts → Step s (record s { deque = post s.deque; posts = s.posts - 1 })
    tries :
        (k : ℕ) (d : Deque A)
        → get_elem? s.threads k ≡ some free
        → try_wait s.deque ≡ some d
        → Step s (record s { deque = d; threads = set s.threads k trying })
    parks :
        (k : ℕ)
        → get_elem? s.threads k ≡ some free
        → Step s (record s { threads = set s.threads k waiting })
    wakes :
        (k : ℕ) (d : Deque A)
        → get_elem? s.threads k ≡ some waiting
        → try_wait s.deque ≡ some d
        → Step s (record s { deque = d; threads = set s.threads k woken })
    takes :
        (k : ℕ) (p : Phase) (m : A) (d : Deque A)
        → get_elem? s.threads k ≡ some p
        → holds p ≡ 1
        → pop_locked s.deque ≡ ok (some m, d)
        → Step s (record s { deque = d; threads = set s.threads k free })
    ends :
        (k : ℕ) (d : Deque A)
        → get_elem? s.threads k ≡ some woken
        → pop_locked s.deque ≡ ok (none, d)
        → Step s (record s { deque = d; threads = set s.threads k ended })
    returns :
        (k : ℕ) (d : Deque A)
        → get_elem? s.threads k ≡ some trying
        → pop_locked s.deque ≡ ok (none, d)
        → Step s (record s { deque = d; posts = suc s.posts; threads = set s.threads k free })

  pub data Reach (s : System A) : System A → Type 0 where
    here : Reach s s
    next : {t u : System A} → Reach s t → Step t u → Reach s u

  -- While the queue runs, each message has a permit, a post that is due, or a thread that holds its
  -- permit. Once it is stopped, each thread that has not ended has one.
  pub record IsServed (s : System A) : Type 0 where
    pub messages :
        s.deque.stopped ≡ false
        → s.deque.sem + s.posts + sum_by holds s.threads ≡ length s.deque.messages
    pub released :
        s.deque.stopped ≡ true
        → sum_by is_alive s.threads ≤ s.deque.sem + s.posts + sum_by holds s.threads

  Step-IsServed : {s t : System A} → Step s t → IsServed s → IsServed t
  unfolding push_locked pop_locked try_wait
  Step-IsServed {s} (pushes m d e) v = ground (arith, length-append s.deque.messages (m ∷ []))
  Step-IsServed {s} stops v = ground (arith, alive_bound s.threads)
  Step-IsServed {s} (posts_one h) v = ground arith
  Step-IsServed {s} (tries k d h e) v = ground (
    arith,
    sum_by-set holds s.threads k free trying h,
    sum_by-set is_alive s.threads k free trying h,
  )
  Step-IsServed {s} (parks k h) v = ground (
    arith,
    sum_by-set holds s.threads k free waiting h,
    sum_by-set is_alive s.threads k free waiting h,
  )
  Step-IsServed {s} (wakes k d h e) v = ground (
    arith,
    sum_by-set holds s.threads k waiting woken h,
    sum_by-set is_alive s.threads k waiting woken h,
  )
  Step-IsServed {s} (takes k p m d h i e) v =
      ground
        (arith, sum_by-set holds s.threads k p free h, sum_by-set is_alive s.threads k p free h)
  Step-IsServed {s} (ends k d h e) v = ground (
    arith,
    sum_by-set holds s.threads k woken ended h,
    sum_by-set is_alive s.threads k woken ended h,
  )
  Step-IsServed {s} (returns k d h e) v = ground (
    arith,
    sum_by-set holds s.threads k trying free h,
    sum_by-set is_alive s.threads k trying free h,
  )

  Reach-IsServed : {s t : System A} → IsServed s → Reach s t → IsServed t
  Reach-IsServed v here = v
  Reach-IsServed v (next p st) = Step-IsServed st (Reach-IsServed v p)

  abbrev pub start : ℕ → System A
  start n = record { deque = create; posts = 0; threads = replicate n free }

  pop_locked_by :
      (d : Deque A) (b : Bool) (l : List A)
      → d.stopped ≡ b
      → d.messages ≡ l
      → (d.stopped ≡ false → 1 ≤ length d.messages)
      → (out : Option A × Deque A) × (pop_locked d ≡ ok out)
  unfolding pop_locked
  pop_locked_by d true l e f h = ((none, d), ground arith)
  pop_locked_by d false [] e f h = absurd (ground (arith, h e))
  pop_locked_by d false (m ∷ l) e f h = ((some m, record d { messages = l }), ground arith)

  pop_locked-holds :
      (d : Deque A)
      → (d.stopped ≡ false → 1 ≤ length d.messages)
      → (out : Option A × Deque A) × (pop_locked d ≡ ok out)
  pop_locked-holds d h = pop_locked_by d d.stopped d.messages refl refl h

  -- However the threads of a pool interleave after it is made: a thread that has a permit never finds
  -- a running queue empty, in `pop` or in `try_pop`; and once the pool is stopped, there is for each
  -- thread that has not ended a permit, a post of one that is due, or a thread that holds one, so that
  -- none is left at the semaphore.
  pub permits_serve :
      (n : ℕ) {s : System A}
      → Reach (start n) s
      → ((k : ℕ) (p : Phase)
          → get_elem? s.threads k ≡ some p
          → holds p ≡ 1
          → (out : Option A × Deque A) × (pop_locked s.deque ≡ ok out))
        × (s.deque.stopped ≡ true
            → sum_by is_alive s.threads ≤ s.deque.sem + s.posts + sum_by holds s.threads)
  unfolding create
  permits_serve n {s} r =
      let v =
        Reach-IsServed
          (record { messages = λ e. omega (arith, holds-replicate n); released = λ e. absurd cc })
          r in
      (
        λ k p h e.
            pop_locked-holds s.deque
              (λ f. omega (arith, v.messages f, holds-bound s.threads k p h e)),
        v.released,
      )
