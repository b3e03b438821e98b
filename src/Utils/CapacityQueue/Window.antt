-- ===== src/Utils/CapacityQueue/Window.antt =====
-- cpp/utils/capacity_queue/capacity_queue.h as its owner drives it: an owner that gives back the
-- costs of the items that it took.
use runai_model_streamer.Prelude.{
  ℕ, ◌+◌, ◌≤◌, ◌<◌, ◌^◌, ◌≡◌, refl, some, List, [], ◌∷◌, ◌++◌, arith, sum, sum_by, sum_by-append,
  add_size-lt, max, ap,
}
use runai_model_streamer.Utils.CapacityQueue.{
  Entry, CapacityQueue, create, enqueue, try_take, complete, clear,
}

-- The queue, and the costs of the items that its owner has taken and not completed.
pub record Owner (T : Type 0) : Type 0 where
  pub queue : CapacityQueue T
  pub taken : List ℕ

abbrev pub maximum : List ℕ → ℕ
maximum [] = 0
maximum (x ∷ xs) = max x (maximum xs)

sum-middle : (xs ys : List ℕ) (c : ℕ) → sum (xs ++ (c ∷ ys)) ≡ c + sum (xs ++ ys)
sum-middle [] ys c = refl
sum-middle (x ∷ xs) ys c = omega (arith, sum-middle xs ys c)

maximum-middle : (xs ys : List ℕ) (c : ℕ) → maximum (xs ++ (c ∷ ys)) ≡ max c (maximum (xs ++ ys))
maximum-middle [] ys c = refl
maximum-middle (x ∷ xs) ys c = omega (arith, maximum-middle xs ys c)

module _ {T : Type 0} where
  abbrev pub waiting_cost : CapacityQueue T → ℕ
  waiting_cost q = sum_by (λ e. e.cost) q.pending

  -- No cost is so large that the sum of all costs in the queue leaves `size_t`.
  pub data Step (s : Owner T) : Owner T → Type 0 where
    enqueues :
        (item : T) (cost : ℕ)
        → s.queue.inflight + waiting_cost s.queue + cost < 2 ^ 64
        → Step s (record s { queue = enqueue s.queue item cost })
    takes :
        (e : Entry T) (rest : List (Entry T)) (q : CapacityQueue T)
        → s.queue.pending ≡ e ∷ rest
        → try_take s.queue ≡ some (e.item, q)
        → Step s (record { queue = q; taken = e.cost ∷ s.taken })
    completes :
        (xs ys : List ℕ) (c : ℕ)
        → s.taken ≡ xs ++ (c ∷ ys)
        → Step s (record { queue = complete s.queue c; taken = xs ++ ys })
    clears : Step s (record { queue = clear s.queue; taken = [] })

  pub data Reach (s : Owner T) : Owner T → Type 0 where
    here : Reach s s
    next : {t u : Owner T} → Reach s t → Step t u → Reach s u

  pub record IsBounded (capacity : ℕ) (s : Owner T) : Type 0 where
    pub fixed : s.queue.capacity ≡ capacity
    pub exact : s.queue.inflight ≡ sum s.taken
    pub window : sum s.taken ≤ max capacity (maximum s.taken)
    pub small : s.queue.inflight + waiting_cost s.queue < 2 ^ 64

  Step-IsBounded : (n : ℕ) {s t : Owner T} → Step s t → IsBounded n s → IsBounded n t
  unfolding enqueue try_take complete clear
  Step-IsBounded n {s} (enqueues item cost h) v = ground (
    arith,
    sum_by-append (λ (e : Entry T). e.cost) s.queue.pending
        (record { item = item; cost = cost } ∷ []),
  )
  Step-IsBounded n {s} (takes e rest q p h) v = ground (arith, add_size-lt s.queue.inflight e.cost)
  Step-IsBounded n {s} (completes xs ys c p) v =
      ground (arith, sum-middle xs ys c, maximum-middle xs ys c, ap sum p, ap maximum p)
  Step-IsBounded n {s} clears v = ground arith

  Reach-IsBounded : (n : ℕ) {s t : Owner T} → IsBounded n s → Reach s t → IsBounded n t
  Reach-IsBounded n v here = v
  Reach-IsBounded n v (next p st) = Step-IsBounded n st (Reach-IsBounded n v p)

  -- An empty window takes the first item; its credit does not wrap.
  take_when_idle :
      (q : CapacityQueue T) (e : Entry T) (rest : List (Entry T))
      → q.inflight ≡ 0
      → q.inflight + waiting_cost q < 2 ^ 64
      → q.pending ≡ e ∷ rest
      → (q' : CapacityQueue T) × (try_take q ≡ some (e.item, q'))
        × (q'.pending ≡ rest)
        × (q'.inflight ≡ e.cost)
  unfolding try_take
  take_when_idle q e rest a b p = (
    record q { pending = rest; inflight = e.cost },
    ground (arith, add_size-lt q.inflight e.cost),
    refl,
    refl,
  )

  abbrev pub start : ℕ → Owner T
  start n = record { queue = create n; taken = [] }

  start-IsBounded : (n : ℕ) → IsBounded n (start n)
  unfolding create
  start-IsBounded n = omega arith

  -- After any calls by an owner that gives back what it took, the credit in use is exactly the cost
  -- of the items in flight. It stays within the capacity, or within the cost of the largest item in
  -- flight, if that alone is above the capacity. While nothing is in flight, an item that waits can
  -- be taken, whatever its cost.
  pub window_holds :
      (n : ℕ) {s : Owner T}
      → Reach (start n) s
      → (s.queue.inflight ≡ sum s.taken)
        × (sum s.taken ≤ max n (maximum s.taken))
        × ((e : Entry T) (rest : List (Entry T))
            → s.taken ≡ []
            → s.queue.pending ≡ e ∷ rest
            → (q : CapacityQueue T) × (try_take s.queue ≡ some (e.item, q))
              × (q.pending ≡ rest)
              × (q.inflight ≡ e.cost))
  window_holds n {s} p =
      let v = Reach-IsBounded n (start-IsBounded n) p in
      (
        v.exact,
        v.window,
        λ e rest a b. take_when_idle s.queue e rest (ground arith) (ground arith) b,
      )
