-- ===== src/Utils/CapacityQueue.antt =====
-- cpp/utils/capacity_queue/capacity_queue.h: a queue of pending items with a bound on the cost that
-- is in flight.
pub mod Window
use runai_model_streamer.Prelude.{
  ℕ, ◌+◌, ◌-◌, ◌≡◌, Bool, true, false, ◌&&◌, not, Option, none, some, List, [], ◌∷◌, ◌++◌, ltb, leb,
  ◌==◌, if◌then◌else◌, add_size, length,
}

pub record Entry (T : Type 0) : Type 0 where
  pub item : T
  pub cost : ℕ

pub record CapacityQueue (T : Type 0) : Type 0 where
  pub capacity : ℕ
  pub inflight : ℕ
  pub pending : List (Entry T)

module _ {T : Type 0} where
  unfoldable pub create : ℕ → CapacityQueue T
  create capacity = record { capacity = capacity; inflight = 0; pending = [] }

  unfoldable pub enqueue : CapacityQueue T → T → ℕ → CapacityQueue T
  enqueue q item cost = record q {
    pending = q.pending ++ (record { item = item; cost = cost } ∷ []);
  }

  unfoldable pub try_take : CapacityQueue T → Option (T × CapacityQueue T)
  try_take q = elim q.pending [
    | [] ↦ none
    | e ∷ rest ↦
        if not (q.inflight == 0) && ltb q.capacity (add_size q.inflight e.cost)
        then none
        else some (e.item, record q { pending = rest; inflight = add_size q.inflight e.cost })
  ]

  unfoldable pub complete : CapacityQueue T → ℕ → CapacityQueue T
  complete q cost = record q { inflight = if leb cost q.inflight then q.inflight - cost else 0 }

  unfoldable pub clear : CapacityQueue T → CapacityQueue T
  clear q = record q { pending = []; inflight = 0 }

  unfoldable pub is_empty : CapacityQueue T → Bool
  is_empty q = elim q.pending [ [] ↦ true | _ ∷ _ ↦ false ]

  unfoldable pub is_idle : CapacityQueue T → Bool
  unfolding is_empty
  is_idle q = is_empty q && (q.inflight == 0)
