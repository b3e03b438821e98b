-- ===== src/Tests/Windows.antt =====
-- The queue with bounded cost, at a concrete run.
use runai_model_streamer.Prelude.{ℕ, ◌≤◌, ◌≡◌, refl, some, List, [], ◌∷◌, arith, sum, max, add_size}
use runai_model_streamer.Utils.CapacityQueue.{Entry, CapacityQueue, create, enqueue, try_take}
use runai_model_streamer.Utils.CapacityQueue.Window.{
  Owner, maximum, Reach, here, next, enqueues, takes, start, window_holds,
}

-- One item of cost 9 in flight, above the capacity of 4, and one of cost 1 that waits.
abbrev windowed : Owner ℕ
windowed = record {
  queue = record { capacity = 4; inflight = 9; pending = record { item = 6; cost = 1 } ∷ [] };
  taken = 9 ∷ [];
}

windowed-Reach : Reach (start 4) windowed
unfolding create enqueue try_take add_size
windowed-Reach =
    next (next (next here (enqueues 5 9 (omega arith))) (enqueues 6 1 (omega arith)))
      (takes (record { item = 5; cost = 9 }) (record { item = 6; cost = 1 } ∷ []) _ refl refl)

window_holds_example :
    (windowed.queue.inflight ≡ sum windowed.taken)
    × (sum windowed.taken ≤ max 4 (maximum windowed.taken))
    × ((e : Entry ℕ) (rest : List (Entry ℕ))
        → windowed.taken ≡ []
        → windowed.queue.pending ≡ e ∷ rest
        → (q : CapacityQueue ℕ) × (try_take windowed.queue ≡ some (e.item, q))
          × (q.pending ≡ rest)
          × (q.inflight ≡ e.cost))
window_holds_example = window_holds 4 windowed-Reach
