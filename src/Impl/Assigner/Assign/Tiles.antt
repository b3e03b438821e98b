-- ===== src/Impl/Assigner/Assign/Tiles.antt =====
-- What it means that the slices of a transfer cover it.
use runai_model_streamer.Prelude.{
  ℕ, ◌+◌, ◌-◌, ◌<◌, ◌≡◌, refl, sym, subst, ◌⊎◌, List, [], ◌∷◌, ◌++◌, arith, add_size, length,
  sum_by, All, map,
}
use runai_model_streamer.Impl.Assigner.Transfer.{FileReadTask, ContiguousTransfer}
use runai_model_streamer.Impl.Assigner.Assign.{Cursor, transfers_of}

-- Where the bytes of a transfer lie.
pub record Span : Type 0 where
  pub file_index : ℕ
  pub offset : ℕ
  pub destination : ℕ
  pub size : ℕ

abbrev pub span : ContiguousTransfer → Span
span t = record {
  file_index = t.file_index;
  offset = t.offset;
  destination = t.destination;
  size = t.size;
}

-- A slice of `t` for one of `n` workloads, at byte `k` of the transfer. It is empty only if `t` is.
pub record IsSlice (n : ℕ) (t : Span) (k : ℕ) (s : FileReadTask) : Type 0 where
  pub worker : s.workload_index < n
  pub of_file : s.original_file_index ≡ t.file_index
  pub place : s.offset_in_file ≡ add_size t.offset k
  pub target : s.destination ≡ add_size t.destination k
  pub filled : (0 < s.size) ⊎ (t.size ≡ 0)

-- The slices tile bytes `k` to `m` of `t`, in order and without a gap.
abbrev pub Tiles : ℕ → Span → ℕ → List FileReadTask → ℕ → Type 0
Tiles n t k [] m = k ≡ m
Tiles n t k (s ∷ ss) m = IsSlice n t k s × Tiles n t (k + s.size) ss m

pub Tiles-append :
    (n : ℕ) (t : Span) (k m : ℕ) (ss : List FileReadTask) (s : FileReadTask)
    → Tiles n t k ss m
    → IsSlice n t m s
    → Tiles n t k (ss ++ (s ∷ [])) (m + s.size)
Tiles-append n t k m [] s e h = (subst (λ j. IsSlice n t j s) (sym e) h, omega arith)
Tiles-append n t k m (x ∷ ss) s (h, e) g = (h, Tiles-append n t (k + x.size) m ss s e g)

pub sum-Tiles :
    (n : ℕ) (t : Span) (k m : ℕ) (ss : List FileReadTask)
    → Tiles n t k ss m
    → k + sum_by (λ s. s.size) ss ≡ m
sum-Tiles n t k m [] e = omega arith
sum-Tiles n t k m (s ∷ ss) (h, e) = omega (arith, sum-Tiles n t (k + s.size) m ss e)

-- A transfer with all its slices: one at least, and they tile it.
pub record IsAssigned (n : ℕ) (t : ContiguousTransfer) : Type 0 where
  pub some_task : 0 < length t.tasks
  pub tiled : Tiles n (span t) 0 t.tasks t.size

-- The transfers from the current one on: what is consumed of the first is tiled, and is less than
-- all of it; the others have no slice yet.
abbrev pub Ahead : ℕ → ℕ → List ContiguousTransfer → Type 0
Ahead n consumed [] = consumed ≡ 0
Ahead n consumed (t ∷ ts) =
    Tiles n (span t) 0 t.tasks consumed
    × ((consumed < t.size) ⊎ (consumed ≡ 0))
    × All (λ u. u.tasks ≡ []) ts

-- The bytes that no worker has yet.
abbrev pub left : Cursor → ℕ
left c = sum_by (λ t. t.size) c.after - c.consumed

pub record IsSound (n : ℕ) (c : Cursor) : Type 0 where
  pub behind : All (IsAssigned n) c.before
  pub ahead : Ahead n c.consumed c.after

-- A transfer but for its slices.
abbrev pub bare : ContiguousTransfer → ContiguousTransfer
bare t = record t { tasks = [] }

pub map-transfers_of :
    (before after : List ContiguousTransfer)
    → map bare (transfers_of before after) ≡ transfers_of (map bare before) (map bare after)
unfolding transfers_of
map-transfers_of [] after = refl
map-transfers_of (t ∷ before) after = map-transfers_of before (t ∷ after)

-- The vector of a cursor, but for the slices.
abbrev pub bare_all : Cursor → List ContiguousTransfer
bare_all c = transfers_of (map bare c.before) (map bare c.after)
