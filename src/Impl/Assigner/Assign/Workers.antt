-- ===== src/Impl/Assigner/Assign/Workers.antt =====
-- cpp/streamer/impl/assigner/assigner.cc: the whole division. The targets of the workers add up to
-- the total, so the last workload takes what is left, and no later worker gets a slice.
use runai_model_streamer.Prelude.{
  ℕ, zero, suc, ◌+◌, ◌-◌, ◌*◌, ◌/◌, ◌≤◌, ◌<◌, ◌≡◌, refl, sym, subst, ap, ◌∙◌, List-cases, ◌⊎◌, inl,
  inr, Bool, true, List, [], ◌∷◌, arith, sum, sum_by, sum-replicate_zero, All, min, max, map,
  replicate, ==_iff,
}
use runai_model_streamer.Impl.Assigner.Transfer.{ContiguousTransfer}
use runai_model_streamer.Impl.Assigner.Assign.{
  Split, Cursor, is_covered, assign, bytes_per_worker, is_full, fill, enough, target_of,
  assign_workers, transfers_of, unless_done,
}
use runai_model_streamer.Impl.Assigner.Assign.Tiles.{
  IsAssigned, Ahead, left, sum-Tiles, span, map-transfers_of, IsSound, bare, bare_all,
}
use runai_model_streamer.Impl.Assigner.Assign.Fill.{fill-Kept, next-Ahead}
use runai_model_streamer.Common.Result.{ok, assert, ◌>>◌}
use native.Mathlib.Nat.{mul-div-le, div-mul-le_self, le_trans, mul-le-mul_right, mul_assoc}

mul_div_mul-le : (m q b total : ℕ) → q * b ≤ total → m * (q / m * b) ≤ total
mul_div_mul-le m q b total h =
    let a : m * (q / m) * b ≤ q * b = mul-le-mul_right b (mul-div-le q m) in
    le_trans (subst (λ x. x ≤ q * b) (mul_assoc m (q / m) b) a) h

-- The targets of the workloads add up to the total, without going below zero; there is one workload
-- at least, and no more than workers, unless there are no workers.
pub bytes_per_worker_lem :
    (block num_workers total : ℕ)
    → let s = bytes_per_worker block num_workers total in
      (s.num_workloads * s.base + s.remainder ≡ total)
      × (1 ≤ s.num_workloads)
      × (s.num_workloads ≤ max num_workers 1)
unfolding bytes_per_worker
bytes_per_worker_lem block num_workers total =
    let q = total / block in
    let m = max (min q num_workers) 1 in
    let low : q * block ≤ total = div-mul-le_self total block in
    let h : m * (q / m * block) ≤ total = mul_div_mul-le m q block total low in
    (omega (arith, h), omega arith, omega arith)

unless_done_nil {ℓ} :
    {A : Type ℓ} (l : List ContiguousTransfer) (x y : A) → l ≡ [] → unless_done l x y ≡ x
unless_done_nil l x y e = ap (λ k. unless_done k x y) e

unless_done_cons {ℓ} :
    {A : Type ℓ} (l : List ContiguousTransfer) (x y : A) (t : ContiguousTransfer)
    (ts : List ContiguousTransfer)
    → l ≡ t ∷ ts
    → unless_done l x y ≡ y
unless_done_cons l x y t ts e = ap (λ k. unless_done k x y) e

workers_empty :
    (left_workers : ℕ) (s : Split) (worker : ℕ) (c : Cursor)
    → c.after ≡ []
    → assign_workers left_workers s worker c ≡ (c, replicate left_workers 0)
unfolding assign_workers
workers_empty zero s worker c e = refl
workers_empty (suc k) s worker c e = unless_done_nil c.after _ _ e

workers_next :
    (k : ℕ) (s : Split) (worker : ℕ) (c : Cursor) (t : ContiguousTransfer)
    (ts : List ContiguousTransfer)
    → c.after ≡ t ∷ ts
    → let start = record c { assigned = 0 } in
      let d = fill (enough start) worker (target_of s worker) start in
      assign_workers (suc k) s worker c
      ≡ ((assign_workers k s (suc worker) d).0, d.assigned ∷ (assign_workers k s (suc worker) d).1)
unfolding assign_workers
workers_next k s worker c t ts e = unless_done_cons c.after _ _ t ts e

-- What the workers from one on leave.
record Done (n total : ℕ) (vector : List ContiguousTransfer) (r : Cursor × List ℕ) : Type 0 where
  ended : r.0.after ≡ []
  assigned : All (IsAssigned n) r.0.before
  totals : sum r.1 ≡ total
  same : bare_all r.0 ≡ vector

Done-next :
    (n total a : ℕ) (vector : List ContiguousTransfer) (r : Cursor × List ℕ)
    → Done n (total - a) vector r
    → a ≤ total
    → Done n total vector (r.0, a ∷ r.1)
Done-next n total a vector r h le = record {
  ended = h.ended;
  assigned = h.assigned;
  totals = omega (arith, h.totals);
  same = h.same;
}

left-nil : (c : Cursor) → c.after ≡ [] → left c ≡ 0
left-nil c e =
    let h : left c ≡ 0 - c.consumed = ap (λ ts. sum_by (λ t. t.size) ts - c.consumed) e in
    omega (arith, h)

-- A worker that stops before a transfer is at its target, and leaves some bytes.
stopped :
    (n target : ℕ) (d : Cursor) (t : ContiguousTransfer) (ts : List ContiguousTransfer)
    → d.after ≡ t ∷ ts
    → IsSound n d
    → is_full target t d.assigned ≡ true
    → (0 < left d) × (target ≤ d.assigned)
unfolding is_full
stopped n target d t ts e v f =
    let h : left d ≡ t.size + sum_by (λ t. t.size) ts - d.consumed =
      ap (λ us. sum_by (λ t. t.size) us - d.consumed) e in
    let low : (d.consumed < t.size) ⊎ (d.consumed ≡ 0) = (subst (Ahead n d.consumed) e v.ahead).1 in
    ground arith

Done-empty :
    (n total k : ℕ) (vector : List ContiguousTransfer) (c : Cursor)
    → c.after ≡ []
    → IsSound n c
    → left c ≡ total
    → bare_all c ≡ vector
    → Done n total vector (c, replicate k 0)
Done-empty n total k vector c e v l same = record {
  ended = e;
  assigned = v.behind;
  totals = sum-replicate_zero k ∙ (sym (left-nil c e) ∙ l);
  same = same;
}

one_less : (m b : ℕ) → 0 < m * b → (0 < m) × (m * b ≡ b + (m - 1) * b)
one_less zero b h = absurd (omega arith)
one_less (suc m) b h = (omega arith, grind arith)

one_more : (m b : ℕ) → 0 < m → m * b ≡ b + (m - 1) * b
one_more zero b h = absurd (omega arith)
one_more (suc m) b h = grind arith

-- With `k` workers left, the first of them being `w`, and `m` workloads after it.
workers_lem :
    (n k : ℕ) (s : Split) (w m : ℕ) (c : Cursor)
    → n ≡ suc (w + m)
    → m < k
    → left c ≡ target_of s w + m * s.base
    → IsSound n c
    → Done n (left c) (bare_all c) (assign_workers k s w c)
workers_lem n zero s w m c en lt l v = absurd (omega arith)
workers_lem n (suc k) s w m c en lt l v = elim (List-cases c.after) [
  | inl e ↦
      rw (workers_empty (suc k) s w c e)
        (Done-empty n (left c) (suc k) (bare_all c) c e v refl refl)
  | inr (t, ts, e) ↦
      let start : Cursor = record c { assigned = 0 } in
      let d = fill (enough start) w (target_of s w) start in
      let (kept, rests) =
        fill-Kept n w (target_of s w) (omega arith) (enough start) start (ground arith)
          (omega arith) (record { behind = v.behind; ahead = v.ahead }) in
      let tot : left d + d.assigned ≡ left c + 0 = kept.total in
      let rest : Done n (left c - d.assigned) (bare_all c) (assign_workers k s (suc w) d) =
        elim rests [
          | inl g ↦ rw (workers_empty k s (suc w) d g) (
              Done-empty n (left c - d.assigned) k (bare_all c) d g kept.sound (omega arith)
                kept.same)
          | inr (u, us, g, f) ↦
              let (some_left, full) = stopped n (target_of s w) d u us g kept.sound f in
              let (more, rest_of) = one_less m s.base (omega arith) in
              let now : left d ≡ left c - d.assigned = omega arith in
              subst (λ l. Done n l (bare_all c) (assign_workers k s (suc w) d)) now
                (subst (λ v. Done n (left d) v (assign_workers k s (suc w) d)) kept.same
                  (workers_lem n k s (suc w) (m - 1) d (omega arith) (omega arith) (omega arith)
                    kept.sound))
        ] in
      rw (workers_next k s w c t ts e)
        (Done-next n (left c) d.assigned (bare_all c) _ rest (omega arith))
]

asserts-ok {ℓ} :
    {A : Type ℓ} (a b : Bool) (x : A)
    → a ≡ true
    → b ≡ true
    → (assert a >> (assert b >> ok x)) ≡ ok x
asserts-ok a b x e f = ground arith

is_covered-All :
    (n : ℕ) (ts : List ContiguousTransfer) → All (IsAssigned n) ts → is_covered ts ≡ true
unfolding is_covered
is_covered-All n [] h = refl
is_covered-All n (t ∷ ts) (h, hs) =
    let e = sum-Tiles n (span t) 0 t.size t.tasks h.tiled in ground (arith, is_covered-All n ts hs)

All-transfers_of :
    (n : ℕ) (before after : List ContiguousTransfer)
    → All (IsAssigned n) before
    → All (IsAssigned n) after
    → All (IsAssigned n) (transfers_of before after)
unfolding transfers_of
All-transfers_of n [] after b a = a
All-transfers_of n (t ∷ before) after (h, b) a = All-transfers_of n before (t ∷ after) b (h, a)

-- Transfers that have no task yet are all assigned: `assign` returns, with the transfers it was
-- given and in their order; the tasks of each tile it, in order and without a gap, one at least, and
-- each goes to a workload that `bytes_per_worker` counts and that has a worker. No task is empty but
-- that of an empty transfer. The number of workers is not 0, and `total` is the sum of the sizes.
pub assign-IsAssigned :
    (block num_workers total : ℕ) (transfers : List ContiguousTransfer)
    → 0 < num_workers
    → All (λ t. t.tasks ≡ []) transfers
    → sum_by (λ t. t.size) transfers ≡ total
    → let n = (bytes_per_worker block num_workers total).num_workloads in
      (r : List ContiguousTransfer) × (assign block num_workers transfers total ≡ ok r)
      × All (IsAssigned n) r
      × (n ≤ num_workers)
      × (map bare r ≡ map bare transfers)
unfolding assign transfers_of
assign-IsAssigned block num_workers total transfers some_worker fresh sizes =
    let s = bytes_per_worker block num_workers total in
    let n = s.num_workloads in
    let (splits, low, high) = bytes_per_worker_lem block num_workers total in
    let start : Cursor = record { before = []; after = transfers; consumed = 0; assigned = 0 } in
    let out = assign_workers num_workers s 0 start in
    let first : n * s.base ≡ s.base + (n - 1) * s.base = one_more n s.base low in
    let done =
      workers_lem n num_workers s 0 (n - 1) start (omega arith) (omega arith) (omega arith)
        (record { behind = tt; ahead = next-Ahead n transfers fresh }) in
    let totals : sum out.1 ≡ total = omega (arith, done.totals) in
    let before = out.0.before in
    let after = out.0.after in
    let all =
      All-transfers_of n before after done.assigned
        (subst (All (IsAssigned n)) (sym done.ended) tt) in
    (
      transfers_of before after,
      asserts-ok _ _ _ ((==_iff _ _).1 totals) (is_covered-All n _ all),
      all,
      omega arith,
      map-transfers_of before after ∙ done.same,
    )
