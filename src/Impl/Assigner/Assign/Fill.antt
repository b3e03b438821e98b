-- ===== src/Impl/Assigner/Assign/Fill.antt =====
-- cpp/streamer/impl/assigner/assigner.cc, `assign`: what one worker takes.
use runai_model_streamer.Prelude.{
  ℕ, zero, suc, ◌+◌, ◌-◌, ◌≤◌, ◌<◌, ◌≡◌, refl, sym, subst, ap, ◌∙◌, List-cases, map, ◌≢◌, ◌⊎◌, inl,
  inr, true, false, List, [], ◌∷◌, ◌++◌, arith, length, length-append, sum_by, All, Bool-cases, ltb,
  if◌then◌else◌, ==_iff, ◌==◌,
}
use runai_model_streamer.Impl.Assigner.Transfer.{FileReadTask, ContiguousTransfer}
use runai_model_streamer.Impl.Assigner.Assign.{
  Cursor, slice, share, is_full, assign_slice, fill, transfers_of,
}
use runai_model_streamer.Impl.Assigner.Assign.Tiles.{
  IsSlice, Tiles, Tiles-append, span, IsAssigned, Ahead, left, IsSound, bare, bare_all,
}

-- After a slice that ends its transfer, the next one is where the worker goes on.
pub next-Ahead : (n : ℕ) (ts : List ContiguousTransfer) → All (λ u. u.tasks ≡ []) ts → Ahead n 0 ts
next-Ahead n [] h = refl
next-Ahead n (t ∷ ts) h = (subst (λ l. Tiles n (span t) 0 l 0) (sym h.0) refl, inr refl, h.1)

-- What a share is: it stays within the transfer and the target, it is empty only if the transfer is,
-- and a share that leaves some of the transfer fills the worker.
share_bounds :
    (target consumed assigned : ℕ) (t : ContiguousTransfer)
    → (consumed < t.size) ⊎ (consumed ≡ 0)
    → assigned ≤ target
    → is_full target t assigned ≡ false
    → let k = share target t consumed assigned in
      (consumed + k ≤ t.size)
      × (assigned + k ≤ target)
      × ((0 < k) ⊎ (t.size ≡ 0))
      × (consumed + k ≢ t.size → (assigned < target) × (assigned + k ≡ target))
unfolding share is_full
share_bounds target consumed assigned t a b f = ground arith

slice-IsSlice :
    (n worker consumed k : ℕ) (t : ContiguousTransfer)
    → worker < n
    → (0 < k) ⊎ (t.size ≡ 0)
    → IsSlice n (span t) consumed (slice worker t consumed k)
unfolding slice
slice-IsSlice n worker consumed k t w h = record {
  worker = w;
  of_file = refl;
  place = refl;
  target = refl;
  filled = h;
}

-- A worker that goes on has either ended a transfer or is at its target.
abbrev Progress : ℕ → Cursor → Cursor → Type 0
Progress target c d =
    (suc (length d.after) ≡ length c.after)
    ⊎ ((length d.after ≡ length c.after) × (c.assigned < target) × (d.assigned ≡ target))

-- What is kept from the cursor `c` to the cursor `d` of one worker.
pub record Kept (n target : ℕ) (c d : Cursor) : Type 0 where
  pub sound : IsSound n d
  pub within : d.assigned ≤ target
  pub total : left d + d.assigned ≡ left c + c.assigned
  pub grows : c.assigned ≤ d.assigned
  pub same : bare_all d ≡ bare_all c

slice-length :
    (n worker consumed k : ℕ) (t : ContiguousTransfer) (l : List FileReadTask)
    → 0 < length (l ++ (slice worker t consumed k ∷ []))
slice-length n worker consumed k t l =
    omega (arith, length-append l (slice worker t consumed k ∷ []))

-- The three ends of a round of the inner loop.
fill_empty :
    (fuel worker target : ℕ) (c : Cursor) → c.after ≡ [] → fill (suc fuel) worker target c ≡ c
unfolding fill
fill_empty fuel worker target c e = ground arith

fill_full :
    (fuel worker target : ℕ) (c : Cursor) (t : ContiguousTransfer) (ts : List ContiguousTransfer)
    → c.after ≡ t ∷ ts
    → is_full target t c.assigned ≡ true
    → fill (suc fuel) worker target c ≡ c
unfolding fill
fill_full fuel worker target c t ts e f = ground arith

fill_next :
    (fuel worker target : ℕ) (c : Cursor) (t : ContiguousTransfer) (ts : List ContiguousTransfer)
    → c.after ≡ t ∷ ts
    → is_full target t c.assigned ≡ false
    → fill (suc fuel) worker target c ≡ fill fuel worker target (assign_slice worker target c t ts)
unfolding fill
fill_next fuel worker target c t ts e f = ground arith

module _ (n worker target : ℕ) (w : worker < n) where
  assign_slice-Kept :
      (c : Cursor) (t : ContiguousTransfer) (ts : List ContiguousTransfer)
      → left c ≡ sum_by (λ u. u.size) (t ∷ ts) - c.consumed
      → length c.after ≡ suc (length ts)
      → bare_all c ≡ transfers_of (map bare c.before) (bare t ∷ map bare ts)
      → c.assigned ≤ target
      → is_full target t c.assigned ≡ false
      → All (IsAssigned n) c.before
      → Ahead n c.consumed (t ∷ ts)
      → Kept n target c (assign_slice worker target c t ts)
        × Progress target c (assign_slice worker target c t ts)
  unfolding assign_slice slice transfers_of
  assign_slice-Kept c t ts e l vector a f b (tiles, low, fresh) =
      let k = share target t c.consumed c.assigned in
      let (in_t, in_w, filled, rest) = share_bounds target c.consumed c.assigned t low a f in
      let s = slice worker t c.consumed k in
      let more : Tiles n (span t) 0 (t.tasks ++ (s ∷ [])) (c.consumed + k) =
        Tiles-append n (span t) 0 c.consumed t.tasks s tiles
          (slice-IsSlice n worker c.consumed k t w filled) in
      elim (Bool-cases (c.consumed + k == t.size)) [
        | inl g ↦
            let done : c.consumed + k ≡ t.size = (==_iff _ _).0 g in
            rw g (
              record {
                sound = record {
                  behind = (
                    record {
                      some_task = slice-length n worker c.consumed k t t.tasks;
                      tiled = subst (Tiles n (span t) 0 (t.tasks ++ (s ∷ []))) done more;
                    },
                    b,
                  );
                  ahead = next-Ahead n ts fresh;
                };
                within = in_w;
                total = omega arith;
                grows = omega arith;
                same = sym vector;
              },
              inl (sym l),
            )
        | inr g ↦
            let open_still : c.consumed + k ≢ t.size = ground arith in
            rw g (
              record {
                sound = record { behind = b; ahead = (more, inl (omega arith), fresh) };
                within = in_w;
                total = omega arith;
                grows = omega arith;
                same = sym vector;
              },
              inr (sym l, (rest open_still).0, (rest open_still).1),
            )
      ]

  Kept-refl : (c : Cursor) → c.assigned ≤ target → IsSound n c → Kept n target c c
  Kept-refl c a v = record { sound = v; within = a; total = refl; grows = omega arith; same = refl }

  Kept-trans : (c d e : Cursor) → Kept n target c d → Kept n target d e → Kept n target c e
  Kept-trans c d e p q = record {
    sound = q.sound;
    within = q.within;
    total = q.total ∙ p.total;
    grows = omega (arith, p.grows, q.grows);
    same = q.same ∙ p.same;
  }

  -- Where the inner loop ends: no transfer is left, or the worker is full.
  abbrev pub Rests : Cursor → Type 0
  Rests d =
      (d.after ≡ [])
      ⊎ ((t : ContiguousTransfer) × (ts : List ContiguousTransfer) × (d.after ≡ t ∷ ts)
          × (is_full target t d.assigned ≡ true))

  abbrev pub unfilled : ℕ → ℕ
  unfilled assigned = if ltb assigned target then 1 else 0

  pub fill-Kept :
      (fuel : ℕ) (c : Cursor)
      → length c.after + unfilled c.assigned < fuel
      → c.assigned ≤ target
      → IsSound n c
      → Kept n target c (fill fuel worker target c) × Rests (fill fuel worker target c)
  fill-Kept zero c m a v = absurd (omega arith)
  fill-Kept (suc fuel) c m a v = elim (List-cases c.after) [
    | inl e ↦ rw (fill_empty fuel worker target c e) (Kept-refl c a v, inl e)
    | inr (t, ts, e) ↦ elim (Bool-cases (is_full target t c.assigned)) [
      | inl f ↦ rw (fill_full fuel worker target c t ts e f) (Kept-refl c a v, inr (t, ts, e, f))
      | inr f ↦
          let d = assign_slice worker target c t ts in
          let (kept, progress) =
            assign_slice-Kept c t ts (ap (λ l. sum_by (λ u. u.size) l - c.consumed) e) (ap length e)
              (ap (λ l. transfers_of (map bare c.before) (map bare l)) e) a f v.behind
              (subst (Ahead n c.consumed) e v.ahead) in
          let (more, rests) =
            fill-Kept fuel d (ground (arith, kept.grows, kept.within)) kept.within kept.sound in
          rw (fill_next fuel worker target c t ts e f) (Kept-trans c d _ kept more, rests)
    ]
  ]
