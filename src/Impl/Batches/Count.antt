-- ===== src/Impl/Batches/Count.antt =====
-- cpp/streamer/impl/batches/batches.cc, `build_tasks`: the count of the tasks of a request.
use runai_model_streamer.Prelude.{
  ℕ, zero, suc, ◌+◌, ◌^◌, ◌≤◌, ◌<◌, ◌≡◌, refl, sym, ap, subst, ◌∙◌, ◌≢◌, List, [], ◌∷◌, arith, All,
  ◌==◌, if◌then◌else◌, add_size, add_unsigned, sum_by, sum, length,
}
use runai_model_streamer.Common.Result.{ok, ◌>>=◌}
use runai_model_streamer.Impl.Request.{Request, Heap, update}
use runai_model_streamer.Impl.Request
use runai_model_streamer.Impl.Task.{Task, Info}
use runai_model_streamer.Impl.Task
use runai_model_streamer.Impl.Batch.Account.{pending, pending-append}
use runai_model_streamer.Impl.Batches.{
  BatchItr, split_request, enough, append_at, create_tasks, Building, handle_request,
  handle_requests,
}
use runai_model_streamer.Impl.Batches.Split.Consume.{available, IsInside}
use runai_model_streamer.Impl.Batches.Split.{Ascends, range-Splits}

-- The unfinished tasks of the request at `p`, over all workers.
abbrev pub pending_all : ℕ → List (List Task) → ℕ
pending_all p = sum_by (pending p)

append_at_lem :
    (tss : List (List Task)) (k : ℕ) (t : Task)
    → k < length tss
    → (r : List (List Task)) × (append_at tss k t ≡ ok r)
      × (length r ≡ length tss)
      × ((p : ℕ) → pending_all p r ≡ pending_all p tss + pending p (t ∷ []))
unfolding append_at
append_at_lem [] k t h = absurd (omega arith)
append_at_lem (ts ∷ tss) zero t h =
    (_, refl, refl, λ p. omega (arith, pending-append p ts (t ∷ [])))
append_at_lem (ts ∷ tss) (suc k) t h =
    let (r, e, l, c) = append_at_lem tss k t (omega arith) in
    (ts ∷ r, rw e refl, ap suc l, λ p. omega (arith, c p))

pending-create : (p q : ℕ) (i : Info) → pending q (Task.create p i ∷ []) ≡ (if p == q then 1 else 0)
unfolding Task.create
pending-create p q i = ground arith

create_tasks_lem :
    (p : ℕ) (is : List (ℕ × Info)) (tss : List (List Task))
    → All (λ e. e.0 < length tss) is
    → (r : List (List Task)) × (create_tasks p is tss ≡ ok r)
      × (length r ≡ length tss)
      × ((q : ℕ) → pending_all q r ≡ pending_all q tss + (if p == q then length is else 0))
unfolding create_tasks
create_tasks_lem p [] tss h = (tss, refl, refl, λ q. ground arith)
create_tasks_lem p ((k, i) ∷ is) tss (h, hs) =
    let (one, e, l, c) = append_at_lem tss k (Task.create p i) h in
    let (r, f, m, d) = create_tasks_lem p is one (subst (λ n. All (λ e. e.0 < n) is) (sym l) hs) in
    (r, rw e f, m ∙ l, λ q. ground (arith, c q, d q, pending-create p q i))

Ascends-All :
    (lo hi n : ℕ) (is : List (ℕ × Info))
    → Ascends lo is hi
    → hi ≤ n
    → All (λ e. e.0 < n) is × (lo + length is ≤ n)
Ascends-All lo hi n [] a h = (tt, omega arith)
Ascends-All lo hi n ((k, i) ∷ is) (a, more) h =
    let (b, l) = Ascends-All (suc k) hi n is more h in ((omega arith, b), omega arith)

-- The state of `build_tasks` is sound: there is a list of tasks for each worker; and every request
-- that was made, at an address from `base` on, counts its tasks.
pub record IsCounted (base : ℕ) (s : Building) : Type 0 where
  pub valid : IsInside s.itr
  pub lists : length s.v_tasks ≡ length s.itr.file_read_tasks
  pub after_base : base ≤ s.next
  pub counted : (q : ℕ) → base ≤ q → q < s.next → (s.heap q).tasks ≡ pending_all q s.v_tasks
  pub some_task :
      (q : ℕ) → base ≤ q → q < s.next → (0 < (s.heap q).tasks) × ((s.heap q).tasks < 2 ^ 32)
  pub unused : (q : ℕ) → s.next ≤ q → pending_all q s.v_tasks ≡ 0

-- The state after a range of `n` bytes.
record Handled (base file i o n dst : ℕ) (s t : Building) : Type 0 where
  sound : IsCounted base t
  next : t.next ≡ suc s.next
  left : available t.itr + n ≡ available s.itr
  made : t.heap s.next ≡ Request.create o file i (t.heap s.next).tasks n dst
  others : (q : ℕ) → q ≢ s.next → t.heap q ≡ s.heap q

handled :
    (file i o n dst : ℕ) (s : Building) (at : BatchItr) (infos : List (ℕ × Info))
    (tasks : List (List Task))
    → split_request (enough s.itr) s.itr o n 0 [] ≡ ok (at, infos)
    → create_tasks s.next infos s.v_tasks ≡ ok tasks
    → handle_request file i o n dst s
      ≡ ok (record {
        itr = at;
        v_tasks = tasks;
        heap = update s.heap s.next (Request.create o file i (length infos) n dst);
        next = suc s.next;
      })
unfolding handle_request
handled file i o n dst s at infos tasks e f = rw (e, handle_request) (rw (f, ◌>>=◌) refl)

handle_request-Handled :
    (base file i o n dst : ℕ) (s : Building)
    → IsCounted base s
    → n ≤ available s.itr
    → (t : Building) × (handle_request file i o n dst s ≡ ok t) × Handled base file i o n dst s t
unfolding Request.create
handle_request-Handled base file i o n dst s v h =
    let (at, infos, e, split) = range-Splits s.itr o n v.valid h in
    let bound : suc at.current_task_index ≤ length s.v_tasks =
      omega (arith, split.valid.inside, ap length split.tasks, v.lists) in
    let (inside, few) =
      Ascends-All s.itr.current_task_index (suc at.current_task_index) (length s.v_tasks) infos
        split.ascends bound in
    let (tasks, f, l, c) = create_tasks_lem s.next infos s.v_tasks inside in
    (
      _,
      handled file i o n dst s at infos tasks e f,
      record {
        sound = record {
          valid = split.valid;
          lists = omega (arith, ap length split.tasks, v.lists);
          after_base = omega (arith, v.after_base);
          counted = λ q b k. ground (arith, c q, v.counted q b, v.unused q);
          some_task = λ q b k.
              ground (arith, v.some_task q b, split.some_piece, few, v.lists, v.valid.small);
          unused = λ q k. ground (arith, c q, v.unused q);
        };
        next = refl;
        left = split.left;
        made = ground arith;
        others = λ q ne. ground arith;
      },
    )

-- The requests of consecutive ranges, at consecutive addresses from `p` on: each has its place in the
-- file and in the destination, its size, and its index in the file.
abbrev pub Made : ℕ → ℕ → ℕ → ℕ → ℕ → List ℕ → Heap → Type 0
Made file p i o dst [] h = Unit
Made file p i o dst (n ∷ ns) h =
    (h p ≡ Request.create o file i (h p).tasks n dst)
    × Made file (suc p) (add_unsigned i 1) (add_size o n) (add_size dst n) ns h

-- The state after the ranges `ns`.
pub record Built (base file i o dst : ℕ) (ns : List ℕ) (s t : Building) : Type 0 where
  pub sound : IsCounted base t
  pub next : t.next ≡ s.next + length ns
  pub left : available t.itr + sum ns ≡ available s.itr
  pub made : Made file s.next i o dst ns t.heap
  pub others : (q : ℕ) → q < s.next → t.heap q ≡ s.heap q

-- Ranges that the iterator has the bytes of, from a sound state: the loop of `build_tasks` succeeds.
-- Its state is sound again: every request made counts exactly the tasks that are made for it, one at
-- least. There is one request for each range, with its index, place and size; the requests that were
-- there are as before, and the iterator has given exactly the bytes of the ranges.
pub handle_requests-Built :
    (ns : List ℕ) (base file i o dst : ℕ) (s : Building)
    → IsCounted base s
    → sum ns ≤ available s.itr
    → (t : Building) × (handle_requests file i o dst ns s ≡ ok t) × Built base file i o dst ns s t
unfolding handle_requests
handle_requests-Built [] base file i o dst s v h = (
  s,
  refl,
  record { sound = v; next = omega arith; left = omega arith; made = tt; others = λ q k. refl },
)
handle_requests-Built (n ∷ ns) base file i o dst s v h =
    let (t, e, one) = handle_request-Handled base file i o n dst s v (omega arith) in
    let (u, f, more) =
      handle_requests-Built ns base file (add_unsigned i 1) (add_size o n) (add_size dst n) t
        one.sound (omega (arith, one.left)) in
    (
      u,
      rw (e, ◌>>=◌) f,
      record {
        sound = more.sound;
        next = omega (arith, one.next, more.next);
        left = omega (arith, one.left, more.left);
        made = (
          subst (λ (r : Request). r ≡ Request.create o file i r.tasks n dst)
              (sym (more.others s.next (omega (arith, one.next)))) one.made,
          subst (λ p. Made file p (add_unsigned i 1) (add_size o n) (add_size dst n) ns u.heap)
              one.next more.made,
        );
        others = λ q k. more.others q (omega (arith, one.next)) ∙ one.others q (omega arith);
      },
    )
