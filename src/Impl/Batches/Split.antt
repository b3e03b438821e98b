-- ===== src/Impl/Batches/Split.antt =====
-- cpp/streamer/impl/batches/batches.cc, `handle_request`: its loop splits a range between the workers
-- that have its bytes.
pub mod Consume
use runai_model_streamer.Prelude.{
  ℕ, zero, suc, ◌+◌, ◌-◌, ◌^◌, ◌≤◌, ◌<◌, ◌≡◌, refl, ap, ◌∙◌, ◌⊎◌, inl, inr, true, false, Bool-cases,
  List, [], ◌∷◌, ◌++◌, append_assoc, arith, All, ◌==◌, ◌&&◌, not, if◌then◌else◌, add_size,
  add_unsigned, ltb, sum_by, length, drop, get_elem?, drop-get_elem?, min, some,
}
use runai_model_streamer.Prelude.Assoc.{emplace}
use runai_model_streamer.Common.Result.{ok}
use runai_model_streamer.Impl.Task.{Info, make_info}
use runai_model_streamer.Impl.Assigner.Transfer.{FileReadTask}
use runai_model_streamer.Impl.Batches.{
  BatchItr, read_task, next_worker, consume, split_request, enough,
}
use runai_model_streamer.Impl.Batches.Split.Consume.{
  available, IsInside, Consumed, next_worker_lem, consume_stay, consume_turn, consume-Consumed,
}

-- The infos of a range of `n` bytes from file offset `o`, where `d` bytes of the destination are
-- taken: they tile the range in order, without a gap.
abbrev pub Pieces : ℕ → ℕ → List (ℕ × Info) → ℕ → Type 0
Pieces o d [] n = n ≡ 0
Pieces o d ((k, i) ∷ is) n =
    (i ≡ make_info o i.bytesize d)
    × (i.bytesize ≤ n)
    × Pieces (add_size o i.bytesize) (add_size d i.bytesize) is (n - i.bytesize)

-- Their batches follow one another, from `lo` on and before `hi`.
abbrev pub Ascends : ℕ → List (ℕ × Info) → ℕ → Type 0
Ascends lo [] hi = lo ≤ hi
Ascends lo ((k, i) ∷ is) hi = (lo ≤ k) × Ascends (suc k) is hi

abbrev pub Below : ℕ → List (ℕ × Info) → Type 0
Below k = All (λ e. e.0 < k)

emplace-Below :
    (k : ℕ) (i : Info) (is : List (ℕ × Info)) → Below k is → emplace k i is ≡ is ++ ((k, i) ∷ [])
unfolding emplace
emplace-Below k i [] h = refl
emplace-Below k i ((j, w) ∷ is) h = ground (arith, emplace-Below k i is h.1)

Below-le : (j k : ℕ) (is : List (ℕ × Info)) → j ≤ k → Below j is → Below k is
Below-le j k [] l h = tt
Below-le j k (x ∷ is) l h = (omega arith, Below-le j k is l h.1)

Below-next :
    (j k : ℕ) (i : Info) (is : List (ℕ × Info))
    → j ≤ k
    → Below j is
    → Below (suc k) (is ++ ((k, i) ∷ []))
Below-next j k i [] l h = (omega arith, tt)
Below-next j k i (x ∷ is) l h = (omega arith, Below-next j k i is l h.1)

-- What the loop gives from an iterator: its infos, after those that it had.
pub record Splits (lo : ℕ) (itr at : BatchItr) (o n d : ℕ) (new : List (ℕ × Info)) : Type 0 where
  pub pieces : Pieces o d new n
  pub some_piece : 0 < length new
  pub ascends : Ascends lo new (suc at.current_task_index)
  pub left : available at + n ≡ available itr
  pub tasks : at.file_read_tasks ≡ itr.file_read_tasks
  pub valid : IsInside at

split_end :
    (fuel n r o d : ℕ) (itr at : BatchItr) (infos : List (ℕ × Info))
    → consume itr n ≡ ok (r, at)
    → n ≡ r
    → split_request (suc fuel) itr o n d infos
      ≡ ok (at, emplace at.current_task_index (make_info o r d) infos)
unfolding split_request
split_end fuel n r o d itr at infos e f =
    let z : (n - r == 0) ≡ true = ground arith in rw (e, split_request) (rw (z, if◌then◌else◌) refl)

split_more :
    (fuel n r o d : ℕ) (itr at : BatchItr) (infos : List (ℕ × Info))
    → consume itr n ≡ ok (r, at)
    → r < n
    → split_request (suc fuel) itr o n d infos
      ≡ split_request fuel at
          (add_size o r)
          (n - r)
          (add_size d r)
          (emplace at.current_task_index (make_info o r d) infos)
unfolding split_request
split_more fuel n r o d itr at infos e f =
    let z : (n - r == 0) ≡ false = ground arith in
    rw (e, split_request) (rw (z, if◌then◌else◌) refl)

-- Where a round can go on: from the worker at hand, or from the next one.
abbrev GoesOn : ℕ → ℕ → ℕ → BatchItr → Type 0
GoesOn lo fuel n itr =
    ((lo ≤ itr.current_task_index) × (length itr.file_read_tasks < itr.current_task_index + fuel))
    ⊎ ((lo ≤ suc itr.current_task_index)
        × (itr.current_worker_bytesize ≡ 0)
        × (0 < n)
        × (length itr.file_read_tasks ≤ itr.current_task_index + fuel))

split_request-Splits :
    (fuel lo o n d : ℕ) (itr : BatchItr) (infos : List (ℕ × Info))
    → IsInside itr
    → n ≤ available itr
    → Below lo infos
    → GoesOn lo fuel n itr
    → (at : BatchItr) × (new : List (ℕ × Info)) × (split_request fuel itr o n d infos
        ≡ ok (at, infos ++ new))
      × Splits lo itr at o n d new
unfolding make_info
split_request-Splits zero lo o n d itr infos v h b g = absurd (ground (arith, v.inside))
split_request-Splits (suc fuel) lo o n d itr infos v h b g =
    let (r, at, e, c) = consume-Consumed itr n v h in
    let i = make_info o r d in
    let key : lo ≤ at.current_task_index = ground (arith, c.forward, c.turned) in
    let put : emplace at.current_task_index i infos ≡ infos ++ ((at.current_task_index, i) ∷ []) =
      emplace-Below at.current_task_index i infos (Below-le lo at.current_task_index infos key b) in
    elim (Bool-cases (ltb r n)) [
      | inr f ↦
          let whole : n ≡ r = ground (arith, c.given) in
          (
            at,
            (at.current_task_index, i) ∷ [],
            split_end fuel n r o d itr at infos e whole ∙ ap (λ is. ok (at, is)) put,
            record {
              pieces = (refl, c.given, omega arith);
              some_piece = omega arith;
              ascends = (key, omega arith);
              left = omega (arith, c.left, whole);
              tasks = c.tasks;
              valid = c.valid;
            },
          )
      | inl f ↦
          let less : r < n = ground arith in
          let (end_itr, new, q, s) =
            split_request-Splits fuel (suc at.current_task_index) (add_size o r) (n - r)
              (add_size d r) at (infos ++ ((at.current_task_index, i) ∷ [])) c.valid
              (omega (arith, c.left)) (Below-next lo at.current_task_index i infos key b)
              (inr (
                omega arith,
                c.used_up less,
                omega arith,
                ground (arith, c.forward, c.turned, ap length c.tasks),
              )) in
          (
            end_itr,
            (at.current_task_index, i) ∷ new,
            split_more fuel n r o d itr at infos e less
                ∙ (ap (split_request fuel at (add_size o r) (n - r) (add_size d r)) put
                    ∙ (q
                        ∙ ap (λ is. ok (end_itr, is))
                            (append_assoc infos ((at.current_task_index, i) ∷ []) new))),
            record {
              pieces = (refl, c.given, s.pieces);
              some_piece = omega arith;
              ascends = (key, s.ascends);
              left = omega (arith, c.left, s.left);
              tasks = s.tasks ∙ c.tasks;
              valid = s.valid;
            },
          )
    ]

-- A range of `n` bytes from offset `o` that the iterator still has: the loop ends, with an info at
-- least. The infos are of batches in ascending order, and tile the range, in the file and in the
-- destination. The iterator has given exactly these bytes.
pub range-Splits :
    (itr : BatchItr) (o n : ℕ)
    → IsInside itr
    → n ≤ available itr
    → (at : BatchItr) × (infos : List (ℕ × Info)) × (split_request (enough itr) itr o n 0 []
        ≡ ok (at, infos))
      × Splits itr.current_task_index itr at o n 0 infos
range-Splits itr o n v h =
    split_request-Splits (enough itr) itr.current_task_index o n 0 itr [] v h tt
      (inl (omega arith, omega arith))
