-- ===== src/Impl/Batches/Split/Consume.antt =====
-- cpp/streamer/impl/batches/batches.cc, `consume`: what one call gives.
use runai_model_streamer.Prelude.{
  ℕ, suc, ◌+◌, ◌-◌, ◌^◌, ◌≤◌, ◌<◌, ◌≡◌, refl, ap, inl, inr, true, false, Bool-cases, arith, ◌==◌,
  ◌&&◌, not, add_unsigned, sum_by, length, drop, get_elem?, drop-get_elem?, min, some,
}
use runai_model_streamer.Common.Result.{ok}
use runai_model_streamer.Impl.Assigner.Transfer.{FileReadTask}
use runai_model_streamer.Impl.Batches.{BatchItr, read_task, next_worker, consume}

-- The bytes that the iterator has yet to give.
abbrev pub available : BatchItr → ℕ
available itr =
    itr.current_worker_bytesize
    + sum_by (λ t. t.size) (drop (suc itr.current_task_index) itr.file_read_tasks)

pub record IsInside (itr : BatchItr) : Type 0 where
  pub inside : itr.current_task_index < length itr.file_read_tasks
  pub small : length itr.file_read_tasks < 2 ^ 32

-- What one call of `consume` does: it gives `r` of the bytes asked for, from this worker or the next.
pub record Consumed (itr : BatchItr) (n r : ℕ) (at : BatchItr) : Type 0 where
  pub given : r ≤ n
  pub left : available at + r ≡ available itr
  pub used_up : r < n → at.current_worker_bytesize ≡ 0
  pub tasks : at.file_read_tasks ≡ itr.file_read_tasks
  pub valid : IsInside at
  pub forward : itr.current_task_index ≤ at.current_task_index
  pub turned :
      itr.current_worker_bytesize ≡ 0 → 0 < n → at.current_task_index ≡ suc itr.current_task_index

pub next_worker_lem :
    (itr : BatchItr) (t : FileReadTask)
    → IsInside itr
    → get_elem? itr.file_read_tasks (suc itr.current_task_index) ≡ some t
    → next_worker itr
      ≡ ok (record itr {
        current_task_index = suc itr.current_task_index;
        current_workload_index = t.workload_index;
        current_worker_bytesize = t.size;
      })
unfolding next_worker read_task add_unsigned
next_worker_lem itr t v e =
    let i : add_unsigned itr.current_task_index 1 ≡ suc itr.current_task_index =
      omega (arith, v.inside, v.small) in
    rw (i, next_worker) (rw (e, read_task) refl)

pub consume_stay :
    (itr : BatchItr) (n : ℕ)
    → (itr.current_worker_bytesize == 0) && not (n == 0) ≡ false
    → let r = min itr.current_worker_bytesize n in
      consume itr n
      ≡ ok (r, record itr { current_worker_bytesize = itr.current_worker_bytesize - r })
unfolding consume
consume_stay itr n e = rw (e, consume) refl

pub consume_turn :
    (itr at : BatchItr) (n : ℕ)
    → (itr.current_worker_bytesize == 0) && not (n == 0) ≡ true
    → next_worker itr ≡ ok at
    → let r = min at.current_worker_bytesize n in
      consume itr n ≡ ok (r, record at { current_worker_bytesize = at.current_worker_bytesize - r })
unfolding consume
consume_turn itr at n e f = rw (e, f, consume) refl

pub consume-Consumed :
    (itr : BatchItr) (n : ℕ)
    → IsInside itr
    → n ≤ available itr
    → (r : ℕ) × (at : BatchItr) × (consume itr n ≡ ok (r, at)) × Consumed itr n r at
consume-Consumed itr n v h =
    elim (Bool-cases ((itr.current_worker_bytesize == 0) && not (n == 0))) [
      | inr e ↦ (
        _,
        _,
        consume_stay itr n e,
        record {
          given = omega arith;
          left = omega arith;
          used_up = λ l. omega arith;
          tasks = refl;
          valid = record { inside = v.inside; small = v.small };
          forward = omega arith;
          turned = λ z p. absurd (ground arith);
        },
      )
      | inl e ↦ elim (drop-get_elem? (suc itr.current_task_index) itr.file_read_tasks) [
        | inl f ↦ absurd (ground (arith, ap (λ ts. sum_by (λ t. t.size) ts) f))
        | inr (t, f, g, l) ↦
            let s : available itr
                ≡ itr.current_worker_bytesize
                  + (t.size
                      + sum_by (λ t. t.size)
                          (drop (suc (suc itr.current_task_index)) itr.file_read_tasks)) =
              ap (λ ts. itr.current_worker_bytesize + sum_by (λ t. t.size) ts) g in
            let z : itr.current_worker_bytesize ≡ 0 = ground arith in
            (
              _,
              _,
              consume_turn itr _ n e (next_worker_lem itr t v f),
              record {
                given = omega arith;
                left = omega arith;
                used_up = λ l. omega arith;
                tasks = refl;
                valid = record { inside = l; small = v.small };
                forward = omega arith;
                turned = λ z p. refl;
              },
            )
      ]
    ]
