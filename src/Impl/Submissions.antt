-- ===== src/Impl/Submissions.antt =====
-- cpp/streamer/impl/submissions/submissions_mgr.h and submissions_mgr.cc: the ids of submissions and,
-- for each live one, how many responses are left to consume. The clock is an argument, in
-- nanoseconds.
pub mod Consume
pub mod Fresh
use runai_model_streamer.Prelude.{
  ℕ, zero, suc, ◌+◌, ◌-◌, ◌*◌, ◌/◌, ◌%◌, ◌^◌, ◌≡◌, Bool, true, false, not, Option, none, some, List,
  [], ◌∷◌, ltb, ◌==◌, if◌then◌else◌, dec_unsigned, add_size, length,
}
use runai_model_streamer.Prelude.Assoc.{lookup, emplace, assign, erase, is_some}
use runai_model_streamer.Common.Result.{Result, ok, err, assertion, assert, ◌>>=◌, ◌>>◌}

pub record Submission : Type 0 where
  pub remaining : ℕ
  pub total_bytes : ℕ
  pub submit_time : ℕ

-- `submissions` is the std::map `_submissions`, and `next_id` the counter.
pub record SubmissionsMgr : Type 0 where
  pub next_id : ℕ
  pub submissions : List (ℕ × Submission)

pub data Outcome : Type 0 where
  pending : Outcome
  completed : (total_bytes elapsed_ms throughput_bps : ℕ) → Outcome

abbrev pub create : SubmissionsMgr
create = record { next_id = 1; submissions = [] }

-- `_next_id++`, on 64 bits.
abbrev pub increment_id : ℕ → ℕ
increment_id n = add_size n 1

-- One round of the loop of `generate`: the id, and the counter after it.
unfoldable pub next_candidate : ℕ → ℕ × ℕ
next_candidate n =
    if n == 0 then (increment_id n, increment_id (increment_id n)) else (n, increment_id n)

-- The loop, on fuel: it goes on while the id is live.
unfoldable pub generate_on : ℕ → ℕ → List (ℕ × Submission) → Option (ℕ × ℕ)
unfolding next_candidate
generate_on zero n live = none
generate_on (suc fuel) n live =
    let (id, n') = next_candidate n in
    let rest = generate_on fuel n' live in if is_some (lookup id live) then rest else some (id, n')

-- One round more than there are live ids is enough.
unfoldable pub generate : SubmissionsMgr → Option (ℕ × SubmissionsMgr)
unfolding generate_on
generate m = elim (generate_on (suc (length m.submissions)) m.next_id m.submissions) [
  | none ↦ none
  | some (id, n) ↦ some (id, record m { next_id = n })
]

unfoldable pub add :
    SubmissionsMgr → (submission_id expected total_bytes now : ℕ) → Result SubmissionsMgr
add m submission_id expected total_bytes now = do
  assert (not (is_some (lookup submission_id m.submissions)))
  ok (record m {
    submissions =
        emplace submission_id
          (record { remaining = expected; total_bytes = total_bytes; submit_time = now })
          m.submissions;
  })

abbrev pub elapsed_between : ℕ → ℕ → ℕ
elapsed_between start now = (now - start) / 1000000

-- The result for the last response. The clock is steady, so the time passed is not below zero, and
-- it fits a `long`; the product wraps as `size_t`.
unfoldable pub report : Submission → ℕ → Outcome
report s now =
    let ms = elapsed_between s.submit_time now in
    let throughput = if ltb 0 ms then s.total_bytes * 1000 % 2 ^ 64 / ms else 0 in
    completed s.total_bytes ms throughput

unfoldable pub consume :
    SubmissionsMgr → (submission_id now : ℕ) → Result (Outcome × SubmissionsMgr)
unfolding report
consume m submission_id now = elim (lookup submission_id m.submissions) [
  | none ↦ err assertion
  | some s ↦
      let s' = record s { remaining = dec_unsigned s.remaining } in
      ok (
        if s'.remaining == 0
        then (report s' now, record m { submissions = erase submission_id m.submissions })
        else (pending, record m { submissions = assign submission_id s' m.submissions }))
]

abbrev pub size : SubmissionsMgr → ℕ
size m = length m.submissions
