-- ===== src/Impl/Submissions/Consume.antt =====
-- cpp/streamer/impl/submissions/submissions_mgr.cc, `consume`: over the life of a submission.
use runai_model_streamer.Prelude.{
  ℕ, suc, ◌^◌, ◌<◌, ◌≡◌, ◌≢◌, refl, none, some, List, [], ◌∷◌, arith, ap, ◌∙◌, dec_unsigned, length,
  replicate, ◌++◌,
}
use runai_model_streamer.Prelude.Assoc.{lookup, assign, erase, lookup-assign, lookup-erase}
use runai_model_streamer.Common.Result.{Result, ok, ◌>>=◌}
use runai_model_streamer.Impl.Submissions.{
  Submission, SubmissionsMgr, Outcome, pending, report, consume,
}

-- A run of `consume` of one submission, at the times of the list: the outcomes, oldest first.
unfoldable pub consume_all : SubmissionsMgr → ℕ → List ℕ → Result (List Outcome × SubmissionsMgr)
consume_all m id [] = ok ([], m)
consume_all m id (now ∷ times) = do
  one ← consume m id now
  rest ← consume_all one.1 id times
  ok (one.0 ∷ rest.0, rest.1)

consume-last :
    (m : SubmissionsMgr) (id now : ℕ) (s : Submission)
    → lookup id m.submissions ≡ some s
    → s.remaining ≡ 1
    → consume m id now ≡ ok (report s now, record m { submissions = erase id m.submissions })
unfolding consume dec_unsigned report
consume-last m id now s h e = ground arith

consume-more :
    (m : SubmissionsMgr) (id now n : ℕ) (s : Submission)
    → lookup id m.submissions ≡ some s
    → s.remaining ≡ suc (suc n)
    → suc (suc n) < 2 ^ 32
    → consume m id now
      ≡ ok (
        pending,
        record m { submissions = assign id (record s { remaining = suc n }) m.submissions },
      )
unfolding consume dec_unsigned
consume-more m id now n s h e l = ground arith

-- A run that ends a submission: every outcome but the last is `pending`, the last one is the report
-- of its bytes and time, its entry is gone, and no other entry is changed.
pub record Ends (m : SubmissionsMgr) (id last k : ℕ) (s : Submission)
    (r : List Outcome × SubmissionsMgr) : Type 0 where
  pub outcomes : r.0 ≡ replicate k pending ++ (report s last ∷ [])
  pub forgotten : lookup id r.1.submissions ≡ none
  pub others : (j : ℕ) → j ≢ id → lookup j r.1.submissions ≡ lookup j m.submissions
  pub counter : r.1.next_id ≡ m.next_id

pub consume_all-Ends :
    (times : List ℕ) (m : SubmissionsMgr) (id last : ℕ) (s : Submission)
    → lookup id m.submissions ≡ some s
    → s.remaining ≡ suc (length times)
    → s.remaining < 2 ^ 32
    → (r : List Outcome × SubmissionsMgr) × (consume_all m id (times ++ (last ∷ [])) ≡ ok r)
      × Ends m id last (length times) s r
unfolding consume_all report
consume_all-Ends [] m id last s h e l =
    let m' : SubmissionsMgr = record m { submissions = erase id m.submissions } in
    (
      (report s last ∷ [], m'),
      ap (λ x. x >>= λ one. consume_all one.1 id [] >>= λ rest. ok (one.0 ∷ rest.0, rest.1))
          (consume-last m id last s h e),
      record {
        outcomes = refl;
        forgotten = ground (arith, lookup-erase id id m.submissions);
        others = λ j ne. ground (arith, lookup-erase id j m.submissions);
        counter = refl;
      },
    )
consume_all-Ends (now ∷ times) m id last s h e l =
    let s' : Submission = record s { remaining = suc (length times) } in
    let m' : SubmissionsMgr = record m { submissions = assign id s' m.submissions } in
    let there : lookup id m'.submissions ≡ some s' =
      ground (arith, lookup-assign id id s' s m.submissions) in
    let (r, run, ends) = consume_all-Ends times m' id last s' there refl (omega arith) in
    (
      (pending ∷ r.0, r.1),
      ap
            (λ x. x >>= λ one.
              consume_all one.1 id (times ++ (last ∷ [])) >>= λ rest. ok (one.0 ∷ rest.0, rest.1))
            (consume-more m id now (length times) s h e (omega arith))
          ∙ ap (λ x. x >>= λ rest. ok (pending ∷ rest.0, rest.1)) run,
      record {
        outcomes = ap (λ x. pending ∷ x) ends.outcomes;
        forgotten = ends.forgotten;
        others = λ j ne. ends.others j ne ∙ ground (arith, lookup-assign id j s' s m.submissions);
        counter = ends.counter;
      },
    )
