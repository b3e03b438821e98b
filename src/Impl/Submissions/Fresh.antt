-- ===== src/Impl/Submissions/Fresh.antt =====
-- cpp/streamer/impl/submissions/submissions_mgr.cc, `generate`: its loop and the id it ends with.
use runai_model_streamer.Prelude.{
  ℕ, zero, suc, ◌+◌, ◌-◌, ◌%◌, ◌^◌, ◌≤◌, ◌<◌, ◌≡◌, ◌≢◌, ◌⊎◌, inl, inr, refl, sym, true, false, none,
  some, List, [], ◌∷◌, arith, ◌∙◌, ◌==◌, ==_iff, add_size, Bool-cases, length,
}
use runai_model_streamer.Prelude.Assoc.{lookup, erase, is_some, lookup-erase}
use runai_model_streamer.Impl.Submissions.{
  Submission, SubmissionsMgr, next_candidate, generate_on, generate,
}

-- How far a counter is below an id, around the wrap.
abbrev offset : ℕ → ℕ → ℕ
offset id n = (id + 2 ^ 64 - n) % 2 ^ 64

-- An id that the next rounds do not come to: they take one step each, and one more if they pass 0.
abbrev Avoids : ℕ → ℕ → ℕ → Type 0
Avoids fuel id n =
    (n < 2 ^ 64)
    × (id < 2 ^ 64)
    × ((fuel + 1 < offset id n) ⊎ ((fuel < offset id n) × (0 < n) × (n + fuel < 2 ^ 64)))

candidate_parts :
    (n : ℕ)
    → let c = next_candidate n in
      ((n ≡ 0) × (c.0 ≡ 1) × (c.1 ≡ 2)) ⊎ ((0 < n) × (c.0 ≡ n) × (c.1 ≡ (n + 1) % 2 ^ 64))
unfolding next_candidate add_size
candidate_parts n = elim (Bool-cases (n == 0)) [
  | inl e ↦ let z : n ≡ 0 = (==_iff n 0).0 e in rw z (inl (refl, refl, refl))
  | inr e ↦ rw e (inr (ground arith, refl, refl))
]

candidate_lem :
    (fuel id n : ℕ)
    → Avoids (suc fuel) id n
    → ((next_candidate n).0 ≢ id) × Avoids fuel id (next_candidate n).1
candidate_lem fuel id n h = ground (arith, candidate_parts n)

length-erase-le : (k : ℕ) (m : List (ℕ × Submission)) → length (erase k m) ≤ length m
unfolding erase
length-erase-le k [] = omega arith
length-erase-le k ((j, v) ∷ m) = ground (arith, length-erase-le k m)

length-erase-lt :
    (k : ℕ) (m : List (ℕ × Submission))
    → is_some (lookup k m) ≡ true
    → length (erase k m) < length m
unfolding erase lookup
length-erase-lt k [] h = absurd (cc)
length-erase-lt k ((j, v) ∷ m) h = ground (arith, length-erase-le k m, length-erase-lt k m)

-- A live id that no round comes to makes no difference to the loop.
generate_on-erase :
    (fuel id n : ℕ) (live : List (ℕ × Submission))
    → Avoids fuel id n
    → generate_on fuel n (erase id live) ≡ generate_on fuel n live
unfolding generate_on
generate_on-erase zero id n live h = refl
generate_on-erase (suc fuel) id n live h =
    let (other, more) = candidate_lem fuel id n h in
    ground (
      arith,
      lookup-erase id (next_candidate n).0 live,
      generate_on-erase fuel id (next_candidate n).1 live more,
    )

-- The candidate is not come to again.
passed :
    (fuel n : ℕ)
    → n < 2 ^ 64
    → fuel + 2 < 2 ^ 64
    → Avoids fuel (next_candidate n).0 (next_candidate n).1
passed fuel n h k = ground (arith, candidate_parts n)

generate_on-some :
    (fuel n : ℕ) (live : List (ℕ × Submission))
    → n < 2 ^ 64
    → length live < fuel
    → fuel + 1 < 2 ^ 64
    → (r : ℕ × ℕ) × (generate_on fuel n live ≡ some r)
unfolding generate_on
generate_on-some zero n live h l k = absurd (omega arith)
generate_on-some (suc fuel) n live h l k =
    let id = (next_candidate n).0 in
    elim (Bool-cases (is_some (lookup id live))) [
      | inr e ↦ (next_candidate n, rw e refl)
      | inl e ↦
          let (low, _, _) = passed fuel n h (omega arith) in
          let (r, g) =
            generate_on-some fuel (next_candidate n).1 (erase id live) low
              (omega (arith, length-erase-lt id live e)) (omega arith) in
          (
            r,
            rw e (
                sym (
                  generate_on-erase fuel id (next_candidate n).1 live
                    (passed fuel n h (omega arith)))
                ∙ g),
          )
    ]

generate_on-fresh :
    (fuel n : ℕ) (live : List (ℕ × Submission)) (id n' : ℕ)
    → n < 2 ^ 64
    → generate_on fuel n live ≡ some (id, n')
    → (is_some (lookup id live) ≡ false) × (0 < id) × (id < 2 ^ 64) × (n' < 2 ^ 64)
unfolding generate_on
generate_on-fresh zero n live id n' h e = absurd cc
generate_on-fresh (suc fuel) n live id n' h e =
    ground (arith, candidate_parts n, generate_on-fresh fuel (next_candidate n).1 live id n')

generate_of :
    (m : SubmissionsMgr) (id n : ℕ)
    → generate_on (suc (length m.submissions)) m.next_id m.submissions ≡ some (id, n)
    → generate m ≡ some (id, record m { next_id = n })
unfolding generate
generate_of m id n e = rw (e, generate) refl

-- While less than 2^64 - 3 submissions are live, the loop of `generate` ends: it gives an id that is
-- not 0 and not live. The live submissions are as before, and the counter is a number of 64 bits
-- again, as it was.
pub generate-fresh :
    (m : SubmissionsMgr)
    → m.next_id < 2 ^ 64
    → length m.submissions < 2 ^ 64 - 3
    → (id : ℕ) × (m' : SubmissionsMgr) × (generate m ≡ some (id, m'))
      × (lookup id m.submissions ≡ none)
      × (0 < id)
      × (id < 2 ^ 64)
      × (m'.next_id < 2 ^ 64)
      × (m'.submissions ≡ m.submissions)
generate-fresh m h k =
    let ((id, n), e) =
      generate_on-some (suc (length m.submissions)) m.next_id m.submissions h (omega arith)
        (omega arith) in
    let (a, b, c, d) =
      generate_on-fresh (suc (length m.submissions)) m.next_id m.submissions id n h e in
    (id, record m { next_id = n }, generate_of m id n e, ground arith, b, c, d, refl)
