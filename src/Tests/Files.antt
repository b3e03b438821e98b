-- ===== src/Tests/Files.antt =====
-- Reads of a file, at a concrete input.
use runai_model_streamer.Prelude.{
  ℕ, zero, suc, ◌≤◌, ◌<◌, ◌≡◌, refl, true, List, [], ◌∷◌, take, drop, length, take-append-drop,
  arith,
}
use runai_model_streamer.Utils.Fd.{OsRead, got, exactly, read}
use runai_model_streamer.Utils.Fd.Reads.{gives, ReadsFile, HasRead, read-HasRead}

-- A file that is the list of its bytes, and gives as many as there are.
abbrev plain_read : ℕ → List ℕ → OsRead × List ℕ
plain_read count s = (got (take count s), drop count s)

length-take-le : (n : ℕ) (xs : List ℕ) → length (take n xs) ≤ n
length-take-le zero xs = omega arith
length-take-le (suc n) [] = omega arith
length-take-le (suc n) (x ∷ xs) = omega (arith, length-take-le n xs)

take-nil : (n : ℕ) (xs : List ℕ) → 0 < n → take n xs ≡ [] → xs ≡ []
take-nil zero xs h e = absurd (omega arith)
take-nil (suc n) [] h e = refl
take-nil (suc n) (x ∷ xs) h e = cc

plain_file : ReadsFile plain_read
plain_file = record {
  rest = λ s. s;
  signals = λ s. 0;
  reliable = true;
  law = λ count s h.
      gives (take-append-drop count s) (length-take-le count s) (λ e. take-nil count s h e)
        (omega arith);
}

read-HasRead_example :
    let (out, s') = read plain_read 6 5 exactly 2 (1 ∷ 2 ∷ 3 ∷ 4 ∷ 5 ∷ 6 ∷ []) in
    HasRead true 5 exactly (1 ∷ 2 ∷ 3 ∷ 4 ∷ 5 ∷ 6 ∷ []) out s'
unfolding plain_file
read-HasRead_example =
    read-HasRead plain_read plain_file 6 5 exactly 2 (1 ∷ 2 ∷ 3 ∷ 4 ∷ 5 ∷ 6 ∷ []) (omega arith)
      (omega arith)
