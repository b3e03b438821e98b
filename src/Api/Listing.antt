-- ===== src/Api/Listing.antt =====
-- cpp/streamer/streamer.cc: `runai_list_files`. The callback is called with each path and size in turn.
use runai_model_streamer.Prelude.{
  ℕ, zero, suc, ◌≡◌, refl, Bool, true, false, Option, none, some, List, [], ◌∷◌, All, Bool-cases,
  inl, inr,
}
use runai_model_streamer.Prelude.Assoc.{is_some}
use runai_model_streamer.Common.ResponseCode.{
  ResponseCode, success, invalid_parameter_error, is_success,
}
use runai_model_streamer.Common.Result.{Result, ok, err, code_of, ◌>>=◌}
use runai_model_streamer.Common.StorageUri.{parse}
use runai_model_streamer.Impl.Streamer.Listing.{
  Store, list_files, listed_objects, as_entries, IsWanted, collect-IsWanted,
}
use runai_model_streamer.Api.{at}

-- So many patterns of an array from the `i`-th on.
unfoldable pub patterns_from : (left i : ℕ) → List (List ℕ) → Result (List (List ℕ))
patterns_from zero i patterns = ok []
patterns_from (suc left) i patterns = do
  p ← at patterns i
  rest ← patterns_from left (suc i) patterns
  ok (p ∷ rest)

-- An array that is null has no pattern, whatever its length is said to be.
abbrev pub patterns_of : Option (List (List ℕ)) → ℕ → Result (List (List ℕ))
patterns_of none n = ok []
patterns_of (some patterns) n = patterns_from n 0 patterns

-- The code, and the calls of the callback.
abbrev pub Listed : Type 0
Listed = ResponseCode × List (List ℕ × ℕ)

abbrev pub reported : Result (List (List ℕ × ℕ)) → Listed
reported (err e) = (code_of e, [])
reported (ok files) = (success, files)

-- `is_given` is whether the streamer and the callback are not null.
unfoldable pub runai_list_files :
    Store
    → (is_given : Bool) → (prefix : Option (List ℕ)) → (is_recursive : Bool)
    → (allow : Option (List (List ℕ))) → (num_allow : ℕ) → (ignore : Option (List (List ℕ)))
    → (num_ignore : ℕ) → Listed
unfolding list_files patterns_from
runai_list_files store false prefix is_recursive allow num_allow ignore num_ignore =
    (invalid_parameter_error, [])
runai_list_files store true none is_recursive allow num_allow ignore num_ignore =
    (invalid_parameter_error, [])
runai_list_files store true (some prefix) is_recursive allow num_allow ignore num_ignore =
    reported (do
      a ← patterns_of allow num_allow
      i ← patterns_of ignore num_ignore
      list_files store prefix is_recursive a i)

-- The callback is called for wanted files only, and only if the listing succeeds.
abbrev pub AreWanted : Store → (allow ignore : List (List ℕ)) → Listed → Type 0
AreWanted store a i r = All (λ f. IsWanted store a i f.0) r.1 × (is_success r.0 ≡ false → r.1 ≡ [])

listed_objects-AreWanted :
    (store : Store) (a i : List (List ℕ)) (out : ResponseCode × List (List ℕ × ℕ))
    → AreWanted store a i (reported (listed_objects store a i out))
listed_objects-AreWanted store a i (ret, entries) = elim (Bool-cases (is_success ret)) [
  | inl e ↦ rw e (collect-IsWanted store a i (as_entries entries), λ h. absurd cc)
  | inr e ↦ rw e (tt, λ h. refl)
]

list_files-AreWanted :
    (store : Store) (prefix : List ℕ) (is_recursive : Bool) (a i : List (List ℕ))
    → AreWanted store a i (reported (list_files store prefix is_recursive a i))
unfolding list_files
list_files-AreWanted store prefix is_recursive a i = elim (Bool-cases (is_some (parse prefix))) [
  | inl e ↦
      rw (e, list_files)
        (listed_objects-AreWanted store a i (store.list_objects prefix is_recursive))
  | inr e ↦ elim (Bool-cases (store.exists prefix)) [
    | inl f ↦
        rw (e, f, list_files)
          (collect-IsWanted store a i (store.list_directory prefix is_recursive), λ h. absurd cc)
    | inr f ↦ rw (e, f, list_files) (tt, λ h. refl)
  ]
]

-- With the patterns that the arrays hold, `runai_list_files` calls back only for paths that no pattern
-- to ignore matches, and that one to allow matches, if there are any; it calls back for none if it
-- does not return Success.
pub runai_list_files-AreWanted :
    (store : Store) (is_given is_recursive : Bool) (prefix : Option (List ℕ))
    (allow ignore : Option (List (List ℕ))) (num_allow num_ignore : ℕ) (a i : List (List ℕ))
    → patterns_of allow num_allow ≡ ok a
    → patterns_of ignore num_ignore ≡ ok i
    → AreWanted store a i
        (runai_list_files store is_given prefix is_recursive allow num_allow ignore num_ignore)
unfolding runai_list_files
runai_list_files-AreWanted store false is_recursive prefix allow ignore n m a i e f =
    (tt, λ h. refl)
runai_list_files-AreWanted store true is_recursive none allow ignore n m a i e f = (tt, λ h. refl)
runai_list_files-AreWanted store true is_recursive (some prefix) allow ignore n m a i e f =
    rw (e, f, runai_list_files) (list_files-AreWanted store prefix is_recursive a i)
