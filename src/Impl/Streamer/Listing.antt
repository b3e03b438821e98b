-- ===== src/Impl/Streamer/Listing.antt =====
-- cpp/streamer/impl/streamer/streamer.cc, `list_files`. fnmatch(3), the client of the storage and the
-- file system are parameters.
use runai_model_streamer.Prelude.{
  ℕ, ◌≡◌, refl, Bool, true, false, ◌&&◌, ◌||◌, not, List, [], ◌∷◌, if◌then◌else◌, All, ◌⊎◌, inl,
  inr, Bool-cases, arith,
}
use runai_model_streamer.Prelude.Assoc.{is_some}
use runai_model_streamer.Common.ResponseCode.{ResponseCode, file_access_error, is_success}
use runai_model_streamer.Common.Result.{Result, ok, err, exception}
use runai_model_streamer.Common.StorageUri.{parse}

-- An entry of a directory; one of a bucket is as a regular file.
pub record Entry : Type 0 where
  pub path : List ℕ
  pub size : ℕ
  pub is_regular_file : Bool

-- `matches pattern path` is `fnmatch(pattern, path, 0) == 0`. A listing takes the prefix, and whether it
-- is recursive; that of a bucket includes that its client is built.
pub record Store : Type 0 where
  pub matches : List ℕ → List ℕ → Bool
  pub list_objects : List ℕ → Bool → ResponseCode × List (List ℕ × ℕ)
  pub exists : List ℕ → Bool
  pub list_directory : List ℕ → Bool → List Entry

abbrev pub as_entries : List (List ℕ × ℕ) → List Entry
as_entries [] = []
as_entries (o ∷ os) = record { path = o.0; size = o.1; is_regular_file = true } ∷ as_entries os

module _ (store : Store) where
  unfoldable pub matches_any : List (List ℕ) → List ℕ → Bool
  matches_any [] path = false
  matches_any (p ∷ ps) path = store.matches p path || matches_any ps path

  abbrev pub is_allowed : List (List ℕ) → List ℕ → Bool
  is_allowed [] path = true
  is_allowed (p ∷ ps) path = matches_any (p ∷ ps) path

  unfoldable pub keep : (allow ignore : List (List ℕ)) → List ℕ → Bool
  unfolding matches_any
  keep allow ignore path = is_allowed allow path && not (matches_any ignore path)

  -- The loop over the entries of a listing.
  unfoldable pub collect : (allow ignore : List (List ℕ)) → List Entry → List (List ℕ × ℕ)
  unfolding keep
  collect allow ignore [] = []
  collect allow ignore (e ∷ es) =
      let rest = collect allow ignore es in
      if e.is_regular_file && keep allow ignore e.path then (e.path, e.size) ∷ rest else rest

  abbrev pub listed_objects :
      (allow ignore : List (List ℕ)) → ResponseCode × List (List ℕ × ℕ) → Result (List (List ℕ × ℕ))
  listed_objects allow ignore (ret, entries) =
      if is_success ret then ok (collect allow ignore (as_entries entries)) else err (exception ret)

  unfoldable pub list_files :
      (prefix : List ℕ)
      → (is_recursive : Bool) → (allow ignore : List (List ℕ)) → Result (List (List ℕ × ℕ))
  unfolding collect parse
  list_files prefix is_recursive allow ignore = elim (is_some (parse prefix)) [
    | true ↦ listed_objects allow ignore (store.list_objects prefix is_recursive)
    | false ↦
        if store.exists prefix
        then ok (collect allow ignore (store.list_directory prefix is_recursive))
        else err (exception file_access_error)
  ]

  -- No pattern of the list matches the path.
  abbrev pub Avoids : List (List ℕ) → List ℕ → Type 0
  Avoids patterns path = All (λ p. store.matches p path ≡ false) patterns

  -- Some pattern of the list matches the path.
  abbrev pub Meets : List (List ℕ) → List ℕ → Type 0
  Meets [] path = ⊥
  Meets (p ∷ ps) path = (store.matches p path ≡ true) ⊎ Meets ps path

  matches_any-Avoids :
      (ps : List (List ℕ)) (path : List ℕ) → matches_any ps path ≡ false → Avoids ps path
  unfolding matches_any
  matches_any-Avoids [] path h = tt
  matches_any-Avoids (p ∷ ps) path h = (ground arith, matches_any-Avoids ps path (ground arith))

  matches_any-Meets :
      (ps : List (List ℕ)) (path : List ℕ) → matches_any ps path ≡ true → Meets ps path
  unfolding matches_any
  matches_any-Meets [] path h = absurd cc
  matches_any-Meets (p ∷ ps) path h = elim (Bool-cases (store.matches p path)) [
    | inl e ↦ inl e
    | inr e ↦ inr (matches_any-Meets ps path (ground arith))
  ]

  -- What the caller asked for: no pattern to ignore matches, and one to allow does, if there are any.
  abbrev pub IsWanted : (allow ignore : List (List ℕ)) → List ℕ → Type 0
  IsWanted allow ignore path = Avoids ignore path × ((allow ≡ []) ⊎ Meets allow path)

  keep-IsWanted :
      (allow ignore : List (List ℕ)) (path : List ℕ)
      → keep allow ignore path ≡ true
      → IsWanted allow ignore path
  unfolding keep
  keep-IsWanted [] ignore path h = (matches_any-Avoids ignore path (ground arith), inl refl)
  keep-IsWanted (p ∷ ps) ignore path h = (
    matches_any-Avoids ignore path (ground arith),
    inr (matches_any-Meets (p ∷ ps) path (ground arith)),
  )

  pub collect-IsWanted :
      (allow ignore : List (List ℕ)) (es : List Entry)
      → All (λ e. IsWanted allow ignore e.0) (collect allow ignore es)
  unfolding collect
  collect-IsWanted allow ignore [] = tt
  collect-IsWanted allow ignore (e ∷ es) =
      elim (Bool-cases (e.is_regular_file && keep allow ignore e.path)) [
        | inl f ↦
            rw f
              (keep-IsWanted allow ignore e.path (ground arith), collect-IsWanted allow ignore es)
        | inr f ↦ rw f (collect-IsWanted allow ignore es)
      ]
