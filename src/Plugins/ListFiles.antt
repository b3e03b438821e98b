-- ===== src/Plugins/ListFiles.antt =====
-- cpp/common/backend_api/object_storage/list_files_impl.h: a listing as the C interface of a plugin
-- gives it, one block with the entries and the bytes of their paths. A pointer to a path is its
-- place among those bytes.
use runai_model_streamer.Prelude.{
  ℕ, zero, suc, ◌+◌, ◌%◌, ◌^◌, ◌<◌, ◌≡◌, ◌≢◌, refl, sym, ap, ap₂, subst, ◌∙◌, Bool, true, false,
  Option, none, some, List, [], ◌∷◌, ◌++◌, append_assoc, ◌==◌, if◌then◌else◌, length, length-append,
  drop, take, map, All, arith,
}
use runai_model_streamer.Common.Text.{Text}
use runai_model_streamer.Common.ResponseCode.{
  ResponseCode, success, unknown_error, invalid_parameter_error, is_success,
}
use runai_model_streamer.Common.Result.{Result, ok, err}

pub record ObjectFileEntry : Type 0 where
  pub path : ℕ
  pub size : ℕ

-- The entries, whose paths start at a place, and the bytes of the paths.
unfoldable pub make_entries : ℕ → List (Text × ℕ) → List ObjectFileEntry × Text
make_entries place [] = ([], [])
make_entries place ((path, size) ∷ results) =
    let (entries, area) = make_entries (place + length path + 1) results in
    (record { path = place; size = size } ∷ entries, path ++ 0 ∷ area)

-- What the caller gets: the code, and if it is Success the number of entries, with the block unless
-- there are none.
abbrev pub filled : List (Text × ℕ) → Option (List ObjectFileEntry × Text)
filled [] = none
filled (r ∷ rs) = some (make_entries 0 (r ∷ rs))

-- The flag tells whether no pointer is null; then the client's listing.
unfoldable pub impl_obj_list_files :
    Bool
    → Result (ResponseCode × List (Text × ℕ))
    → ResponseCode × Option (ℕ × Option (List ObjectFileEntry × Text))
impl_obj_list_files false listing = (invalid_parameter_error, none)
impl_obj_list_files true (err e) = (unknown_error, none)
impl_obj_list_files true (ok (ret, results)) =
    if is_success ret
    then (success, some (length results % 2 ^ 32, filled results))
    else (ret, none)

-- How a caller reads a path, up to its null byte.
abbrev pub c_string : Text → Text
c_string [] = []
c_string (c ∷ cs) = if c == 0 then [] else c ∷ c_string cs

abbrev pub read_entry : Text → ObjectFileEntry → Text × ℕ
read_entry area e = (c_string (drop e.path area), e.size)

abbrev pub read_entries : ℕ × Option (List ObjectFileEntry × Text) → List (Text × ℕ)
read_entries (n, none) = []
read_entries (n, some (entries, area)) = map (read_entry area) (take n entries)

-- A path is a C string.
abbrev pub NoNull : Text → Type 0
NoNull path = All (λ c. c ≢ 0) path

c_string-append : (path rest : Text) → NoNull path → c_string (path ++ 0 ∷ rest) ≡ path
c_string-append [] rest h = refl
c_string-append (c ∷ cs) rest h =
    let other : (c == 0) ≡ false = ground arith in
    rw other (ap (◌∷◌ c) (c_string-append cs rest h.1))

drop-append {ℓ} : {A : Type ℓ} (xs ys : List A) → drop (length xs) (xs ++ ys) ≡ ys
drop-append [] ys = refl
drop-append (x ∷ xs) ys = drop-append xs ys

-- Entries whose paths start behind `before` are read back.
map-make_entries :
    (before : Text) (results : List (Text × ℕ))
    → All (λ r. NoNull r.0) results
    → map
        (read_entry (before ++ (make_entries (length before) results).1))
        (make_entries (length before) results).0
      ≡ results
unfolding make_entries
map-make_entries before [] h = refl
map-make_entries before ((path, size) ∷ results) h =
    let before' = before ++ (path ++ 0 ∷ []) in
    let n = length before + length path + 1 in
    let place : length before' ≡ n =
      length-append before (path ++ 0 ∷ []) ∙ omega (arith, length-append path (0 ∷ [])) in
    let area = (make_entries n results).1 in
    let same : before' ++ area ≡ before ++ (path ++ 0 ∷ area) =
      append_assoc before (path ++ 0 ∷ []) area
      ∙ ap (◌++◌ before) (append_assoc path (0 ∷ []) area) in
    let tail : map (read_entry (before' ++ area)) (make_entries n results).0 ≡ results =
      subst
        (λ k.
          map (read_entry (before' ++ (make_entries k results).1)) (make_entries k results).0
          ≡ results)
        place (map-make_entries before' results h.1) in
    let head : c_string (drop (length before) (before ++ (path ++ 0 ∷ area))) ≡ path =
      ap c_string (drop-append before _) ∙ c_string-append path area h.0 in
    ap₂ (λ q rs. (q, size) ∷ rs) head
      (ap (λ t. map (read_entry t) (make_entries n results).0) (sym same) ∙ tail)

length-make_entries :
    (place : ℕ) (results : List (Text × ℕ)) → length (make_entries place results).0 ≡ length results
unfolding make_entries
length-make_entries place [] = refl
length-make_entries place ((path, size) ∷ results) =
    ap suc (length-make_entries (place + length path + 1) results)

take_all {ℓ} : {A : Type ℓ} (n : ℕ) (xs : List A) → n ≡ length xs → take n xs ≡ xs
take_all zero [] h = refl
take_all zero (x ∷ xs) h = absurd (omega arith)
take_all (suc n) [] h = refl
take_all (suc n) (x ∷ xs) h = ap (◌∷◌ x) (take_all n xs (omega arith))

pub read_entries-filled :
    (results : List (Text × ℕ))
    → All (λ r. NoNull r.0) results
    → length results < 2 ^ 32
    → read_entries (length results % 2 ^ 32, filled results) ≡ results
read_entries-filled [] h b = refl
read_entries-filled (r ∷ rs) h b =
    let count : length (r ∷ rs) % 2 ^ 32 ≡ length (make_entries 0 (r ∷ rs)).0 =
      omega (arith, length-make_entries 0 (r ∷ rs)) in
    ap (map (read_entry (make_entries 0 (r ∷ rs)).1)) (take_all _ (make_entries 0 (r ∷ rs)).0 count)
    ∙ map-make_entries [] (r ∷ rs) h
