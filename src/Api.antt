-- ===== src/Api.antt =====
-- cpp/streamer/streamer.cc: the C interface. A pointer to an array is `none` if it is null; a read past
-- the end of an array is not defined. A code is returned as its `int`, from which it can be read back.
pub mod Marshal
pub mod Owes
pub mod Listing
pub mod Start
use runai_model_streamer.Prelude.{
  ℕ, zero, suc, ◌+◌, Bool, true, false, not, ◌&&◌, ◌||◌, Option, none, some, List, [], ◌∷◌, ltb,
  ◌==◌, if◌then◌else◌, get_elem?, add_size, ℤ,
}
use runai_model_streamer.Prelude.Assoc.{is_some}
use runai_model_streamer.Common.ResponseCode.{
  ResponseCode, success, invalid_parameter_error, unknown_error, to_int,
}
use runai_model_streamer.Common.Result.{Result, ok, err, assertion, code_of, ◌>>=◌}
use runai_model_streamer.Common.Response.{Response}
use runai_model_streamer.Impl.Request.{ReadRange, FileRanges}
use runai_model_streamer.Impl.Streamer.{set_credentials}
use runai_model_streamer.Impl.Streamer.Submit.{
  Streamer, Outside, Submitted, async_request, Answer, answer, waits, throws, response,
}

-- The arrays of a request, grouped by file. A path is null, or what the memory has from it on.
pub record Arrays : Type 0 where
  pub paths : Option (List (Option (List ℕ)))
  pub num_ranges : Option (List ℕ)
  pub range_offsets : Option (List ℕ)
  pub range_sizes : Option (List ℕ)
  pub range_dsts : Option (List ℕ)

abbrev pub at : {A : Type 0} → List A → ℕ → Result A
at xs k = elim (get_elem? xs k) [ none ↦ err assertion | some x ↦ ok x ]

-- An array that is dereferenced, and is not null by then.
abbrev pub array : {A : Type 0} → Option (List A) → Result (List A)
array none = err assertion
array (some xs) = ok xs

-- A C string: the characters before the first one that is zero.
unfoldable pub c_string : List ℕ → Result (List ℕ)
c_string [] = err assertion
c_string (c ∷ cs) =
    let rest = c_string cs in if c == 0 then ok [] else (do text ← rest; ok (c ∷ text))

-- The first loop: so many files from the `i`-th on.
unfoldable pub count_ranges : (left i : ℕ) → List ℕ → (total : ℕ) → Result ℕ
count_ranges zero i num_ranges total = ok total
count_ranges (suc left) i num_ranges total = do
  n ← at num_ranges i
  count_ranges left (suc i) num_ranges (add_size total n)

-- The inner loop: so many ranges from the `k`-th of the arrays on.
unfoldable pub push_ranges : (left k : ℕ) → Arrays → Result (List ReadRange)
push_ranges zero k a = ok []
push_ranges (suc left) k a = do
  offsets ← array a.range_offsets
  sizes ← array a.range_sizes
  dsts ← array a.range_dsts
  offset ← at offsets k
  size ← at sizes k
  dst ← at dsts k
  rest ← push_ranges left (suc k) a
  ok (record { offset = offset; size = size; dst = dst } ∷ rest)

-- The loop over the files. `none` is the return of InvalidParameterError for a path that is null.
unfoldable pub push_files : (left i base : ℕ) → Arrays → Result (Option (List FileRanges))
unfolding push_ranges c_string
push_files zero i base a = ok (some [])
push_files (suc left) i base a = do
  paths ← array a.paths
  num_ranges ← array a.num_ranges
  path ← at paths i
  elim path [
    | none ↦ ok none
    | some memory ↦ do
      string ← c_string memory
      n ← at num_ranges i
      ranges ← push_ranges n base a
      rest ← push_files left (suc i) (add_size base n) a
      elim rest [
        | none ↦ ok none
        | some files ↦ ok (some (record { path = string; ranges = ranges } ∷ files))
      ]
  ]

abbrev pub is_null : {A : Type 0} → Option A → Bool
is_null p = not (is_some p)

-- Without files `num_ranges` is not read.
abbrev pub total_of : ℕ → Arrays → Result ℕ
total_of zero a = ok 0
total_of (suc n) a = do counts ← array a.num_ranges; count_ranges (suc n) 0 counts 0

-- `submit_request` up to the call of the streamer; `none` is InvalidParameterError.
unfoldable pub marshal : (num_files : ℕ) → Arrays → Result (Option (List FileRanges))
unfolding push_files count_ranges
marshal num_files a =
    if ltb 0 num_files && (is_null a.paths || is_null a.num_ranges) then ok none else (do
      total ← total_of num_files a
      if ltb 0 total && (is_null a.range_offsets || (is_null a.range_sizes || is_null a.range_dsts))
          then ok none
          else push_files num_files 0 0 a)

-- What a call of `runai_request` leaves; the id is what the caller's variable has, if it is given.
pub record Requested : Type 0 where
  pub id : ℕ
  pub code : ResponseCode
  pub streamer : Option Streamer

abbrev pub requested : Submitted → Requested
requested r = record {
  id = r.id;
  code = elim r.result [ err e ↦ code_of e | ok c ↦ c ];
  streamer = some r.streamer;
}

module _ (env : Outside) where
  abbrev pub submitted : Streamer → Result (Option (List FileRanges)) → Requested
  submitted s (err e) = record { id = 0; code = code_of e; streamer = some s }
  submitted s (ok none) = record { id = 0; code = invalid_parameter_error; streamer = some s }
  submitted s (ok (some request)) = requested (async_request env request s)

  -- `none` is a streamer that is null.
  unfoldable pub runai_request : (num_files : ℕ) → Arrays → Option Streamer → Requested
  unfolding marshal async_request
  runai_request num_files a none = record {
    id = 0;
    code = invalid_parameter_error;
    streamer = none;
  }
  runai_request num_files a (some s) = submitted s (marshal num_files a)

-- What `runai_response` gives through its pointers, if it gives it.
pub record Given : Type 0 where
  pub submission_id : ℕ
  pub file_index : ℕ
  pub index : ℕ
  pub submission_done : Bool

pub data Responded : Type 0 where
  returns : ResponseCode → Option Given → Option Streamer → Responded
  blocks : Responded

abbrev pub responded : Answer → Responded
responded waits = blocks
responded (throws e s) = returns (code_of e) none (some s)
responded (answer r done s) =
    returns r.ret
      (some (record {
        submission_id = r.submission_id;
        file_index = r.file_index;
        index = r.index;
        submission_done = done;
      }))
      (some s)

-- `has_file_index` and `has_index` are whether these pointers are not null.
unfoldable pub runai_response :
    (timeout_ms now : ℕ) → (has_file_index has_index : Bool) → Option Streamer → Responded
unfolding response
runai_response timeout_ms now has_file_index has_index none =
    returns invalid_parameter_error none none
runai_response timeout_ms now has_file_index has_index (some s) =
    if not has_file_index || not has_index
    then returns invalid_parameter_error none (some s)
    else responded (response timeout_ms now s)
