-- ===== src/Utils/Semver.antt =====
-- cpp/utils/semver/semver.h and semver.cc: versions, read from text and ordered. A text is the list of
-- its bytes.
pub mod Order
use runai_model_streamer.Prelude.{
  ℕ, ◌+◌, ◌-◌, ◌*◌, ◌%◌, ◌^◌, Bool, true, false, ◌&&◌, ◌||◌, not, List, [], ◌∷◌, ltb, leb, ◌==◌,
  if◌then◌else◌, length,
}
use runai_model_streamer.Common.Result.{Result, ok, err, assertion, assert, ◌>>=◌, ◌>>◌}

-- The fields are `unsigned short`.
pub record Semver : Type 0 where
  pub major : ℕ
  pub minor : ℕ
  pub patch : ℕ

abbrev pub is_digit : ℕ → Bool
is_digit c = leb 48 c && leb c 57

abbrev pub is_numeric : ℕ → Bool
is_numeric c = is_digit c || (c == 46)

-- The text from the first digit on.
unfoldable pub skip_to_digit : List ℕ → List ℕ
skip_to_digit [] = []
skip_to_digit (c ∷ cs) = if is_digit c then c ∷ cs else skip_to_digit cs

-- The digits and dots at the start.
unfoldable pub numeric_part : List ℕ → List ℕ
numeric_part [] = []
numeric_part (c ∷ cs) = let rest = numeric_part cs in if is_numeric c then c ∷ rest else []

abbrev pub attach : ℕ → List (List ℕ) → List (List ℕ)
attach c [] = (c ∷ []) ∷ []
attach c (e ∷ es) = (c ∷ e) ∷ es

-- The elements that getline gives: a dot at the end starts none.
unfoldable pub elements : List ℕ → List (List ℕ)
elements [] = []
elements (c ∷ cs) = let rest = elements cs in if c == 46 then [] ∷ rest else attach c rest

abbrev pub value_from : ℕ → List ℕ → ℕ
value_from n [] = n
value_from n (c ∷ cs) = value_from (10 * n + (c - 48)) cs

-- `stoul` of digits. It throws on no digits, and above the largest `unsigned long`.
unfoldable pub stoul : List ℕ → Result ℕ
stoul [] = err assertion
stoul (c ∷ cs) = let n = value_from 0 (c ∷ cs) in if ltb n (2 ^ 64) then ok n else err assertion

-- An element after the first: 0 if there is none.
abbrev pub element_or_zero : List (List ℕ) → Result ℕ
element_or_zero [] = ok 0
element_or_zero (e ∷ es) = stoul e

abbrev pub rest_of : List (List ℕ) → List (List ℕ)
rest_of [] = []
rest_of (e ∷ es) = es

-- The constructor from a string.
unfoldable pub parse : List ℕ → Result Semver
unfolding skip_to_digit numeric_part elements stoul
parse str = do
  let split = elements (numeric_part (skip_to_digit str))
  assert (not (length split == 0))
  assert (leb (length split) 3)
  major ← element_or_zero split
  minor ← element_or_zero (rest_of split)
  patch ← element_or_zero (rest_of (rest_of split))
  ok (record { major = major % 2 ^ 16; minor = minor % 2 ^ 16; patch = patch % 2 ^ 16 })

-- `operator==`, `!=`, `>`, `>=` and `<=`
unfoldable pub equal : Semver → Semver → Bool
equal a b = (a.major == b.major) && (a.minor == b.minor) && (a.patch == b.patch)

unfoldable pub not_equal : Semver → Semver → Bool
unfolding equal
not_equal a b = not (equal a b)

unfoldable pub greater : Semver → Semver → Bool
greater a b =
    if not (a.major == b.major)
    then ltb b.major a.major
    else if not (a.minor == b.minor)
    then ltb b.minor a.minor
    else ltb b.patch a.patch

unfoldable pub greater_equal : Semver → Semver → Bool
unfolding equal greater
greater_equal a b = equal a b || greater a b

unfoldable pub less_equal : Semver → Semver → Bool
unfolding greater
less_equal a b = not (greater a b)
