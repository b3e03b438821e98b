-- ===== src/Utils/Env.antt =====
-- cpp/utils/env/env.cc: variables of the environment, as texts, numbers and flags. The environment is
-- a function; what std::stoi and std::stoul throw is an error.
use runai_model_streamer.Prelude.{
  ℕ, ◌+◌, ◌-◌, ◌*◌, ◌%◌, ◌^◌, Bool, true, false, not, Option, none, some, [], ◌∷◌, ltb, ◌==◌, ◌&&◌,
  if◌then◌else◌, ℤ, pos, negsuc, size_max,
}
use runai_model_streamer.Common.Text.{Text}
use runai_model_streamer.Common.Decimal.{is_digit, is_space}
use runai_model_streamer.Common.Result.{Result, ok, err, assertion, ◌>>=◌, ◌>>◌, assert}

abbrev pub Environment : Type 0
Environment = Text → Option Text

-- The digits at the start of a text, behind a number; and the text after them.
unfoldable pub magnitude : ℕ → Text → ℕ × Text
magnitude n [] = (n, [])
magnitude n (c ∷ cs) =
    let rest = magnitude (n * 10 + (c - 48)) cs in if is_digit c then rest else (n, c ∷ cs)

-- A number has a digit at least.
unfoldable pub unsigned_part : Text → Option (ℕ × Text)
unfolding magnitude
unsigned_part [] = none
unsigned_part (c ∷ cs) = if is_digit c then some (magnitude 0 (c ∷ cs)) else none

-- A sign and a number, behind spaces: whether it is negative, and the text after it.
unfoldable pub integer : Text → Option (Bool × ℕ × Text)
unfolding unsigned_part
integer [] = none
integer (c ∷ cs) =
    let rest = integer cs in
    let plain : Bool → Text → Option (Bool × ℕ × Text) =
      λ negative s. elim (unsigned_part s) [ none ↦ none | some (n, t) ↦ some (negative, n, t) ] in
    if is_space c
    then rest
    else if c == 45
    then plain true cs
    else if c == 43
    then plain false cs
    else plain false (c ∷ cs)

-- `std::stoul`: the number, and the text that is left.
unfoldable pub stoul : Text → Result (ℕ × Text)
unfolding integer
stoul s = elim (integer s) [
  | none ↦ err assertion
  | some (negative, n, t) ↦
      if ltb size_max n
      then err assertion
      else ok (if negative then (2 ^ 64 - n) % 2 ^ 64 else n, t)
]

abbrev pub int_of : Bool → ℕ → ℤ
int_of negative n = if negative && not (n == 0) then negsuc (n - 1) else pos n

-- `std::stoi`: an `int` has 32 bits.
unfoldable pub stoi : Text → Result (ℤ × Text)
unfolding integer
stoi s = elim (integer s) [
  | none ↦ err assertion
  | some (negative, n, t) ↦
      if ltb (if negative then 2 ^ 31 else 2 ^ 31 - 1) n
      then err assertion
      else ok (int_of negative n, t)
]

abbrev pub is_end : Text → Bool
is_end [] = true
is_end (_ ∷ _) = false

-- The whole text is a number.
unfoldable pub to_int : Text → Result ℤ
unfolding stoi
to_int s = do out ← stoi s; assert (is_end out.1); ok out.0

unfoldable pub to_unsigned_long : Text → Result ℕ
unfolding stoul
to_unsigned_long s = do out ← stoul s; assert (is_end out.1); ok out.0

abbrev pub to_bool : ℤ → Bool
to_bool (pos n) = not (n == 0)
to_bool (negsuc n) = true

module _ (env : Environment) where
  -- `try_getenv<T>`: `none` is false.
  unfoldable pub try_getenv_int : Text → Result (Option ℤ)
  unfolding to_int
  try_getenv_int variable = elim (env variable) [
    | none ↦ ok none
    | some s ↦ (do i ← to_int s; ok (some i))
  ]

  unfoldable pub try_getenv_unsigned_long : Text → Result (Option ℕ)
  unfolding to_unsigned_long
  try_getenv_unsigned_long variable = elim (env variable) [
    | none ↦ ok none
    | some s ↦ (do i ← to_unsigned_long s; ok (some i))
  ]

  unfoldable pub try_getenv_bool : Text → Result (Option Bool)
  unfolding try_getenv_int
  try_getenv_bool variable = do
    i ← try_getenv_int variable
    ok (elim i [ none ↦ none | some v ↦ some (to_bool v) ])

  unfoldable pub env_exists : Text → Bool
  env_exists variable = elim (env variable) [ none ↦ false | some _ ↦ true ]

  -- `getenv<T>(variable)`: the variable has to be set.
  unfoldable pub getenv_string : Text → Result Text
  getenv_string variable = elim (env variable) [ none ↦ err assertion | some s ↦ ok s ]

  unfoldable pub getenv_int : Text → Result ℤ
  unfolding getenv_string to_int
  getenv_int variable = do s ← getenv_string variable; to_int s

  unfoldable pub getenv_unsigned_long : Text → Result ℕ
  unfolding getenv_string to_unsigned_long
  getenv_unsigned_long variable = do s ← getenv_string variable; to_unsigned_long s

  unfoldable pub getenv_bool : Text → Result Bool
  unfolding getenv_int
  getenv_bool variable = do i ← getenv_int variable; ok (to_bool i)

  -- `getenv<T>(variable, def)`
  unfoldable pub getenv_int_or : Text → ℤ → Result ℤ
  unfolding to_int
  getenv_int_or variable def = elim (env variable) [ none ↦ ok def | some s ↦ to_int s ]

  unfoldable pub getenv_unsigned_long_or : Text → ℕ → Result ℕ
  unfolding to_unsigned_long
  getenv_unsigned_long_or variable def = elim (env variable) [
    | none ↦ ok def
    | some s ↦ to_unsigned_long s
  ]

  unfoldable pub getenv_bool_or : Text → Bool → Result Bool
  unfolding getenv_int_or
  getenv_bool_or variable def = do
    i ← getenv_int_or variable (pos (if def then 1 else 0))
    ok (to_bool i)

  unfoldable pub getenv_string_or : Text → Text → Text
  getenv_string_or variable def = elim (env variable) [ none ↦ def | some s ↦ s ]
