-- ===== src/Common/Decimal.antt =====
-- Numbers as text: `%zu` of snprintf and std::to_string, and strtoull in base ten. A text is the
-- list of its bytes.
use runai_model_streamer.Prelude.{
  ℕ, zero, suc, ◌+◌, ◌-◌, ◌*◌, ◌/◌, ◌%◌, ◌^◌, ◌≤◌, ◌<◌, ◌≡◌, refl, Bool, true, false, List, [], ◌∷◌,
  ltb, leb, ◌==◌, ◌&&◌, ◌||◌, if◌then◌else◌, size_max, arith, Bool-cases, inl, inr, length, ap, ◌∙◌,
  ◌++◌,
}

-- The digits of `n` before `out`, with the digits that there may be.
unfoldable pub digits : (room n : ℕ) → List ℕ → List ℕ
digits zero n out = out
digits (suc room) n out =
    let rest = digits room (n / 10) ((48 + n % 10) ∷ out) in
    if ltb n 10 then (48 + n) ∷ out else rest

-- A `size_t` has at most 20 digits.
unfoldable pub to_string : ℕ → List ℕ
unfolding digits
to_string n = digits 20 n []

abbrev pub is_digit : ℕ → Bool
is_digit c = leb 48 c && leb c 57

abbrev pub is_space : ℕ → Bool
is_space c = (c == 32) || (leb 9 c && leb c 13)

-- The digits at the start of a text, as a number that stops at the largest `size_t`.
unfoldable pub scan : List ℕ → ℕ → ℕ
scan [] n = n
scan (c ∷ cs) n =
    let m = n * 10 + (c - 48) in
    let rest = scan cs (if ltb size_max m then size_max else m) in if is_digit c then rest else n

-- A minus sign negates the number, unless it has stopped at the largest.
unfoldable pub signed : List ℕ → ℕ
unfolding scan
signed [] = 0
signed (c ∷ cs) =
    if c == 45
    then (if scan cs 0 == size_max then size_max else (2 ^ 64 - scan cs 0) % 2 ^ 64)
    else if c == 43
    then scan cs 0
    else scan (c ∷ cs) 0

unfoldable pub strtoull : List ℕ → ℕ
unfolding signed
strtoull [] = 0
strtoull (c ∷ cs) = let rest = strtoull cs in if is_space c then rest else signed (c ∷ cs)

-- Ten to a power.
abbrev bound : ℕ → ℕ
bound zero = 1
bound (suc room) = 10 * bound room

scan_digit :
    (d n : ℕ) (cs : List ℕ)
    → d < 10
    → n * 10 + d < 2 ^ 64
    → scan ((48 + d) ∷ cs) n ≡ scan cs (n * 10 + d)
unfolding scan
scan_digit d n cs h b = ground arith

-- What is read of the digits of `n` is `n`.
scan-digits :
    (room n : ℕ) (out : List ℕ)
    → n < bound room
    → 0 < room
    → n < 2 ^ 64
    → scan (digits room n out) 0 ≡ scan out n
unfolding digits
scan-digits zero n out h p b = absurd (omega arith)
scan-digits (suc zero) n out h p b =
    let one : ltb n 10 ≡ true = ground arith in
    rw one (scan_digit n 0 out (omega arith) (omega arith) ∙ ap (scan out) (omega arith))
scan-digits (suc (suc room)) n out h p b = elim (Bool-cases (ltb n 10)) [
  | inl one ↦ rw one (scan_digit n 0 out (ground arith) (omega arith) ∙ ap (scan out) (omega arith))
  | inr more ↦ rw more (
      scan-digits (suc room) (n / 10) ((48 + n % 10) ∷ out) (omega arith) (omega arith)
        (omega arith)
      ∙ scan_digit (n % 10) (n / 10) out (omega arith) (omega arith)
      ∙ ap (scan out) (omega arith))
]

-- The text starts with a digit.
digits_head :
    (room n d : ℕ) (out : List ℕ)
    → d < 10
    → (c : ℕ) × (cs : List ℕ) × (digits room n ((48 + d) ∷ out) ≡ (48 + c) ∷ cs) × (c < 10)
unfolding digits
digits_head zero n d out h = (d, out, refl, h)
digits_head (suc room) n d out h = elim (Bool-cases (ltb n 10)) [
  | inl one ↦ (n, (48 + d) ∷ out, rw one refl, ground arith)
  | inr more ↦ rw more (digits_head room (n / 10) (n % 10) ((48 + d) ∷ out) (omega arith))
]

digits-cons :
    (room n : ℕ) (out : List ℕ)
    → (c : ℕ) × (cs : List ℕ) × (digits (suc room) n out ≡ (48 + c) ∷ cs) × (c < 10)
unfolding digits
digits-cons room n out = elim (Bool-cases (ltb n 10)) [
  | inl one ↦ (n, out, rw one refl, ground arith)
  | inr more ↦ rw more (digits_head room (n / 10) (n % 10) out (omega arith))
]

strtoull_digit : (c : ℕ) (cs : List ℕ) → c < 10 → strtoull ((48 + c) ∷ cs) ≡ scan ((48 + c) ∷ cs) 0
unfolding strtoull signed
strtoull_digit c cs h =
    let no_space : is_space (48 + c) ≡ false = ground arith in
    let no_minus : (48 + c == 45) ≡ false = ground arith in
    let no_plus : (48 + c == 43) ≡ false = ground arith in rw (no_space, no_minus, no_plus) refl

strtoull-digits :
    (room n : ℕ) (out : List ℕ)
    → strtoull (digits (suc room) n out) ≡ scan (digits (suc room) n out) 0
strtoull-digits room n out =
    let (c, cs, e, h) = digits-cons room n out in rw e (strtoull_digit c cs h)

digits-append :
    (room n : ℕ) (out rest : List ℕ) → digits room n out ++ rest ≡ digits room n (out ++ rest)
unfolding digits
digits-append zero n out rest = refl
digits-append (suc room) n out rest = elim (Bool-cases (ltb n 10)) [
  | inl one ↦ rw one refl
  | inr more ↦ rw more (digits-append room (n / 10) ((48 + n % 10) ∷ out) rest)
]

length-digits : (room n : ℕ) (out : List ℕ) → length (digits room n out) ≤ room + length out
unfolding digits
length-digits zero n out = omega arith
length-digits (suc room) n out = elim (Bool-cases (ltb n 10)) [
  | inl one ↦ rw one (omega arith)
  | inr more ↦ rw more (omega (arith, length-digits room (n / 10) ((48 + n % 10) ∷ out)))
]

pub length-to_string : (n : ℕ) → length (to_string n) ≤ 20
unfolding to_string
length-to_string n = omega (arith, length-digits 20 n [])

-- A number that is followed by a null byte is read back.
pub strtoull-to_string :
    (n : ℕ) (rest : List ℕ) → n < 2 ^ 64 → strtoull (to_string n ++ 0 ∷ rest) ≡ n
unfolding to_string scan
strtoull-to_string n rest h =
    rw (digits-append 20 n [] (0 ∷ rest))
      (strtoull-digits 19 n (0 ∷ rest) ∙ scan-digits 20 n (0 ∷ rest) (omega arith) (omega arith) h)
