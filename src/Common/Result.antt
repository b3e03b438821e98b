-- ===== src/Common/Result.antt =====
-- Errors as values: what a function throws. `exception` is common::Exception with its code
-- (cpp/common/exception); `assertion` is the std::exception of a failed ASSERT (cpp/utils/logging).
use runai_model_streamer.Prelude.{◌≡◌, Bool, true, false}
use runai_model_streamer.Common.ResponseCode.{ResponseCode, unknown_error}

pub data Fault : Type 0 where
  exception : ResponseCode → Fault
  assertion : Fault

pub data Result {ℓ} (A : Type ℓ) : Type ℓ where
  err : Fault → Result A
  ok : A → Result A

abbrev pub assert : Bool → Result (Unit {0})
assert true = ok tt
assert false = err assertion

infixl 5 ◌>>=◌
abbrev pub ◌>>=◌ {ℓ κ} : {A : Type ℓ} {B : Type κ} → Result A → (A → Result B) → Result B
err fault >>= next = err fault
ok a >>= next = next a

infixl 5 ◌>>◌
abbrev pub ◌>>◌ {κ} : {B : Type κ} → Result (Unit {0}) → Result B → Result B
first >> second = first >>= λ _. second

-- The code that a catch of common::Exception, then of everything, reports.
abbrev pub code_of : Fault → ResponseCode
code_of (exception c) = c
code_of assertion = unknown_error

pub err-ne-ok {ℓ} : {A : Type ℓ} (e : Fault) (a : A) → ¬ (err e ≡ ok a)
err-ne-ok e a h = cc
