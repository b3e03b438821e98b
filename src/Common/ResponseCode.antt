-- ===== src/Common/ResponseCode.antt =====
-- cpp/common/response_code: the codes that every layer of the streamer reports, and how a thrown
-- error is carried as a value (cpp/common/exception, and the ASSERT of cpp/utils/logging).
use runai_model_streamer.Prelude.{
  ℕ, ◌≡◌, refl, Bool, true, false, Option, none, some, List, [], ◌∷◌, ℤ, pos, negsuc, get_elem?,
  arith, ◌==◌, zero, suc, ◌+◌, ap,
}

pub data ResponseCode : Type 0 where
  success finished_error file_access_error eof_error s3_not_supported : ResponseCode
  glibc_prerequisite insufficient_fd_limit invalid_parameter_error : ResponseCode
  empty_request_error busy_error ca_file_not_found unknown_error : ResponseCode
  obj_plugin_load_error gcs_not_supported azure_blob_not_supported : ResponseCode
  file_truncated_error timed_out unsupported_backend_mix credentials_already_set : ResponseCode

-- `static_cast<int>(code)`
abbrev pub to_int : ResponseCode → ℕ
to_int success = 0
to_int finished_error = 1
to_int file_access_error = 2
to_int eof_error = 3
to_int s3_not_supported = 4
to_int glibc_prerequisite = 5
to_int insufficient_fd_limit = 6
to_int invalid_parameter_error = 7
to_int empty_request_error = 8
to_int busy_error = 9
to_int ca_file_not_found = 10
to_int unknown_error = 11
to_int obj_plugin_load_error = 12
to_int gcs_not_supported = 13
to_int azure_blob_not_supported = 14
to_int file_truncated_error = 15
to_int timed_out = 16
to_int unsupported_backend_mix = 17
to_int credentials_already_set = 18

-- The codes in the order of their values; `__Max` is the length.
abbrev codes : List ResponseCode
codes =
    success ∷ finished_error ∷ file_access_error ∷ eof_error ∷ s3_not_supported ∷ glibc_prerequisite
    ∷ insufficient_fd_limit ∷ invalid_parameter_error ∷ empty_request_error ∷ busy_error
    ∷ ca_file_not_found ∷ unknown_error ∷ obj_plugin_load_error ∷ gcs_not_supported
    ∷ azure_blob_not_supported ∷ file_truncated_error ∷ timed_out ∷ unsupported_backend_mix
    ∷ credentials_already_set ∷ []

-- `none` is the bare `throw;` on a value out of range, which ends the process.
pub response_code_from : ℤ → Option ResponseCode
response_code_from (negsuc n) = none
response_code_from (pos n) = get_elem? codes n

-- `a == b` on codes.
abbrev pub same_code : ResponseCode → ResponseCode → Bool
same_code a b = to_int a == to_int b

abbrev pub is_success : ResponseCode → Bool
is_success success = true
is_success _ = false

-- Every code is read back from its value.
pub response_code_from-to_int : (c : ResponseCode) → response_code_from (pos (to_int c)) ≡ some c
unfolding response_code_from
response_code_from-to_int success = refl
response_code_from-to_int _ = refl

-- The codes from value `k` on, in order.
abbrev Consecutive : ℕ → List ResponseCode → Type 0
Consecutive k [] = Unit
Consecutive k (c ∷ cs) = (to_int c ≡ k) × Consecutive (suc k) cs

to_int-get_elem? :
    (k n : ℕ) (c : ResponseCode) (cs : List ResponseCode)
    → Consecutive k cs
    → get_elem? cs n ≡ some c
    → k + n ≡ to_int c
to_int-get_elem? k n c [] v h = cc
to_int-get_elem? k zero c (d ∷ cs) v h = ground arith
to_int-get_elem? k (suc n) c (d ∷ cs) v h = omega (arith, to_int-get_elem? (suc k) n c cs v.1 h)

codes-Consecutive : Consecutive 0 codes
codes-Consecutive = omega arith

of_response_code_from :
    (c : ResponseCode) (v : ℤ) → response_code_from v ≡ some c → v ≡ pos (to_int c)
unfolding response_code_from
of_response_code_from c (pos n) h =
    ap pos (omega (arith, to_int-get_elem? 0 n c codes codes-Consecutive h))
of_response_code_from c (negsuc n) h = cc

-- `response_code_from` and the cast to `int` are inverse to one another: every code is read back
-- from its value, and a value from which a code is read is that code's value.
pub response_code_from_inverse :
    (c : ResponseCode) (v : ℤ)
    → (response_code_from (pos (to_int c)) ≡ some c)
      × (response_code_from v ≡ some c → v ≡ pos (to_int c))
response_code_from_inverse c v = (response_code_from-to_int c, of_response_code_from c v)
