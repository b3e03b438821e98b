-- ===== src/Api/Start.antt =====
-- cpp/streamer/streamer.cc: `runai_start` and `runai_set_credentials`.
use runai_model_streamer.Prelude.{
  ℕ, ◌≡◌, refl, Bool, true, false, Option, none, some, List, [], ◌∷◌, if◌then◌else◌, Bool-cases,
  inl, inr,
}
use runai_model_streamer.Common.ResponseCode.{
  ResponseCode, success, invalid_parameter_error, unknown_error, credentials_already_set,
}
use runai_model_streamer.Common.Result.{Result, ok, err, code_of}
use runai_model_streamer.Common.Credentials.{Text, Credentials, same_credentials}
use runai_model_streamer.Common.Credentials
use runai_model_streamer.Impl.Config.{Config}
use runai_model_streamer.Impl.Streamer.{set_credentials, get_credentials}

-- What `runai_start` gives for a configuration, or for a failure to make one; `make` is the constructor
-- of the streamer, which starts its queue.
abbrev pub started : {S : Type 0} → Result S → ResponseCode × Option S
started (err e) = (unknown_error, none)
started (ok s) = (success, some s)

unfoldable pub runai_start :
    {S : Type 0} → Result Config → (Config → Result S) → ResponseCode × Option S
runai_start (err e) make = (invalid_parameter_error, none)
runai_start (ok config) make = started (make config)

-- The credentials that are set so far, with the code of a call; `is_given` is whether the streamer is
-- not null.
abbrev pub credited : Option Credentials → Result Credentials → ResponseCode × Option Credentials
credited state (err e) = (code_of e, state)
credited state (ok c) = set_credentials same_credentials [] state c

unfoldable pub runai_set_credentials :
    (is_given : Bool)
    → (param_keys param_values : Option (List (Option Text))) → (num_params : ℕ)
    → Option Credentials
    → ResponseCode × Option Credentials
unfolding set_credentials same_credentials Credentials.create
runai_set_credentials false param_keys param_values num_params state =
    (invalid_parameter_error, state)
runai_set_credentials true param_keys param_values num_params state =
    credited state (Credentials.create param_keys param_values num_params)

-- Calls of `runai_set_credentials` one after the other: their codes, and what is set after them.
abbrev pub Call : Type 0
Call = Option (List (Option Text)) × Option (List (Option Text)) × ℕ

abbrev pub then_codes :
    ResponseCode → List ResponseCode × Option Credentials → List ResponseCode × Option Credentials
then_codes code (codes, state) = (code ∷ codes, state)

abbrev pub set_calls : List Call → Option Credentials → List ResponseCode × Option Credentials
set_calls [] state = ([], state)
set_calls ((keys, values, n) ∷ calls) state =
    let (code, state') = runai_set_credentials true keys values n state in
    then_codes code (set_calls calls state')

-- The code that a later call has to give: an error of its arrays, or else whether its parameters are
-- the first ones.
abbrev pub code_after : Credentials → Result Credentials → ResponseCode
code_after first (err e) = code_of e
code_after first (ok c) = if same_credentials first c then success else credentials_already_set

abbrev pub codes_after : Credentials → List Call → List ResponseCode
codes_after first [] = []
codes_after first ((keys, values, n) ∷ calls) =
    code_after first (Credentials.create keys values n) ∷ codes_after first calls

later_call :
    (first : Credentials) (made : Result Credentials)
    → credited (some first) made ≡ (code_after first made, some first)
unfolding set_credentials
later_call first (err e) = refl
later_call first (ok c) = elim (Bool-cases (same_credentials first c)) [
  | inl e ↦ rw e refl
  | inr e ↦ rw e refl
]

-- Once credentials are set, they stay, whatever is set later: a later call gives Success for the same
-- parameters and CredentialsAlreadySet for others, or the error of its arrays, and a client is given
-- the first ones.
pub first-stays :
    (first : Credentials) (calls : List Call)
    → (set_calls calls (some first) ≡ (codes_after first calls, some first))
      × (get_credentials same_credentials [] (set_calls calls (some first)).1 ≡ first)
unfolding runai_set_credentials get_credentials
first-stays first [] = (refl, refl)
first-stays first ((keys, values, n) ∷ calls) =
    let (e, f) = first-stays first calls in
    let g = later_call first (Credentials.create keys values n) in (rw (g, e) refl, rw (g, e) refl)
