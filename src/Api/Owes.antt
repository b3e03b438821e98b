-- ===== src/Api/Owes.antt =====
-- cpp/streamer/streamer.cc, `runai_request`: what its code says of the responses that are owed.
use runai_model_streamer.Prelude.{
  ℕ, ◌-◌, ◌^◌, ◌<◌, ◌≡◌, refl, ◌⊎◌, inl, inr, Option, none, some, List, length, ap, sym, ◌∙◌,
}
use runai_model_streamer.Common.ResponseCode.{
  ResponseCode, success, invalid_parameter_error, unknown_error,
}
use runai_model_streamer.Common.Result.{Result, ok, err, Fault, exception, assertion, code_of}
use runai_model_streamer.Impl.Request.{FileRanges}
use runai_model_streamer.Impl.Streamer.Submit.{
  Streamer, Outside, Submitted, async_request, ranges_in,
}
use runai_model_streamer.Impl.Streamer.Submit.Queues.{IsLocked}
use runai_model_streamer.Impl.Streamer.Submit.Endings.{IsUntouched, IsCommitted, Commits}
use runai_model_streamer.Impl.Streamer.Submit.Commits.{async_request-Commits}
use runai_model_streamer.Api.{Arrays, marshal, Requested, requested, submitted, runai_request}

-- What a code is returned for.
abbrev pub reported : Result ResponseCode → ResponseCode
reported (ok c) = c
reported (err e) = code_of e

-- How a call on the streamer `s` has ended: with the streamer `t`.
pub data Owes (env : Outside) (num_files : ℕ) (a : Arrays) (s t : Streamer) (r : Requested)
    : Type 0 where
  -- A pointer is null that must not be.
  refused :
      marshal num_files a ≡ ok none
      → t ≡ s
      → r.id ≡ 0
      → r.code ≡ invalid_parameter_error
      → Owes env num_files a s t r
  -- An array ends too early.
  unreadable :
      (e : Fault)
      → marshal num_files a ≡ err e
      → t ≡ s
      → r.id ≡ 0
      → r.code ≡ code_of e
      → Owes env num_files a s t r
  -- Nothing is owed for the request of the arrays.
  none_owed :
      (request : List FileRanges)
      → marshal num_files a ≡ ok (some request)
      → r.id ≡ (async_request env request s).id
      → r.code ≡ reported (async_request env request s).result
      → IsUntouched s t
      → (r.code ≡ success
          → (ranges_in request ≡ 0)
            ⊎ ((async_request env request s).result ≡ err (exception success)))
      → Owes env num_files a s t r
  -- The request of the arrays is registered.
  owed :
      (request : List FileRanges)
      → marshal num_files a ≡ ok (some request)
      → r.id ≡ (async_request env request s).id
      → r.code ≡ reported (async_request env request s).result
      → t ≡ (async_request env request s).streamer
      → IsCommitted env.now request s (async_request env request s)
      → (r.code ≡ success) ⊎ (r.code ≡ unknown_error)
      → Owes env num_files a s t r

code_reported :
    (r : Submitted) (x : Result ResponseCode)
    → r.result ≡ x
    → (requested r).code ≡ reported r.result
code_reported r (ok c) e = rw (e, requested) refl
code_reported r (err f) e = rw (e, requested) refl

-- A success is returned, or thrown.
reported_success :
    (x : Result ResponseCode)
    → reported x ≡ success
    → (x ≡ ok success) ⊎ (x ≡ err (exception success))
reported_success (ok c) e = inl (ap ok e)
reported_success (err (exception c)) e = inr (ap (λ c. err (exception c)) e)
reported_success (err assertion) e = absurd cc

code_requested :
    (r : Submitted)
    → (r.result ≡ ok success) ⊎ (r.result ≡ ok unknown_error)
    → ((requested r).code ≡ success) ⊎ ((requested r).code ≡ unknown_error)
code_requested r (inl e) = inl (rw (e, requested) refl)
code_requested r (inr e) = inr (rw (e, requested) refl)

no_success :
    (r : Submitted) (n : ℕ)
    → (r.result ≡ ok success → n ≡ 0)
    → (requested r).code ≡ success
    → (n ≡ 0) ⊎ (r.result ≡ err (exception success))
no_success r n h e = elim (reported_success r.result (sym (code_reported r r.result refl) ∙ e)) [
  | inl f ↦ inl (h f)
  | inr f ↦ inr f
]

module _ (env : Outside) (num_files : ℕ) (a : Arrays) (s : Streamer)
    (small : s.submissions.next_id < 2 ^ 64) (few : length s.submissions.submissions < 2 ^ 64 - 3)
    (locked : IsLocked s.pools) where
  requested-Owes :
      (request : List FileRanges)
      → marshal num_files a ≡ ok (some request)
      → Commits env.now request s (async_request env request s)
      → (t : Streamer) × ((requested (async_request env request s)).streamer ≡ some t)
        × Owes env num_files a s t (requested (async_request env request s))
  requested-Owes request e (inl v) =
      let r = async_request env request s in
      (
        _,
        refl,
        none_owed request e refl (code_reported r r.result refl) v.0
            (no_success r (ranges_in request) v.1),
      )
  requested-Owes request e (inr v) =
      let r = async_request env request s in
      (
        _,
        refl,
        owed request e refl (code_reported r r.result refl) refl v (code_requested r v.ends),
      )

  submitted-Owes :
      (m : Result (Option (List FileRanges)))
      → marshal num_files a ≡ m
      → (t : Streamer) × ((submitted env s m).streamer ≡ some t)
        × Owes env num_files a s t (submitted env s m)
  submitted-Owes (err e) f = (s, refl, unreadable e f refl refl refl)
  submitted-Owes (ok none) f = (s, refl, refused f refl refl refl)
  submitted-Owes (ok (some request)) f =
      requested-Owes request f (async_request-Commits env request s small few locked)

  pub runai_request-Owes :
      let r = runai_request env num_files a (some s) in
      (t : Streamer) × (r.streamer ≡ some t) × Owes env num_files a s t r
  unfolding runai_request
  runai_request-Owes = submitted-Owes (marshal num_files a) refl
