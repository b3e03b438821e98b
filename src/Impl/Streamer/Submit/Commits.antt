-- ===== src/Impl/Streamer/Submit/Commits.antt =====
-- cpp/streamer/impl/streamer/streamer.cc, `async_request`: what a submission commits.
use runai_model_streamer.Prelude.{
  ℕ, ◌-◌, ◌^◌, ◌≤◌, ◌<◌, ◌≡◌, refl, sym, ap, subst, ◌∙◌, inl, inr, Bool, false, none, some, List,
  ltb, ◌==◌, length, arith, unsigned_max, Bool-cases,
}
use runai_model_streamer.Prelude.Assoc.{lookup, lookup-emplace, emplace}
use runai_model_streamer.Common.ResponseCode.{ResponseCode, success, is_success}
use runai_model_streamer.Common.Result.{Result, ok, err}
use runai_model_streamer.Common.Response.{response_is_response}
use runai_model_streamer.Common.SharedQueue.{SharedQueue}
use runai_model_streamer.Common.SharedQueue
use runai_model_streamer.Impl.Request.{FileRanges}
use runai_model_streamer.Impl.Workload.{Workload}
use runai_model_streamer.Impl.Pools.{BackendPools}
use runai_model_streamer.Impl.Submissions.{Submission, generate}
use runai_model_streamer.Impl.Submissions.Fresh.{generate-fresh}
use runai_model_streamer.Impl.Streamer.{lock_object_plugin, classify, verify_requests}
use runai_model_streamer.Impl.Streamer.Prepare.{Preparing}
use runai_model_streamer.Impl.Assigner.Make
use runai_model_streamer.Impl.Streamer.Submit.{
  Streamer, Outside, ranges_in, bytes_in, finish, commit, build, mint, after_lock, after_prepare,
  async_request,
}
use runai_model_streamer.Impl.Streamer.Submit.Queues.{IsLocked, SameQueues, lock_classified-queued}
use runai_model_streamer.Impl.Streamer.Submit.Endings.{
  IsUntouched, IsCommitted, Commits, finish_lem, add_fresh,
}

module _ (env : Outside) (request : List FileRanges) (s : Streamer) where
  abbrev entry : Submission
  entry = record {
    remaining = ranges_in request;
    total_bytes = bytes_in request;
    submit_time = env.now;
  }

  finish-IsCommitted :
      (id : ℕ) (out : List Workload × BackendPools Workload) (u : Streamer)
      → lookup id s.submissions.submissions ≡ none
      → 0 < id
      → (0 < ranges_in request) × (ranges_in request ≤ unsigned_max)
      → u.submissions.submissions ≡ emplace id entry s.submissions.submissions
      → u.world.responder ≡ SharedQueue.increment s.world.responder (ranges_in request)
      → IsCommitted env.now request s (finish id out u)
  finish-IsCommitted id out u fresh a b live world =
      let r = finish id out u in
      let (g, l, ends, w) = finish_lem id out u in
      let m : r.streamer.submissions.submissions ≡ emplace id entry s.submissions.submissions =
        ap (λ m. m.submissions) l ∙ live in
      record {
        new_id = rw g fresh;
        positive = rw g a;
        ranges = b;
        registered =
            rw (g, m, lookup-emplace id id entry s.submissions.submissions fresh) (ground arith);
        others = λ j h.
            let k : id == j ≡ false = ground (arith, g) in
            rw (m, lookup-emplace id j entry s.submissions.submissions fresh, k) refl;
        ends = ends;
        expected = λ h. ap (λ x. x.responder) (w h) ∙ world;
      }

  commit-IsCommitted :
      (id : ℕ) (p : Preparing) (t : Streamer)
      → IsUntouched s t
      → lookup id s.submissions.submissions ≡ none
      → 0 < id
      → (0 < ranges_in request) × (ranges_in request ≤ unsigned_max)
      → IsCommitted env.now request s (commit env id request p t)
  unfolding commit
  commit-IsCommitted id p t v fresh a b =
      let f : lookup id t.submissions.submissions ≡ none = rw v.live fresh in
      let e = add_fresh t.submissions id (ranges_in request) (bytes_in request) env.now f in
      rw (e, commit)
        (finish-IsCommitted id _ _ fresh a b (ap (emplace id entry) v.live)
          (ap (λ x. SharedQueue.increment x.responder (ranges_in request)) v.world))

  like_flag :
      (t : Streamer) (b : Bool) → IsUntouched s t → IsUntouched s (record t { is_ready = b })
  like_flag t b v = record {
    live = v.live;
    world = v.world;
    next = v.next;
    files = v.files;
    objects = v.objects;
  }

  no_success :
      (ret : ResponseCode) (r : Result ResponseCode)
      → is_success ret ≡ false
      → r ≡ ok ret
      → r ≡ ok success
      → ranges_in request ≡ 0
  no_success ret r e f g = absurd (ground arith)

  after_prepare-Commits :
      (id : ℕ) (t : Streamer) (x : Result ResponseCode × Preparing)
      → IsUntouched s t
      → lookup id s.submissions.submissions ≡ none
      → 0 < id
      → (0 < ranges_in request) × (ranges_in request ≤ unsigned_max)
      → Commits env.now request s (after_prepare env id request t x)
  after_prepare-Commits id t (err e, p) v fresh a b = inl (like_flag t p.is_ready v, λ h. absurd cc)
  after_prepare-Commits id t (ok ret, p) v fresh a b = elim (Bool-cases (is_success ret)) [
    | inl e ↦ rw e (
        inr (
          commit-IsCommitted id p (record t { is_ready = p.is_ready })
            (record {
              live = v.live;
              world = v.world;
              next = v.next;
              files = v.files;
              objects = v.objects;
            })
            fresh a b))
    | inr e ↦ rw e (inl (like_flag t p.is_ready v, no_success ret (ok ret) e refl))
  ]

  made-Commits :
      (id : ℕ) (t : Streamer) (made : Result Make.Assigner)
      → IsUntouched s t
      → lookup id s.submissions.submissions ≡ none
      → 0 < id
      → (0 < ranges_in request) × (ranges_in request ≤ unsigned_max)
      → Make.create t.config request ≡ made
      → Commits env.now request s (build env id request t)
  unfolding build
  made-Commits id t (err e) v fresh a b f =
      let z : ranges_in request == 0 ≡ false = ground (arith, b.0) in
      rw (z, f, build) (inl (v, λ h. absurd cc))
  made-Commits id t (ok m) v fresh a b f =
      let z : ranges_in request == 0 ≡ false = ground (arith, b.0) in
      rw (z, f, build) (after_prepare-Commits id t _ v fresh a b)

  build-Commits :
      (id : ℕ) (t : Streamer)
      → IsUntouched s t
      → lookup id s.submissions.submissions ≡ none
      → 0 < id
      → ranges_in request ≤ unsigned_max
      → Commits env.now request s (build env id request t)
  unfolding build
  build-Commits id t v fresh a b = elim (Bool-cases (ranges_in request == 0)) [
    | inl e ↦ rw (e, build) (inl (v, λ h. ground arith))
    | inr e ↦ made-Commits id t _ v fresh a (ground arith, b) refl
  ]

  module _ (small : s.submissions.next_id < 2 ^ 64)
      (few : length s.submissions.submissions < 2 ^ 64 - 3) where
    mint-Commits :
        (t : Streamer)
        → IsUntouched s t
        → t.submissions ≡ s.submissions
        → Commits env.now request s (mint env request t)
    unfolding mint
    mint-Commits t v same = elim (Bool-cases (ltb unsigned_max (ranges_in request))) [
      | inl e ↦ rw (e, mint) (inl (v, λ h. absurd cc))
      | inr e ↦
          let (id, m, g, fresh, a, c, d, live) = generate-fresh s.submissions small few in
          let g' : generate t.submissions ≡ some (id, m) =
            subst (λ x. generate x ≡ some (id, m)) (sym same) g in
          rw (e, mint, g')
            (build-Commits id (record t { submissions = m })
              (record {
                live = live;
                world = v.world;
                next = v.next;
                files = v.files;
                objects = v.objects;
              })
              fresh a (ground arith))
    ]

    after_lock-Commits :
        (x : Result (ResponseCode × BackendPools Workload))
        → ((ret : ResponseCode) (q : BackendPools Workload)
            → x ≡ ok (ret, q)
            → SameQueues s.pools q)
        → Commits env.now request s (after_lock env request s x)
    after_lock-Commits (err e) h = inl (
      record { live = refl; world = refl; next = refl; files = refl; objects = refl },
      λ h. absurd cc,
    )
    after_lock-Commits (ok (ret, q)) h =
        let (f, o) = h ret q refl in
        elim (Bool-cases (is_success ret)) [
          | inl e ↦ rw e (
              mint-Commits (record s { pools = q })
                (record { live = refl; world = refl; next = refl; files = f; objects = o }) refl)
          | inr e ↦ rw e (
              inl (
                record { live = refl; world = refl; next = refl; files = f; objects = o },
                no_success ret (ok ret) e refl,
              ))
        ]

    verified-Commits :
        (x : Result (Unit {0}))
        → verify_requests request ≡ x
        → IsLocked s.pools
        → Commits env.now request s (async_request env request s)
    unfolding async_request
    verified-Commits (err e) f i =
        rw (f, async_request)
          (inl (
            record { live = refl; world = refl; next = refl; files = refl; objects = refl },
            λ h. absurd cc,
          ))
    verified-Commits (ok u) f i =
        rw (f, async_request)
          (after_lock-Commits (lock_object_plugin env.can_create request s.pools) (λ ret q e.
            lock_classified-queued env.can_create s.pools q ret (classify request none false) i e))

-- While ids are left, and a pool for object storage exists only once a plugin is locked, a call of
-- `async_request` ends in one of two ways, whatever the request and the outside. Either nothing is
-- committed: no submission is registered, the responder and the requests are as before, no
-- workload is pushed, and the call is no success unless there are no ranges. Or the submission is
-- registered under a new id that the caller is given, with one response expected for each range, and
-- the other submissions as before; the call returns Success, and then the responder expects just
-- these responses more, or UnknownError.
pub async_request-Commits :
    (env : Outside) (request : List FileRanges) (s : Streamer)
    → s.submissions.next_id < 2 ^ 64
    → length s.submissions.submissions < 2 ^ 64 - 3
    → IsLocked s.pools
    → Commits env.now request s (async_request env request s)
async_request-Commits env request s small few i =
    verified-Commits env request s small few (verify_requests request) refl i
