-- ===== src/Impl/Streamer/Submit/Endings.antt =====
-- cpp/streamer/impl/streamer/streamer.cc, `async_request`: the ways in which a submission ends.
use runai_model_streamer.Prelude.{
  ℕ, ◌≤◌, ◌<◌, ◌≡◌, refl, ◌⊎◌, inl, inr, false, none, some, List, [], ◌∷◌, ◌==◌, unsigned_max,
}
use runai_model_streamer.Prelude.Assoc.{lookup, emplace}
use runai_model_streamer.Common.ResponseCode.{success, unknown_error}
use runai_model_streamer.Common.Result.{ok}
use runai_model_streamer.Common.Response.{response_is_response}
use runai_model_streamer.Common.SharedQueue.{SharedQueue}
use runai_model_streamer.Common.SharedQueue
use runai_model_streamer.Impl.Request.{FileRanges}
use runai_model_streamer.Impl.Workload.{Workload}
use runai_model_streamer.Impl.Pools.{BackendPools}
use runai_model_streamer.Impl.Submissions.{SubmissionsMgr, add}
use runai_model_streamer.Impl.Streamer.Submit.{Streamer, Submitted, ranges_in, bytes_in, finish}
use runai_model_streamer.Impl.Streamer.Submit.Queues.{queued}

-- Nothing is committed: no submission is registered, no response expected, no workload pushed.
pub record IsUntouched (s t : Streamer) : Type 0 where
  pub live : t.submissions.submissions ≡ s.submissions.submissions
  pub world : t.world ≡ s.world
  pub next : t.next ≡ s.next
  pub files : queued t.pools.filesystem_pool ≡ queued s.pools.filesystem_pool
  pub objects : queued t.pools.object_storage_pool ≡ queued s.pools.object_storage_pool

-- The submission is registered under a new id, with one response expected for each range.
pub record IsCommitted (now : ℕ) (request : List FileRanges) (s : Streamer) (r : Submitted)
    : Type 0 where
  pub new_id : lookup r.id s.submissions.submissions ≡ none
  pub positive : 0 < r.id
  pub ranges : (0 < ranges_in request) × (ranges_in request ≤ unsigned_max)
  pub registered :
      lookup r.id r.streamer.submissions.submissions
      ≡ some (record {
        remaining = ranges_in request;
        total_bytes = bytes_in request;
        submit_time = now;
      })
  pub others :
      (j : ℕ)
      → j == r.id ≡ false
      → lookup j r.streamer.submissions.submissions ≡ lookup j s.submissions.submissions
  pub ends : (r.result ≡ ok success) ⊎ (r.result ≡ ok unknown_error)
  pub expected :
      r.result ≡ ok success
      → r.streamer.world.responder ≡ SharedQueue.increment s.world.responder (ranges_in request)

-- Either nothing is committed, and then success is only for a request without ranges; or all is.
abbrev pub Commits : ℕ → List FileRanges → Streamer → Submitted → Type 0
Commits now request s r =
    (IsUntouched s r.streamer × (r.result ≡ ok success → ranges_in request ≡ 0))
    ⊎ IsCommitted now request s r

pub finish_lem :
    (id : ℕ) (out : List Workload × BackendPools Workload) (s : Streamer)
    → let r = finish id out s in
      (r.id ≡ id)
      × (r.streamer.submissions ≡ s.submissions)
      × ((r.result ≡ ok success) ⊎ (r.result ≡ ok unknown_error))
      × (r.result ≡ ok success → r.streamer.world ≡ s.world)
unfolding finish
finish_lem id ([], pools) s = (refl, refl, inl refl, λ e. refl)
finish_lem id (w ∷ ws, pools) s = (refl, refl, inr refl, λ e. absurd (cc))

pub add_fresh :
    (m : SubmissionsMgr) (id expected total now : ℕ)
    → lookup id m.submissions ≡ none
    → add m id expected total now
      ≡ ok (record m {
        submissions =
            emplace id
              (record { remaining = expected; total_bytes = total; submit_time = now })
              m.submissions;
      })
unfolding add
add_fresh m id expected total now h = rw (h, add) refl
