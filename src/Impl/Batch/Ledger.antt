-- ===== src/Impl/Batch/Ledger.antt =====
-- cpp/streamer/impl/batch: the batches of many files and submissions, when all their tasks end.
use runai_model_streamer.Prelude.{
  ℕ, zero, suc, ◌+◌, ◌<◌, ◌^◌, ◌≡◌, ◌∙◌, false, ◌&&◌, List, [], ◌∷◌, arith, ◌==◌, if◌then◌else◌,
  All, sum_by, dec_unsigned-pos,
}
use runai_model_streamer.Common.ResponseCode.{ResponseCode, is_success}
use runai_model_streamer.Impl.Request.{finished}
use runai_model_streamer.Impl.Task.{Task, finished_request}
use runai_model_streamer.Impl.Batch.{Batch, World, settle, settle_all, handle_error}
use runai_model_streamer.Impl.Batch.Account.{Log, log, pending, Indexed}

-- How many responses of a log answer range `index` of a file of a submission.
abbrev pub replies : (submission_id file_index index : ℕ) → Log → ℕ
replies submission_id file_index index [] = 0
replies submission_id file_index index (a ∷ q) =
    (if (a.submission_id == submission_id) && ((a.file_index == file_index) && (a.index == index))
      then 1
      else 0)
    + replies submission_id file_index index q

abbrev pub unanswered : ℕ → ℕ
unanswered zero = 0
unanswered (suc n) = 1

-- The tasks of a list of batches that have yet to end for the request at `p`.
abbrev pub pending_in : ℕ → List Batch → ℕ
pending_in p = sum_by (λ b. pending p b.tasks)

module _ (submission_id file_index : ℕ) (index : ℕ → ℕ) (p : ℕ) where
  -- The request at `p`, of which `n` tasks have yet to end, is answered once, when there is none.
  pub record Entry (n : ℕ) (w : World Log) : Type 0 where
    pub indexed : Indexed index w.heap
    pub counted : (w.heap p).tasks ≡ n
    pub small : (w.heap p).tasks < 2 ^ 32
    pub once :
        replies submission_id file_index (index p) w.responder + unanswered (w.heap p).tasks ≡ 1

  -- A task of a batch of submission `s` and file `f`: the request at `p` is of this submission and
  -- file, and no other of them has its index.
  abbrev pub IsOwn : (s f : ℕ) → Task → Type 0
  IsOwn s f t =
      (t.request ≡ p → (s ≡ submission_id) × (f ≡ file_index))
      × (s ≡ submission_id → f ≡ file_index → index t.request ≡ index p → t.request ≡ p)

  abbrev pub Owns : List Batch → Type 0
  Owns = All (λ b. All (IsOwn b.submission_id b.file_index) b.tasks)

  settle-indexed :
      (s f : ℕ) (c : ResponseCode) (t : Task) (w : World Log) (q : ℕ)
      → ((settle log s f c t w).1.heap q).index ≡ (w.heap q).index
  unfolding settle finished_request finished
  settle-indexed s f c t w q = ground arith

  -- The count of the request at `p` after a task of the batch has ended.
  settle-counted :
      (s f n : ℕ) (c : ResponseCode) (t : Task) (w : World Log)
      → Entry (pending p (t ∷ []) + n) w
      → ((settle log s f c t w).1.heap p).tasks ≡ n
  unfolding settle finished_request finished
  settle-counted s f n c t w v =
      ground (arith, v.counted, v.small, dec_unsigned-pos (w.heap p).tasks)

  settle-once :
      (s f n : ℕ) (c : ResponseCode) (t : Task) (w : World Log)
      → IsOwn s f t
      → Entry (pending p (t ∷ []) + n) w
      → (w.heap t.request).index ≡ index t.request
      → (w.heap p).index ≡ index p
      → let w' = (settle log s f c t w).1 in
        replies submission_id file_index (index p) w'.responder + unanswered (w'.heap p).tasks ≡ 1
  unfolding settle finished_request finished
  settle-once s f n c t w o v i j =
      ground (arith, o.0, o.1, v.counted, v.small, v.once, dec_unsigned-pos (w.heap p).tasks)

  pub settle-Entry :
      (s f n : ℕ) (c : ResponseCode) (t : Task) (w : World Log)
      → IsOwn s f t
      → Entry (pending p (t ∷ []) + n) w
      → Entry n (settle log s f c t w).1
  settle-Entry s f n c t w o v =
      let e = settle-counted s f n c t w v in
      record {
        indexed = λ q. settle-indexed s f c t w q ∙ v.indexed q;
        counted = e;
        small = omega (arith, v.counted, v.small);
        once = settle-once s f n c t w o v (v.indexed t.request) (v.indexed p);
      }

  pub settle_all-Entry :
      (s f n : ℕ) (c : ResponseCode) (ts : List Task) (w : World Log)
      → All (IsOwn s f) ts
      → Entry (pending p ts + n) w
      → Entry n (settle_all log s f c ts w).1
  unfolding settle_all
  settle_all-Entry s f n c [] w o v = record {
    indexed = v.indexed;
    counted = omega (arith, v.counted);
    small = v.small;
    once = v.once;
  }
  settle_all-Entry s f n c (t ∷ ts) w o v =
      settle_all-Entry s f n c ts (settle log s f c t w).1 o.1 (
        settle-Entry s f (pending p ts + n) c t w o.0 (record {
          indexed = v.indexed;
          counted = omega (arith, v.counted);
          small = v.small;
          once = v.once;
        }))

  pub handle_error-Entry :
      (n : ℕ) (c : ResponseCode) (b : Batch) (w : World Log)
      → is_success c ≡ false
      → All (IsOwn b.submission_id b.file_index) b.tasks
      → Entry (pending p b.tasks + n) w
      → Entry n (handle_error log b c w).1
  unfolding handle_error
  handle_error-Entry n c b w e o v =
      rw e (settle_all-Entry b.submission_id b.file_index n c b.tasks w o v)
