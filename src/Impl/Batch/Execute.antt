-- ===== src/Impl/Batch/Execute.antt =====
-- cpp/streamer/impl/batch/batch.cc: what a synchronous read leaves behind, however it ends.
mod Notify
use runai_model_streamer.Prelude.{
  ℕ, zero, suc, ◌+◌, ◌≤◌, ◌≡◌, refl, sym, ap, ◌∙◌, Bool, true, false, List, [], ◌∷◌, ◌++◌, map,
  arith, ltb, All, All-append, All-append_left, All-append_right, take, drop, take-append-drop,
  Bool-cases, inl, inr, subst, subst₂, sub_size, ◌/◌, if◌then◌else◌,
}
use runai_model_streamer.Common.ResponseCode.{success, finished_error}
use runai_model_streamer.Common.Result.{Result, ok, err, exception, assertion, code_of, err-ne-ok}
use runai_model_streamer.Impl.Task.{Task}
use runai_model_streamer.Impl.File.{
  Os, IsFailure, open_file, open_file-IsFailure, seek-IsFailure, read-IsFailure,
}
use runai_model_streamer.Impl.Batch.{Batch, Range, World, finished_until, handle_error}
use runai_model_streamer.Impl.Batch.Read.{
  Reading, notify, read_at, read_chunk, read_chunks, read_rest, read_end, read, reading, attempt,
  execute, code_of_status, read_range, unless_empty, continue, after_read, after_seek, advance,
  look,
}
use runai_model_streamer.Impl.Batch.Account.{
  Log, log, answers, pending, Books, AllFinished, Books-drop, Books-append, settle_all-Books,
  settle_until-Books, settle_until-AllFinished, settle_until_shape, settled_account,
}
use runai_model_streamer.Impl.Batch.Execute.Notify.{
  Below, Below-map, empty_of_map, AllFinished-take, Good, notify-Books, notify-Good,
  notify-AllFinished, same-Good, continue-Good, after_read-Good, Ends,
}

module _ (b : Batch) (index : ℕ → ℕ) (p rest : ℕ) where
  module _ (os : Os) (stopped : ℕ → Bool) where
    read_at-Good :
        (n : ℕ) (s : Reading Log) → Good b index p rest s → Good b index p rest (read_at os n s)
    unfolding read_at
    read_at-Good n s v = after_read-Good b index p rest _ n s (read-IsFailure os s.file_offset n) v

    read_chunk-Good :
        (n : ℕ) (s : Reading Log)
        → Good b index p rest s
        → Good b index p rest (read_chunk log os stopped n s)
    unfolding read_chunk
    read_chunk-Good n s v =
        let t = read_at os n s in
        let w = read_at-Good n s v in
        continue-Good b index p rest t.status t _ w (
          notify-Good b index p rest _ (advance n t)
            (same-Good b index p rest t _ refl refl refl w))

    read_chunks-Good :
        (n k : ℕ) (s : Reading Log)
        → Good b index p rest s
        → Good b index p rest (read_chunks log os stopped n k s)
    unfolding read_chunks
    read_chunks-Good n zero s v = v
    read_chunks-Good n (suc k) s v =
        let w = read_chunk-Good n (look s) (same-Good b index p rest s _ refl refl refl v) in
        let t = read_chunk log os stopped n (look s) in
        elim (Bool-cases (stopped s.looks)) [
          | inl e ↦ rw e (same-Good b index p rest s _ refl refl refl v)
          | inr e ↦ rw e (continue-Good b index p rest t.status t _ w (read_chunks-Good n k t w))
        ]

    read_rest-Good :
        (s : Reading Log) → Good b index p rest s → Good b index p rest (read_rest log os stopped s)
    unfolding read_rest
    read_rest-Good s v =
        let w : Good b index p rest (look s) = same-Good b index p rest s _ refl refl refl v in
        let t = read_at os (sub_size s.batch.range.stop s.file_offset) (look s) in
        let x = read_at-Good (sub_size s.batch.range.stop s.file_offset) (look s) w in
        elim (Bool-cases (ltb s.file_offset s.batch.range.stop)) [
          | inr e ↦ rw e v
          | inl e ↦ elim (Bool-cases (stopped s.looks)) [
            | inl f ↦ rw (e, f) w
            | inr f ↦
                rw (e, f)
                  (continue-Good b index p rest t.status t _ x
                    (notify-Good b index p rest s.batch.range.stop t x))
          ]
        ]

    failed-Ends :
        (s : Reading Log)
        → Good b index p rest s
        → Ends b index p rest
            (record s { looks = suc s.looks; status = err (exception finished_error) })
    failed-Ends s v = (
      record {
        file = v.file;
        range = v.range;
        books = v.books;
        front = v.front;
        below = v.below;
        failure = refl;
      },
      λ e. cc,
    )

    continue-Ends :
        (r : Result (Unit {0})) (s t : Reading Log)
        → s.status ≡ r
        → Good b index p rest s
        → Ends b index p rest t
        → Ends b index p rest (continue r s t)
    continue-Ends (err e) s t p v w = (v, λ f. cc)
    continue-Ends (ok _) s t p v w = w

    read_end-Ends :
        ((n : ℕ) → stopped n ≡ true → stopped (suc n) ≡ true)
        → (s : Reading Log) → Good b index p rest s
        → Ends b index p rest (read_end log os stopped s)
    unfolding read_end
    read_end-Ends sticky s v =
        let w : Good b index p rest (look s) = same-Good b index p rest s _ refl refl refl v in
        let stop = s.batch.range.stop in
        let x = notify-Good b index p rest stop (look s) w in
        let range : stop ≡ b.range.stop = ap (λ (r : Range). r.stop) v.range in
        elim (Bool-cases (stopped s.looks)) [
          | inl e ↦ rw (e, sticky _ e) (failed-Ends (look s) w)
          | inr e ↦ rw e (elim (Bool-cases (stopped (suc s.looks))) [
            | inl f ↦ rw f (failed-Ends (notify log stop (look s)) x)
            | inr f ↦ rw f (
              same-Good b index p rest (notify log stop (look s)) _ refl refl refl x,
              λ _.
                  subst (λ n. AllFinished (notify log n (look s)).batch.tasks) (sym range)
                    (notify-AllFinished b index p rest (look s) w),
            )
          ])
        ]

    read_range-Ends :
        ((n : ℕ) → stopped n ≡ true → stopped (suc n) ≡ true)
        → (s : Reading Log) → Good b index p rest s
        → Ends b index p rest (read_range log os stopped s)
    unfolding read_range
    read_range-Ends sticky s v =
        let block = s.batch.config.fs_block_bytesize in
        let t = read_chunks log os stopped block (s.batch.range.size / block) s in
        let w = read_chunks-Good block (s.batch.range.size / block) s v in
        let u = continue t.status t (read_rest log os stopped t) in
        let x = continue-Good b index p rest t.status t _ w (read_rest-Good t w) in
        continue-Ends u.status u (read_end log os stopped u) refl x (read_end-Ends sticky u x)

    unless_empty-Ends :
        (ts : List Task) (s t : Reading Log)
        → s.batch.tasks ≡ ts
        → Good b index p rest s
        → Ends b index p rest t
        → Ends b index p rest (unless_empty ts s t)
    unless_empty-Ends [] s t e v w = (v, λ _. subst AllFinished (sym e) tt)
    unless_empty-Ends (_ ∷ _) s t e v w = w

    after_seek-Ends :
        (r : Result (Unit {0})) (s t : Reading Log)
        → IsFailure r
        → Good b index p rest s
        → Ends b index p rest t
        → Ends b index p rest (after_seek r s t)
    after_seek-Ends (err e) s t h v w = (
      record {
        file = v.file;
        range = v.range;
        books = v.books;
        front = v.front;
        below = v.below;
        failure = h;
      },
      λ g. cc,
    )
    after_seek-Ends (ok _) s t h v w = w

    -- The state from which a read of `b` starts.
    reading-Good :
        (w : World Log)
        → b.unfinished ≡ 0
        → Below b.range.stop b.tasks
        → Books b.file_index index p rest b.tasks w
        → Good b index p rest (reading b w)
    reading-Good w u h v = record {
      file = refl;
      range = refl;
      books = v;
      front = rw u tt;
      below = h;
      failure = tt;
    }

    read-Ends :
        ((n : ℕ) → stopped n ≡ true → stopped (suc n) ≡ true)
        → (w : World Log) → Good b index p rest (reading b w)
        → Ends b index p rest (read log os stopped b w)
    unfolding read
    read-Ends sticky w v = unless_empty-Ends b.tasks (reading b w) _ refl v (
        after_seek-Ends _ (reading b w) _ (seek-IsFailure os b.range.start) v
          (read_range-Ends sticky (reading b w) v))

    if-Ends :
        (c : Bool) (s t : Reading Log)
        → Ends b index p rest s
        → Ends b index p rest t
        → Ends b index p rest (if c then s else t)
    if-Ends true s t v w = v
    if-Ends false s t v w = w

    refused-Ends :
        (s : Reading Log)
        → Good b index p rest s
        → Ends b index p rest (record s { status = err assertion })
    refused-Ends s v = (
      record {
        file = v.file;
        range = v.range;
        books = v.books;
        front = v.front;
        below = v.below;
        failure = refl;
      },
      λ f. absurd (err-ne-ok _ _ f),
    )

    attempt-Ends :
        ((n : ℕ) → stopped n ≡ true → stopped (suc n) ≡ true)
        → (w : World Log) → Good b index p rest (reading b w)
        → Ends b index p rest (attempt log os stopped b w)
    unfolding attempt
    attempt-Ends sticky w v = if-Ends b.is_object_storage _ _ (refused-Ends (reading b w) v) (
        after_seek-Ends (open_file os) (reading b w) (read log os stopped b w)
          (open_file-IsFailure os) v (read-Ends sticky w v))

  -- The handler of `execute` ends what the read has left.
  handle-Ends :
      (r : Result (Unit {0})) (s : Reading Log)
      → s.status ≡ r
      → Ends b index p rest s
      → let (b', w') = handle_error log s.batch (code_of_status r) s.world in
        Books b.file_index index p rest b'.tasks w' × AllFinished b'.tasks
  unfolding handle_error
  handle-Ends (ok u) s e v = (v.0.books, v.1 e)
  handle-Ends (err f) s e v =
      rw (subst IsFailure e v.0.failure, v.0.file)
        (settle_all-Books s.batch.submission_id b.file_index index p (code_of f) rest s.batch.tasks
          s.world v.0.books)

-- A batch whose tasks all end within its range, of which none is marked: however the file behaves and
-- whenever the stop flag is raised (it is never lowered), after `execute` every task of the batch has
-- ended, each request that it shares with other batches has been counted down by exactly the tasks
-- ended here, and a request that no other batch has a task of is answered by exactly one response.
pub execute-Books :
    (b : Batch) (index : ℕ → ℕ) (p rest : ℕ) (os : Os) (stopped : ℕ → Bool) (w : World Log)
    → ((n : ℕ) → stopped n ≡ true → stopped (suc n) ≡ true)
    → b.unfinished ≡ 0
    → All (λ t. t.stop ≤ b.range.stop) b.tasks
    → Books b.file_index index p rest b.tasks w
    → let (b', w') = execute log os stopped b w in
      AllFinished b'.tasks
      × ((w'.heap p).tasks ≡ rest)
      × (rest ≡ 0 → answers b.file_index (index p) w'.responder ≡ 1)
unfolding execute
execute-Books b index p rest os stopped w sticky u h v =
    let s = attempt log os stopped b w in
    let x = reading-Good b index p rest os stopped w u h v in
    let (books, done) =
      handle-Ends b index p rest s.status s refl
        (attempt-Ends b index p rest os stopped sticky w x) in
    let (count, answer) = settled_account b.file_index index p rest _ _ books done in
    (done, count, answer)
