-- ===== src/Impl/Batch/Execute/Notify.antt =====
-- cpp/streamer/impl/batch/batch.cc: the notifications of a synchronous read.
use runai_model_streamer.Prelude.{
  ℕ, zero, suc, ◌+◌, ◌≤◌, ◌≡◌, refl, sym, ap, ◌∙◌, true, List, [], ◌∷◌, ◌++◌, map, arith, All,
  All-append, All-append_left, All-append_right, take, drop, take-append-drop, subst, subst₂,
}
use runai_model_streamer.Common.ResponseCode.{success}
use runai_model_streamer.Common.Result.{Result, ok, err}
use runai_model_streamer.Impl.Task.{Task}
use runai_model_streamer.Impl.File.{IsFailure}
use runai_model_streamer.Impl.Batch.{Batch, World, finished_until}
use runai_model_streamer.Impl.Batch.Read.{Reading, notify, continue, after_read}
use runai_model_streamer.Impl.Batch.Account.{
  Log, log, pending, Books, AllFinished, Books-drop, Books-append, settle_until-Books,
  settle_until-AllFinished, settle_until_shape,
}

abbrev pub Below : ℕ → List Task → Type 0
Below n = All (λ t. t.stop ≤ n)

pub Below-map :
    (n : ℕ) (xs ys : List Task)
    → map (λ t. t.stop) xs ≡ map (λ t. t.stop) ys
    → Below n ys
    → Below n xs
Below-map n [] ys e h = tt
Below-map n (x ∷ xs) [] e h = cc
Below-map n (x ∷ xs) (y ∷ ys) e h = (ground arith, Below-map n xs ys (cc) h.1)

pub empty_of_map : (xs : List Task) → map (λ t. t.stop) xs ≡ [] → xs ≡ []
empty_of_map [] e = refl
empty_of_map (x ∷ xs) e = cc

pub AllFinished-take :
    (u n : ℕ) (ts ys : List Task)
    → (drop u ts ≡ [] → ys ≡ [])
    → AllFinished (take u ts)
    → AllFinished (take n ys)
    → AllFinished (take (u + n) (take u ts ++ ys))
AllFinished-take zero n ts ys e h k = let p : zero + n ≡ n = omega arith in rw p k
AllFinished-take (suc u) n [] ys e h k =
    let q : suc u + n ≡ suc (u + n) = omega arith in rw (e refl, q) tt
AllFinished-take (suc u) n (t ∷ ts) ys e h k =
    let p : suc u + n ≡ suc (u + n) = omega arith in rw p (h.0, AllFinished-take u n ts ys e h.1 k)

module _ (b : Batch) (index : ℕ → ℕ) (p rest : ℕ) where
  -- A read of `b` under way: the books balance, the tasks before `_unfinished` have ended, and what
  -- was thrown is no success.
  pub record Good (s : Reading Log) : Type 0 where
    pub file : s.batch.file_index ≡ b.file_index
    pub range : s.batch.range ≡ b.range
    pub books : Books b.file_index index p rest s.batch.tasks s.world
    pub front : AllFinished (take s.batch.unfinished s.batch.tasks)
    pub below : Below b.range.stop s.batch.tasks
    pub failure : IsFailure s.status

  -- `settle_until` on the tasks from `_unfinished` on, in the books of the batch.
  pub notify-Books :
      (n : ℕ) (s : Reading Log)
      → Good s
      → Books b.file_index index p rest (notify log n s).batch.tasks (notify log n s).world
  unfolding notify finished_until
  notify-Books n s v =
      let u = s.batch.unfinished in
      let before = take u s.batch.tasks in
      let after = drop u s.batch.tasks in
      let whole : before ++ after ≡ s.batch.tasks = take-append-drop u s.batch.tasks in
      let books = subst (λ l. Books b.file_index index p rest l s.world) (sym whole) v.books in
      rw v.file (
        Books-append s.batch.submission_id b.file_index index p rest before _ _
          (All-append_left (λ t. index t.request ≡ index p → t.request ≡ p) before after
            books.apart)
          (settle_until-Books s.batch.submission_id b.file_index index p success n
            (pending p before + rest) after s.world
            (Books-drop s.batch.submission_id b.file_index index p rest before after s.world
              books)))

  pub notify-Good : (n : ℕ) (s : Reading Log) → Good s → Good (notify log n s)
  unfolding notify finished_until
  notify-Good n s v =
      let u = s.batch.unfinished in
      let before = take u s.batch.tasks in
      let after = drop u s.batch.tasks in
      let whole : before ++ after ≡ s.batch.tasks = take-append-drop u s.batch.tasks in
      let below = subst (Below b.range.stop) (sym whole) v.below in
      let (done, stops) =
        settle_until_shape s.batch.submission_id s.batch.file_index n success after s.world in
      record {
        file = v.file;
        range = v.range;
        books = notify-Books n s v;
        front =
            AllFinished-take u _ s.batch.tasks _
              (λ e. empty_of_map _ (stops ∙ ap (map (λ t. t.stop)) e)) v.front done;
        below =
            All-append (λ t. t.stop ≤ b.range.stop) before _
              (All-append_left (λ t. t.stop ≤ b.range.stop) before after below)
              (Below-map b.range.stop _ after stops
                (All-append_right (λ t. t.stop ≤ b.range.stop) before after below));
        failure = v.failure;
      }

  -- The notification at the end of the range leaves no task.
  pub notify-AllFinished :
      (s : Reading Log) → Good s → AllFinished (notify log b.range.stop s).batch.tasks
  unfolding notify finished_until
  notify-AllFinished s v =
      let u = s.batch.unfinished in
      let before = take u s.batch.tasks in
      let after = drop u s.batch.tasks in
      let whole : before ++ after ≡ s.batch.tasks = take-append-drop u s.batch.tasks in
      let below = subst (Below b.range.stop) (sym whole) v.below in
      All-append (λ t. t.is_finished ≡ true) before _ v.front
        (settle_until-AllFinished s.batch.submission_id s.batch.file_index b.range.stop success
          after s.world (All-append_right (λ t. t.stop ≤ b.range.stop) before after below))

  pub same-Good :
      (s t : Reading Log)
      → s.batch ≡ t.batch
      → s.world ≡ t.world
      → s.status ≡ t.status
      → Good s
      → Good t
  same-Good s t e f g v = record {
    file = ap (λ (x : Batch). x.file_index) (sym e) ∙ v.file;
    range = ap (λ (x : Batch). x.range) (sym e) ∙ v.range;
    books =
        subst₂ (λ (x : Batch) (y : World Log). Books b.file_index index p rest x.tasks y) e f
          v.books;
    front = subst (λ (x : Batch). AllFinished (take x.unfinished x.tasks)) e v.front;
    below = subst (λ (x : Batch). Below b.range.stop x.tasks) e v.below;
    failure = subst IsFailure g v.failure;
  }

  pub continue-Good :
      (r : Result (Unit {0})) (s t : Reading Log) → Good s → Good t → Good (continue r s t)
  continue-Good (err e) s t v w = v
  continue-Good (ok _) s t v w = w

  pub after_read-Good :
      (r : Result (Unit {0})) (n : ℕ) (s : Reading Log)
      → IsFailure r
      → Good s
      → Good (after_read r n s)
  after_read-Good (err e) n s h v = record {
    file = v.file;
    range = v.range;
    books = v.books;
    front = v.front;
    below = v.below;
    failure = h;
  }
  after_read-Good (ok _) n s h v = same-Good s _ refl refl refl v

  -- A read that ends without an error has ended every task of its batch.
  abbrev pub Ends : Reading Log → Type 0
  Ends s = Good s × (s.status ≡ ok tt → AllFinished s.batch.tasks)
