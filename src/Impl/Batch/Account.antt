-- ===== src/Impl/Batch/Account.antt =====
-- cpp/streamer/impl/batch: who answers a request. The tasks of a request are counted down by several
-- batches; the one that ends the last task sends the response.
use runai_model_streamer.Prelude.{
  ℕ, zero, suc, ◌+◌, ◌<◌, ◌^◌, ◌≡◌, refl, true, List, [], ◌∷◌, ◌++◌, arith, ltb, ◌==◌,
  if◌then◌else◌, All, dec_unsigned-pos, ◌&&◌, take, ◌∙◌, All-append, All-append_right, Bool-cases,
  inl, inr, ◌≤◌, map, ap₂, le→ltb_false,
}
use runai_model_streamer.Common.ResponseCode.{ResponseCode}
use runai_model_streamer.Common.Response.{Response}
use runai_model_streamer.Impl.Request.{Heap, finished}
use runai_model_streamer.Impl.Task.{Task, finished_request}
use runai_model_streamer.Impl.Batch.{World, settle, settle_all, settle_until}

-- A responder that keeps every response it is given.
abbrev pub Log : Type 0
Log = List Response

abbrev pub log : Log → Response → ℕ → Log
log q a n = a ∷ q

-- How many responses of a log answer range `index` of file `file_index`.
abbrev pub answers : ℕ → ℕ → Log → ℕ
answers file_index index [] = 0
answers file_index index (a ∷ q) =
    (if (a.file_index == file_index) && (a.index == index) then 1 else 0)
    + answers file_index index q

-- How many tasks of a list have yet to end for the request at address `p`.
abbrev pub pending : ℕ → List Task → ℕ
pending p [] = 0
pending p (t ∷ ts) = (if t.is_finished then 0 else if t.request == p then 1 else 0) + pending p ts

abbrev live : ℕ → ℕ
live zero = 0
live (suc n) = 1

-- The account of the request at `p` while its file's tasks are `ts` here, and `rest` elsewhere:
-- its counter is the number of tasks that have yet to end, and it is answered once, when that is 0.
-- `index` gives the index of each request of the file; no other request here has that of `p`.
pub record Account (file : ℕ) (index : ℕ → ℕ) (p rest : ℕ) (ts : List Task) (w : World Log)
    : Type 0 where
  pub counted : (w.heap p).tasks ≡ pending p ts + rest
  pub small : (w.heap p).tasks < 2 ^ 32
  pub once : answers file (index p) w.responder + live (w.heap p).tasks ≡ 1

abbrev pub Indexed : (ℕ → ℕ) → Heap → Type 0
Indexed index h = (q : ℕ) → (h q).index ≡ index q

abbrev pub Apart : (ℕ → ℕ) → ℕ → List Task → Type 0
Apart index p = All (λ t. index t.request ≡ index p → t.request ≡ p)

-- The account, with what it rests on.
pub record Books (file : ℕ) (index : ℕ → ℕ) (p rest : ℕ) (ts : List Task) (w : World Log)
    : Type 0 where
  pub indexed : Indexed index w.heap
  pub apart : Apart index p ts
  pub account : Account file index p rest ts w

abbrev pub AllFinished : List Task → Type 0
AllFinished = All (λ t. t.is_finished ≡ true)

pub pending-AllFinished : (p : ℕ) (ts : List Task) → AllFinished ts → pending p ts ≡ 0
pending-AllFinished p [] h = refl
pending-AllFinished p (t ∷ ts) h = ground (arith, pending-AllFinished p ts h.1)

-- The books of a request whose tasks here have all ended.
pub settled_account :
    (file : ℕ) (index : ℕ → ℕ) (p rest : ℕ) (ts : List Task) (w : World Log)
    → Books file index p rest ts w
    → AllFinished ts
    → ((w.heap p).tasks ≡ rest) × (rest ≡ 0 → answers file (index p) w.responder ≡ 1)
settled_account file index p rest ts w v h =
    let e : (w.heap p).tasks ≡ rest =
      omega (arith, v.account.counted, pending-AllFinished p ts h) in
    (e, λ z. ground (arith, v.account.once))

pub pending-append :
    (p : ℕ) (xs ys : List Task) → pending p (xs ++ ys) ≡ pending p xs + pending p ys
pending-append p [] ys = omega arith
pending-append p (x ∷ xs) ys = omega (arith, pending-append p xs ys)

module _ (sub file : ℕ) (index : ℕ → ℕ) (p : ℕ) where
  settle-Account :
      (c : ResponseCode) (rest : ℕ) (t : Task) (ts : List Task) (w : World Log)
      → ((w.heap t.request).index ≡ index t.request)
      → ((w.heap p).index ≡ index p)
      → (index t.request ≡ index p → t.request ≡ p)
      → Account file index p rest (t ∷ ts) w
      → Account file index p rest ((settle log sub file c t w).0 ∷ ts) (settle log sub file c t w).1
  unfolding settle finished_request finished
  settle-Account c rest t ts w i j a v = ground (arith, dec_unsigned-pos (w.heap p).tasks)

  settle_same :
      (c : ResponseCode) (t : Task) (w : World Log) (q : ℕ)
      → let (t', w') = settle log sub file c t w in
        ((w'.heap q).index ≡ (w.heap q).index)
        × (t'.request ≡ t.request)
        × (t'.is_finished ≡ true)
        × (t'.stop ≡ t.stop)
  unfolding settle finished_request finished
  settle_same c t w q = ground arith

  settle-Books :
      (c : ResponseCode) (rest : ℕ) (t : Task) (ts : List Task) (w : World Log)
      → Books file index p rest (t ∷ ts) w
      → Books file index p rest ((settle log sub file c t w).0 ∷ ts) (settle log sub file c t w).1
  settle-Books c rest t ts w v = record {
    indexed = λ q. (settle_same c t w q).0 ∙ v.indexed q;
    apart = (rw (settle_same c t w 0).1 v.apart.0, v.apart.1);
    account = settle-Account c rest t ts w (v.indexed t.request) (v.indexed p) v.apart.0 v.account;
  }

  -- Tasks that stand still count with those elsewhere.
  pub Books-drop :
      (rest : ℕ) (xs ys : List Task) (w : World Log)
      → Books file index p rest (xs ++ ys) w
      → Books file index p (pending p xs + rest) ys w
  Books-drop rest xs ys w v = record {
    indexed = v.indexed;
    apart = All-append_right (λ t. index t.request ≡ index p → t.request ≡ p) xs ys v.apart;
    account = record {
      counted = omega (arith, v.account.counted, pending-append p xs ys);
      small = v.account.small;
      once = v.account.once;
    };
  }

  pub Books-append :
      (rest : ℕ) (xs ys : List Task) (w : World Log)
      → Apart index p xs
      → Books file index p (pending p xs + rest) ys w
      → Books file index p rest (xs ++ ys) w
  Books-append rest xs ys w a v = record {
    indexed = v.indexed;
    apart = All-append (λ t. index t.request ≡ index p → t.request ≡ p) xs ys a v.apart;
    account = record {
      counted = omega (arith, v.account.counted, pending-append p xs ys);
      small = v.account.small;
      once = v.account.once;
    };
  }

  pub settle_all-Books :
      (c : ResponseCode) (rest : ℕ) (ts : List Task) (w : World Log)
      → Books file index p rest ts w
      → let (ts', w') = settle_all log sub file c ts w in
        Books file index p rest ts' w' × AllFinished ts'
  unfolding settle_all
  settle_all-Books c rest [] w v = (v, tt)
  settle_all-Books c rest (t ∷ ts) w v =
      let s = settle log sub file c t w in
      let one = settle-Books c rest t ts w v in
      let (more, done) =
        settle_all-Books c (pending p (s.0 ∷ []) + rest) ts s.1
          (Books-drop rest (s.0 ∷ []) ts s.1 one) in
      (Books-append rest (s.0 ∷ []) _ _ (one.apart.0, tt) more, ((settle_same c t w 0).2, done))

  pub settle_until-Books :
      (c : ResponseCode) (offset rest : ℕ) (ts : List Task) (w : World Log)
      → Books file index p rest ts w
      → let (n, ts', w') = settle_until log sub file offset c ts w in Books file index p rest ts' w'
  unfolding settle_until
  settle_until-Books c offset rest [] w v = v
  settle_until-Books c offset rest (t ∷ ts) w v = elim (Bool-cases (ltb offset t.stop)) [
    | inl e ↦ rw e v
    | inr e ↦
        let s = settle log sub file c t w in
        let one = settle-Books c rest t ts w v in
        let more =
          settle_until-Books c offset (pending p (s.0 ∷ []) + rest) ts s.1
            (Books-drop rest (s.0 ∷ []) ts s.1 one) in
        rw e (Books-append rest (s.0 ∷ []) _ _ (one.apart.0, tt) more)
  ]

-- Every task that ends at or before `offset` has ended after the walk, if no later one ends earlier.
pub settle_until-AllFinished :
    (sub file offset : ℕ) (c : ResponseCode) (ts : List Task) (w : World Log)
    → All (λ t. t.stop ≤ offset) ts
    → AllFinished (settle_until log sub file offset c ts w).1
unfolding settle_until
settle_until-AllFinished sub file offset c [] w h = tt
settle_until-AllFinished sub file offset c (t ∷ ts) w h = rw (le→ltb_false offset t.stop h.0) (
  (settle_same sub file (λ q. q) 0 c t w 0).2,
  settle_until-AllFinished sub file offset c ts (settle log sub file c t w).1 h.1,
)

-- The walk counts exactly the tasks that it ends, at the front, and moves no task.
pub settle_until_shape :
    (sub file offset : ℕ) (c : ResponseCode) (ts : List Task) (w : World Log)
    → let (n, ts', w') = settle_until log sub file offset c ts w in
      AllFinished (take n ts') × (map (λ t. t.stop) ts' ≡ map (λ t. t.stop) ts)
unfolding settle_until
settle_until_shape sub file offset c [] w = (tt, refl)
settle_until_shape sub file offset c (t ∷ ts) w = elim (Bool-cases (ltb offset t.stop)) [
  | inl e ↦ rw e (tt, refl)
  | inr e ↦
      let same = settle_same sub file (λ q. q) 0 c t w 0 in
      let (h, k) = settle_until_shape sub file offset c ts (settle log sub file c t w).1 in
      rw e ((same.2, h), ap₂ ◌∷◌ same.3 k)
]
