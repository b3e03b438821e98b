-- ===== src/Impl/Assigner/Coalesce/Expand.antt =====
-- cpp/streamer/impl/assigner/assigner.cc: the ranges that the coalesced transfers stand for.
use runai_model_streamer.Prelude.{
  ℕ, suc, ◌+◌, ◌-◌, ◌≤◌, ◌<◌, ◌^◌, ◌≡◌, refl, sym, ap, subst, ◌∙◌, none, some, List, [], ◌∷◌, ◌++◌,
  arith, ltb, add_size, add_size-lt, size_max, All, All-append, Bool-cases, inl, inr, append_assoc,
  ◌⊎◌,
}
use runai_model_streamer.Common.Result.{Result, ok, err, exception, ◌>>=◌}
use runai_model_streamer.Common.ResponseCode.{invalid_parameter_error}
use runai_model_streamer.Impl.Request.{ReadRange, FileRanges}
use runai_model_streamer.Impl.Assigner.Transfer.{ContiguousTransfer}
use runai_model_streamer.Impl.Assigner.Coalesce.{
  open_transfer, place, coalesce_ranges, coalesce_files, coalesce,
}
use runai_model_streamer.Impl.Assigner.Coalesce.Place.{
  Indexed, expand, expand_all, index_ranges, index_files, range_bytes, request_bytes, IsOpen,
  IsWhole, open_transfer-IsOpen, place-expand,
}

-- What coalescing gives when the total of the request is `n` and its ranges are `l`.
abbrev pub Outcome : Result (List ContiguousTransfer × ℕ) → ℕ → List Indexed → Type 0
Outcome r n l =
    ((n < 2 ^ 64)
      × (out : List ContiguousTransfer × ℕ) × (r ≡ ok out)
      × (out.1 ≡ n)
      × (expand_all out.0 ≡ l)
      × All IsWhole out.0)
    ⊎ ((2 ^ 64 ≤ n) × (r ≡ err (exception invalid_parameter_error)))

abbrev pub IsSized : List ReadRange → Type 0
IsSized = All (λ r. r.size < 2 ^ 64)

expand_all-append :
    (xs ys : List ContiguousTransfer) → expand_all (xs ++ ys) ≡ expand_all xs ++ expand_all ys
expand_all-append [] ys = refl
expand_all-append (x ∷ xs) ys = rw (expand_all-append xs ys) (sym (append_assoc (expand x) _ _))

-- Transfers in front of those of the rest.
prepend-Outcome :
    (closed : List ContiguousTransfer) (r : Result (List ContiguousTransfer × ℕ)) (n : ℕ)
    (l m : List Indexed)
    → All IsWhole closed
    → expand_all closed ++ l ≡ m
    → Outcome r n l
    → Outcome (r >>= λ more. ok (closed ++ more.0, more.1)) n m
prepend-Outcome closed r n l m h e (inl (b, out, p, q, x, w)) = rw p (
    inl (
      b,
      (closed ++ out.0, out.1),
      refl,
      q,
      expand_all-append closed out.0 ∙ ap (◌++◌ (expand_all closed)) x ∙ e,
      All-append IsWhole closed out.0 h w,
    ))
prepend-Outcome closed r n l m h e (inr (b, p)) = rw p (inr (b, refl))

ranges-Outcome :
    (file i : ℕ) (t : ContiguousTransfer) (total : ℕ) (rs : List ReadRange)
    → t.size ≤ total
    → total < 2 ^ 64
    → IsSized rs
    → IsOpen file i t
    → Outcome
        (coalesce_ranges file i (some t) total rs)
        (total + range_bytes rs)
        (expand t ++ index_ranges file i rs)
unfolding coalesce_ranges
ranges-Outcome file i t total [] a b c v = inl (
  omega arith,
  (t ∷ [], total),
  refl,
  omega arith,
  refl,
  (record { filled = v.filled; sized = v.sized; unassigned = v.unassigned }, tt),
)
ranges-Outcome file i t total (r ∷ rs) a b c v = elim (Bool-cases (ltb (size_max - r.size) total)) [
  | inl e ↦ rw e (inr (ground arith, refl))
  | inr e ↦
      let small : total + r.size < 2 ^ 64 = ground (arith, c.0) in
      let (tiles, whole, ready, le) = place-expand file i t r (omega arith) v in
      let total' : add_size total r.size ≡ total + r.size = add_size-lt total r.size small in
      let next = (place file i (some t) r).1 in
      let sum_eq : add_size total r.size + range_bytes rs ≡ total + range_bytes (r ∷ rs) =
        omega arith in
      rw e (
        prepend-Outcome (place file i (some t) r).0 _ _
          (expand next ++ index_ranges file (suc i) rs) _ whole
          (sym (append_assoc _ (expand next) _)
            ∙ ap (λ l. l ++ index_ranges file (suc i) rs) tiles
            ∙ append_assoc (expand t) _ _)
          (subst
            (λ n.
              Outcome (coalesce_ranges file (suc i) (some next) (add_size total r.size) rs) n
                (expand next ++ index_ranges file (suc i) rs))
            sum_eq
            (ranges-Outcome file (suc i) next (add_size total r.size) rs (omega arith) (omega arith)
              c.1 ready)))
]

open_transfer-size-le-add :
    (file total : ℕ) (r : ReadRange)
    → total + r.size < 2 ^ 64
    → (open_transfer file 0 r).size ≤ add_size total r.size
unfolding open_transfer
open_transfer-size-le-add file total r h = omega (arith, add_size-lt total r.size h)

-- A file of its own, with no transfer open.
file-Outcome :
    (file total : ℕ) (rs : List ReadRange)
    → total < 2 ^ 64
    → IsSized rs
    → Outcome
        (coalesce_ranges file 0 none total rs)
        (total + range_bytes rs)
        (index_ranges file 0 rs)
unfolding coalesce_ranges
file-Outcome file total [] b c = inl (omega arith, ([], total), refl, omega arith, refl, tt)
file-Outcome file total (r ∷ rs) b c = elim (Bool-cases (ltb (size_max - r.size) total)) [
  | inl e ↦ rw e (inr (ground arith, refl))
  | inr e ↦
      let small : total + r.size < 2 ^ 64 = ground (arith, b, c.0) in
      let total' : add_size total r.size ≡ total + r.size = add_size-lt total r.size small in
      let next = open_transfer file 0 r in
      let sum_eq : add_size total r.size + range_bytes rs ≡ total + range_bytes (r ∷ rs) =
        omega arith in
      rw e (
        prepend-Outcome [] _ _ (expand next ++ index_ranges file 1 rs) _ tt refl (
          subst
            (λ n.
              Outcome (coalesce_ranges file 1 (some next) (add_size total r.size) rs) n
                (expand next ++ index_ranges file 1 rs))
            sum_eq
            (ranges-Outcome file 1 next (add_size total r.size) rs
              (open_transfer-size-le-add file total r small) (omega arith) c.1
              (open_transfer-IsOpen file 0 r))))
]

files-Outcome :
    (file total : ℕ) (fs : List FileRanges)
    → total < 2 ^ 64
    → All (λ f. IsSized f.ranges) fs
    → Outcome (coalesce_files file total fs) (total + request_bytes fs) (index_files file fs)
unfolding coalesce_files
files-Outcome file total [] b c = inl (omega arith, ([], total), refl, omega arith, refl, tt)
files-Outcome file total (f ∷ fs) b c = elim (file-Outcome file total f.ranges b c.0) [
  | inr (h, e) ↦ rw e (inr (omega arith, refl))
  | inl (h, out, e, n, x, w) ↦
      let sum_eq : out.1 + request_bytes fs ≡ total + request_bytes (f ∷ fs) = omega arith in
      rw e (
        prepend-Outcome out.0 _ _ (index_files (suc file) fs) _ w
          (ap (λ l. l ++ index_files (suc file) fs) x)
          (subst (λ n. Outcome (coalesce_files (suc file) out.1 fs) n (index_files (suc file) fs))
            sum_eq (files-Outcome (suc file) out.1 fs (omega arith) c.1)))
]

-- Coalescing a request whose sizes are `size_t`. It fails with InvalidParameterError exactly when the
-- total does not fit `size_t`. Otherwise it returns that total, and transfers that stand for exactly
-- the ranges of the request: read back from each transfer's offset, destination and range sizes, with
-- the index of the file and the index in the file, they are all its ranges, once each, in order. Each
-- transfer covers at least one range, and its size is the sum of theirs.
pub coalesce-Outcome :
    (request : List FileRanges)
    → All (λ f. IsSized f.ranges) request
    → Outcome (coalesce request) (request_bytes request) (index_files 0 request)
unfolding coalesce
coalesce-Outcome request h =
    let e : 0 + request_bytes request ≡ request_bytes request = omega arith in
    subst (λ n. Outcome (coalesce_files 0 0 request) n (index_files 0 request)) e
      (files-Outcome 0 0 request (omega arith) h)
