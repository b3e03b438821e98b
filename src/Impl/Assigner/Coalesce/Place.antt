-- ===== src/Impl/Assigner/Coalesce/Place.antt =====
-- cpp/streamer/impl/assigner/assigner.cc: a range that is put into a transfer.
use runai_model_streamer.Prelude.{
  ℕ, suc, ◌+◌, ◌≤◌, ◌<◌, ◌^◌, ◌≡◌, ap, true, some, List, [], ◌∷◌, ◌++◌, arith, add_size,
  add_size_assoc, add_size-lt, length, length-append, sum, sum_by, sum_by-append, All, Bool-cases,
  inl, inr, append-nil,
}
use runai_model_streamer.Impl.Request.{ReadRange, FileRanges}
use runai_model_streamer.Impl.Assigner.Transfer.{ContiguousTransfer}
use runai_model_streamer.Impl.Assigner.Coalesce.{extends, extend, open_transfer, place}

-- A range of the request, with the index of its file and its index in the file.
pub record Indexed : Type 0 where
  pub file_index : ℕ
  pub index : ℕ
  pub range : ReadRange

abbrev pub entry : ℕ → ℕ → ReadRange → Indexed
entry file i r = record { file_index = file; index = i; range = r }

-- The ranges of given sizes that tile a file and a destination from an offset and an address on.
abbrev pub tile : ℕ → ℕ → ℕ → ℕ → List ℕ → List Indexed
tile file i offset dst [] = []
tile file i offset dst (n ∷ ns) =
    record { file_index = file; index = i; range = record { offset = offset; size = n; dst = dst } }
    ∷ tile file (suc i) (add_size offset n) (add_size dst n) ns

abbrev pub expand : ContiguousTransfer → List Indexed
expand t = tile t.file_index t.first_range_index t.offset t.destination t.range_sizes

abbrev pub expand_all : List ContiguousTransfer → List Indexed
expand_all [] = []
expand_all (t ∷ ts) = expand t ++ expand_all ts

abbrev pub index_ranges : ℕ → ℕ → List ReadRange → List Indexed
index_ranges file i [] = []
index_ranges file i (r ∷ rs) =
    record { file_index = file; index = i; range = r } ∷ index_ranges file (suc i) rs

abbrev pub index_files : ℕ → List FileRanges → List Indexed
index_files file [] = []
index_files file (f ∷ fs) = index_ranges file 0 f.ranges ++ index_files (suc file) fs

abbrev pub range_bytes : List ReadRange → ℕ
range_bytes rs = sum_by (λ r. r.size) rs

abbrev pub request_bytes : List FileRanges → ℕ
request_bytes fs = sum_by (λ f. range_bytes f.ranges) fs

-- One more range at the end of a tiling stands where the tiling ends.
pub tile-append :
    (file i offset dst n : ℕ) (m : ℕ) (ns : List ℕ)
    → tile file i offset dst ((m ∷ ns) ++ (n ∷ []))
      ≡ tile file i offset dst (m ∷ ns)
        ++ (record {
          file_index = file;
          index = i + length (m ∷ ns);
          range = record {
            offset = add_size offset (sum (m ∷ ns));
            size = n;
            dst = add_size dst (sum (m ∷ ns));
          };
        }
            ∷ [])
tile-append file i offset dst n m [] =
    let e : i + 1 ≡ suc i = omega arith in let f : m + 0 ≡ m = omega arith in rw (e, f)
tile-append file i offset dst n m (k ∷ ns) =
    let e : i + suc (suc (length ns)) ≡ suc i + suc (length ns) = omega arith in
    rw (e, ← add_size_assoc offset m (k + sum ns), ← add_size_assoc dst m (k + sum ns))
      (ap (◌∷◌ (entry file i (record { offset = offset; size = m; dst = dst })))
        (tile-append file (suc i) (add_size offset m) (add_size dst m) n k ns))

-- The transfer that is open before range `i` of a file.
pub record IsOpen (file i : ℕ) (t : ContiguousTransfer) : Type 0 where
  pub of_file : t.file_index ≡ file
  pub filled : 0 < length t.range_sizes
  pub sized : t.size ≡ sum t.range_sizes
  pub reaches : t.first_range_index + length t.range_sizes ≡ i
  pub unassigned : t.tasks ≡ []

-- What the assigner relies on: the size of a transfer is the sum of its ranges, of which there is
-- one at least, and no slice is made yet.
pub record IsWhole (t : ContiguousTransfer) : Type 0 where
  pub filled : 0 < length t.range_sizes
  pub sized : t.size ≡ sum t.range_sizes
  pub unassigned : t.tasks ≡ []

pub tile-append_nonempty :
    (file i offset dst n : ℕ) (ns : List ℕ)
    → 0 < length ns
    → tile file i offset dst (ns ++ (n ∷ []))
      ≡ tile file i offset dst ns
        ++ (entry file
              (i + length ns)
              (record { offset = add_size offset (sum ns); size = n; dst = add_size dst (sum ns) })
            ∷ [])
tile-append_nonempty file i offset dst n [] h = absurd (omega arith)
tile-append_nonempty file i offset dst n (m ∷ ns) h = tile-append file i offset dst n m ns

pub extend-expand :
    (file i : ℕ) (t : ContiguousTransfer) (r : ReadRange)
    → IsOpen file i t
    → extends t r ≡ true
    → expand (extend t r) ≡ expand t ++ (entry file i r ∷ [])
unfolding extend extends
extend-expand file i t r v h = ground (
  arith,
  tile-append_nonempty t.file_index t.first_range_index t.offset t.destination r.size t.range_sizes,
)

pub extend-IsOpen :
    (file i : ℕ) (t : ContiguousTransfer) (r : ReadRange)
    → t.size + r.size < 2 ^ 64
    → IsOpen file i t
    → IsOpen file (suc i) (extend t r)
unfolding extend
extend-IsOpen file i t r h v = ground (
  arith,
  length-append t.range_sizes (r.size ∷ []),
  sum_by-append (λ (x : ℕ). x) t.range_sizes (r.size ∷ []),
  add_size-lt t.size r.size,
)

pub open_transfer-IsOpen :
    (file i : ℕ) (r : ReadRange) → IsOpen file (suc i) (open_transfer file i r)
unfolding open_transfer
open_transfer-IsOpen file i r = ground arith

pub extend-size-le :
    (t : ContiguousTransfer) (r : ReadRange)
    → t.size + r.size < 2 ^ 64
    → (extend t r).size ≤ t.size + r.size
unfolding extend
extend-size-le t r h = omega (arith, add_size-lt t.size r.size h)

pub open_transfer-size-le :
    (file i : ℕ) (t : ContiguousTransfer) (r : ReadRange)
    → (open_transfer file i r).size ≤ t.size + r.size
unfolding open_transfer
open_transfer-size-le file i t r = omega arith

-- Placing a range adds just that range, and closes only whole transfers.
pub place-expand :
    (file i : ℕ) (t : ContiguousTransfer) (r : ReadRange)
    → t.size + r.size < 2 ^ 64
    → IsOpen file i t
    → let (closed, t') = place file i (some t) r in
      (expand_all closed ++ expand t' ≡ expand t ++ (entry file i r ∷ []))
      × All IsWhole closed
      × IsOpen file (suc i) t'
      × (t'.size ≤ t.size + r.size)
unfolding place
place-expand file i t r h v = elim (Bool-cases (extends t r)) [
  | inl e ↦
      rw e (extend-expand file i t r v e, tt, extend-IsOpen file i t r h v, extend-size-le t r h)
  | inr e ↦ rw e (
    rw append-nil,
    (record { filled = v.filled; sized = v.sized; unassigned = v.unassigned }, tt),
    open_transfer-IsOpen file i r,
    open_transfer-size-le file i t r,
  )
]
