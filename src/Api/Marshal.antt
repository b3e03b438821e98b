-- ===== src/Api/Marshal.antt =====
-- cpp/streamer/streamer.cc, `submit_request`: the flat arrays of the C interface.
use runai_model_streamer.Prelude.{
  ℕ, zero, suc, ◌+◌, ◌^◌, ◌≤◌, ◌<◌, ◌≡◌, refl, ap, subst, ◌∙◌, Bool, true, false, ◌&&◌, Option,
  some, List, [], ◌∷◌, ◌++◌, arith, map, length, get_elem?-some, drop, sum_by, add_size,
  add_size-lt, ltb, ◌-◌, ◌*◌, ◌==◌, All,
}
use runai_model_streamer.Common.Result.{ok}
use runai_model_streamer.Impl.Request.{ReadRange, FileRanges}
use runai_model_streamer.Api.{
  Arrays, at, c_string, count_ranges, push_ranges, push_files, total_of, marshal,
}

-- A field of all ranges of a request, file by file.
abbrev pub flat : (ReadRange → ℕ) → List FileRanges → List ℕ
flat g [] = []
flat g (f ∷ fs) = map g f.ranges ++ flat g fs

-- A request that the arrays can carry: no character of a path is zero, the numbers of ranges and of
-- files are `unsigned`, and the rest are `size_t` or addresses.
pub record IsFile (f : FileRanges) : Type 0 where
  pub path : All (λ c. (0 < c) × (c < 2 ^ 8)) f.path
  pub count : length f.ranges < 2 ^ 32
  pub fields : All (λ r. (r.offset < 2 ^ 64) × (r.size < 2 ^ 64) × (r.dst < 2 ^ 64)) f.ranges

-- The arrays of a request, as a caller of the C interface lays them out.
abbrev pub arrays : List FileRanges → Arrays
arrays fs = record {
  paths = some (map (λ f. some (f.path ++ (0 ∷ []))) fs);
  num_ranges = some (map (λ f. length f.ranges) fs);
  range_offsets = some (flat (λ r. r.offset) fs);
  range_sizes = some (flat (λ r. r.size) fs);
  range_dsts = some (flat (λ r. r.dst) fs);
}

at-drop :
    {A : Type 0} (xs : List A) (k : ℕ) (x : A) (ys : List A)
    → drop k xs ≡ x ∷ ys
    → (at xs k ≡ ok x) × (drop (suc k) xs ≡ ys)
at-drop [] zero x ys h = absurd cc
at-drop [] (suc k) x ys h = absurd cc
at-drop (z ∷ xs) zero x ys h = (ground arith, ground arith)
at-drop (z ∷ xs) (suc k) x ys h = at-drop xs k x ys h

drop_past :
    {A : Type 0} (k : ℕ) (xs ys zs : List A) → drop k xs ≡ ys ++ zs → drop (k + length ys) xs ≡ zs
drop_past k xs [] zs h = let e : k + 0 ≡ k = omega arith in rw e h
drop_past k xs (y ∷ ys) zs h =
    let e : k + suc (length ys) ≡ suc k + length ys = omega arith in
    rw e (drop_past (suc k) xs ys zs (at-drop xs k y (ys ++ zs) h).1)

-- The arrays from position `k` on start with the fields of `rs`.
record Holds (rs : List ReadRange) (rest : List FileRanges) (k : ℕ) (o s d : List ℕ) : Type 0 where
  offsets : drop k o ≡ map (λ r. r.offset) rs ++ flat (λ r. r.offset) rest
  sizes : drop k s ≡ map (λ r. r.size) rs ++ flat (λ r. r.size) rest
  dsts : drop k d ≡ map (λ r. r.dst) rs ++ flat (λ r. r.dst) rest

abbrev of : Option (List (Option (List ℕ))) → Option (List ℕ) → List ℕ → List ℕ → List ℕ → Arrays
of p n o s d = record {
  paths = p;
  num_ranges = n;
  range_offsets = some o;
  range_sizes = some s;
  range_dsts = some d;
}

push_ranges_lem :
    (rs : List ReadRange) (rest : List FileRanges) (k : ℕ) (p : Option (List (Option (List ℕ))))
    (n : Option (List ℕ)) (o s d : List ℕ)
    → Holds rs rest k o s d
    → push_ranges (length rs) k (of p n o s d) ≡ ok rs
unfolding push_ranges
push_ranges_lem [] rest k p n o s d v = refl
push_ranges_lem (r ∷ rs) rest k p n o s d v =
    let (a, a') = at-drop o k r.offset _ v.offsets in
    let (b, b') = at-drop s k r.size _ v.sizes in
    let (c, c') = at-drop d k r.dst _ v.dsts in
    rw
      (
        a,
        b,
        c,
        push_ranges_lem rs rest (suc k) p n o s d (record { offsets = a'; sizes = b'; dsts = c' }),
      )
      refl

length-map : {A B : Type 0} (f : A → B) (xs : List A) → length (map f xs) ≡ length xs
length-map f [] = refl
length-map f (x ∷ xs) = ap suc (length-map f xs)

past :
    (g : ReadRange → ℕ) (rs : List ReadRange) (k : ℕ) (xs zs : List ℕ)
    → drop k xs ≡ map g rs ++ zs
    → drop (k + length rs) xs ≡ zs
past g rs k xs zs h =
    subst (λ n. drop (k + n) xs ≡ zs) (length-map g rs) (drop_past k xs (map g rs) zs h)

c_string-path :
    (path : List ℕ) → All (λ c. (0 < c) × (c < 2 ^ 8)) path → c_string (path ++ (0 ∷ [])) ≡ ok path
unfolding c_string
c_string-path [] h = refl
c_string-path (c ∷ cs) h =
    let e : c == 0 ≡ false = ground (arith, h.0) in rw (e, c_string-path cs h.1) refl

push_files_lem :
    (fs : List FileRanges) (i base : ℕ) (p : List (Option (List ℕ))) (n o s d : List ℕ)
    → All IsFile fs
    → drop i p ≡ map (λ f. some (f.path ++ (0 ∷ []))) fs
    → drop i n ≡ map (λ f. length f.ranges) fs
    → Holds [] fs base o s d
    → base + sum_by (λ f. length f.ranges) fs < 2 ^ 64
    → push_files (length fs) i base (of (some p) (some n) o s d) ≡ ok (some fs)
unfolding push_files
push_files_lem [] i base p n o s d c hp hn v h = refl
push_files_lem (f ∷ fs) i base p n o s d c hp hn v h =
    let (a, a') = at-drop p i (some (f.path ++ (0 ∷ []))) _ hp in
    let (b, b') = at-drop n i (length f.ranges) _ hn in
    let e = add_size-lt base (length f.ranges) (omega arith) in
    let rs =
      push_ranges_lem f.ranges fs base (some p) (some n) o s d
        (record { offsets = v.offsets; sizes = v.sizes; dsts = v.dsts }) in
    let next : Holds [] fs (base + length f.ranges) o s d = record {
      offsets = past (λ r. r.offset) f.ranges base o _ v.offsets;
      sizes = past (λ r. r.size) f.ranges base s _ v.sizes;
      dsts = past (λ r. r.dst) f.ranges base d _ v.dsts;
    } in
    let more =
      push_files_lem fs (suc i) (base + length f.ranges) p n o s d c.1 a' b' next (omega arith) in
    rw (a, c_string-path f.path c.0.path, b, rs, e, more) refl

count_ranges-suc :
    (left i total x : ℕ) (n : List ℕ)
    → at n i ≡ ok x
    → count_ranges (suc left) i n total ≡ count_ranges left (suc i) n (add_size total x)
unfolding count_ranges
count_ranges-suc left i total x n e = rw e refl

count_ranges-ok :
    (left i total : ℕ) (n : List ℕ)
    → i + left ≤ length n
    → (t : ℕ) × (count_ranges left i n total ≡ ok t)
unfolding count_ranges
count_ranges-ok zero i total n h = (total, refl)
count_ranges-ok (suc left) i total n h =
    let (x, e) = get_elem?-some n i (omega arith) in
    let (t, f) = count_ranges-ok left (suc i) (add_size total x) n (omega arith) in
    (t, count_ranges-suc left i total x n (rw (e, at) refl) ∙ f)

total_of-ok : (fs : List FileRanges) → (t : ℕ) × (total_of (length fs) (arrays fs) ≡ ok t)
total_of-ok [] = (0, refl)
total_of-ok (f ∷ fs) =
    count_ranges-ok (suc (length fs)) 0 0 _
      (let e = length-map (λ g. length g.ranges) (f ∷ fs) in omega arith)

and_false : (b : Bool) → b && false ≡ false
and_false true = refl
and_false false = refl

-- As many ranges as `unsigned` counts, for as many files.
few_ranges :
    (fs : List FileRanges)
    → All IsFile fs
    → sum_by (λ f. length f.ranges) fs ≤ length fs * (2 ^ 32 - 1)
few_ranges [] h = omega arith
few_ranges (f ∷ fs) h = omega (arith, h.0.count, few_ranges fs h.1)

-- A request that the arrays of the C interface can carry - paths without a zero, less than 2^32 files
-- and less than 2^32 ranges for each of them, and numbers of 64 bits - is laid out path by path and
-- range by range in the same order, each path with a zero behind it. The arrays are then read back as
-- this request.
pub marshal-arrays :
    (request : List FileRanges)
    → length request < 2 ^ 32
    → All IsFile request
    → marshal (length request) (arrays request) ≡ ok (some request)
unfolding marshal
marshal-arrays request h c =
    let (t, e) = total_of-ok request in
    let files =
      push_files_lem request 0 0 _ _ _ _ _ c refl refl
        (record { offsets = refl; sizes = refl; dsts = refl })
        (omega (arith, few_ranges request c)) in
    rw (and_false (ltb 0 (length request)), e, and_false (ltb 0 t), files, marshal) refl
