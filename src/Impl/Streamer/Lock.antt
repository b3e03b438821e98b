-- ===== src/Impl/Streamer/Lock.antt =====
-- cpp/streamer/impl/streamer/streamer.cc, `lock_object_plugin`: the kind of a submission.
use runai_model_streamer.Prelude.{
  ◌≡◌, refl, Bool, true, false, Option, none, some, List, [], ◌∷◌, arith, All, List-cases,
  Option-cases, Bool-cases, ◌∙◌, ◌⊎◌, inl, inr,
}
use runai_model_streamer.Common.ResponseCode.{success}
use runai_model_streamer.Common.Result.{Result, ok}
use runai_model_streamer.Impl.Request.{FileRanges}
use runai_model_streamer.Impl.Pools.{Plugin, s3, gcs, azure, same_plugin, BackendPools}
use runai_model_streamer.Impl.Streamer.{
  plugin_of, differs, classify, lock_classified, lock_object_plugin,
}

same_plugin-eq : (p q : Plugin) → same_plugin p q ≡ true → p ≡ q
same_plugin-eq s3 s3 e = refl
same_plugin-eq gcs gcs e = refl
same_plugin-eq azure azure e = refl
same_plugin-eq s3 gcs e = cc
same_plugin-eq s3 azure e = cc
same_plugin-eq gcs s3 e = cc
same_plugin-eq gcs azure e = cc
same_plugin-eq azure s3 e = cc
same_plugin-eq azure gcs e = cc

-- A file is of the kind of `p` if it has no ranges, or its path is.
pub Of : Option Plugin → FileRanges → Type 0
Of p f = (f.ranges ≡ []) ⊎ (plugin_of f.path ≡ p)

-- The end of the loop, from its start.
abbrev Kinds : List FileRanges → Option Plugin → Bool → Option (Option Plugin × Bool) → Type 0
Kinds fs p h none = Unit {0}
Kinds fs p h (some (q, true)) = (q ≡ none → (p ≡ none) × All (Of none) fs)
Kinds fs p h (some (q, false)) = (h ≡ false) × ((p ≡ none) ⊎ (p ≡ q)) × All (Of q) fs

differs-eq : (p : Option Plugin) (q : Plugin) → differs p q ≡ false → (p ≡ none) ⊎ (p ≡ some q)
differs-eq none q e = inl refl
differs-eq (some p) q e = ground (arith, same_plugin-eq p q)

Kinds-skip :
    (f : FileRanges) (fs : List FileRanges) (p : Option Plugin) (h : Bool)
    (r : Option (Option Plugin × Bool))
    → f.ranges ≡ []
    → Kinds fs p h r
    → Kinds (f ∷ fs) p h r
unfolding Of
Kinds-skip f fs p h none e k = tt
Kinds-skip f fs p h (some (q, true)) e k = λ n. ((k n).0, (inl e, (k n).1))
Kinds-skip f fs p h (some (q, false)) e (a, b, c) = (a, b, (inl e, c))

Kinds-file :
    (f : FileRanges) (fs : List FileRanges) (p : Option Plugin) (h : Bool)
    (r : Option (Option Plugin × Bool))
    → plugin_of f.path ≡ none
    → Kinds fs p true r
    → Kinds (f ∷ fs) p h r
unfolding Of
Kinds-file f fs p h none e k = tt
Kinds-file f fs p h (some (q, true)) e k = λ n. ((k n).0, (inr e, (k n).1))
Kinds-file f fs p h (some (q, false)) e (a, b, c) = absurd cc

Kinds-plugin :
    (f : FileRanges) (fs : List FileRanges) (p : Option Plugin) (h : Bool) (q : Plugin)
    (r : Option (Option Plugin × Bool))
    → plugin_of f.path ≡ some q
    → (p ≡ none) ⊎ (p ≡ some q)
    → Kinds fs (some q) h r
    → Kinds (f ∷ fs) p h r
unfolding Of
Kinds-plugin f fs p h q none e d k = tt
Kinds-plugin f fs p h q (some (q', true)) e d k = λ n. absurd (ground (arith, (k n).0))
Kinds-plugin f fs p h q (some (q', false)) e d (a, inl b, c) = absurd cc
Kinds-plugin f fs p h q (some (q', false)) e (inl d) (a, inr b, c) = (a, inl d, (inr (e ∙ b), c))
Kinds-plugin f fs p h q (some (q', false)) e (inr d) (a, inr b, c) =
    (a, inr (d ∙ b), (inr (e ∙ b), c))

classify-Kinds :
    (fs : List FileRanges) (p : Option Plugin) (h : Bool) → Kinds fs p h (classify fs p h)
unfolding classify
classify-Kinds [] p true = λ e. (e, tt)
classify-Kinds [] p false = (refl, inr refl, tt)
classify-Kinds (f ∷ fs) p h = elim (List-cases f.ranges) [
  | inl e ↦ simp e (Kinds-skip f fs p h (classify fs p h) e (classify-Kinds fs p h))
  | inr (x, xs, e) ↦ elim (Option-cases (plugin_of f.path)) [
    | inl g ↦
        simp e (simp g (Kinds-file f fs p h (classify fs p true) g (classify-Kinds fs p true)))
    | inr (q, g) ↦ elim (Bool-cases (differs p q)) [
      | inl d ↦ simp e (simp g (simp d tt))
      | inr d ↦ simp e (
          simp g (
            simp d (
              Kinds-plugin f fs p h q (classify fs (some q) h) g (differs-eq p q d)
                (classify-Kinds fs (some q) h))))
    ]
  ]
]

accepted :
    {W : Type 0} (can_create : Result (Unit {0})) (pools p' : BackendPools W) (fs : List FileRanges)
    (r : Option (Option Plugin × Bool))
    → Kinds fs none false r
    → lock_classified can_create pools r ≡ ok (success, p')
    → (k : Option Plugin) × All (Of k) fs
unfolding lock_classified
accepted can_create pools p' fs none k e = absurd cc
accepted can_create pools p' fs (some (none, true)) k e = (none, (k refl).1)
accepted can_create pools p' fs (some (none, false)) (a, b, c) e = (none, c)
accepted can_create pools p' fs (some (some q, true)) k e = absurd cc
accepted can_create pools p' fs (some (some q, false)) (a, b, c) e = (some q, c)

-- A submission whose lock succeeds is of one kind: its files that have ranges are all of the file
-- system, or all of one and the same plugin.
pub lock_object_plugin-Of :
    {W : Type 0} (can_create : Result (Unit {0})) (request : List FileRanges)
    (pools p' : BackendPools W)
    → lock_object_plugin can_create request pools ≡ ok (success, p')
    → (k : Option Plugin) × All (Of k) request
unfolding lock_object_plugin
lock_object_plugin-Of can_create request pools p' e =
    accepted can_create pools p' request (classify request none false)
      (classify-Kinds request none false) e
