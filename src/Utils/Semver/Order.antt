-- ===== src/Utils/Semver/Order.antt =====
-- cpp/utils/semver/semver.cc: the order of versions.
use runai_model_streamer.Prelude.{
  ℕ, ◌∙◌, ◌≡◌, ap₂, ap, ◌⊎◌, inl, inr, true, false, arith, Bool-cases,
}
use runai_model_streamer.Utils.Semver.{Semver, equal, not_equal, greater, greater_equal, less_equal}

same_fields : (a b : Semver) → a.major ≡ b.major → a.minor ≡ b.minor → a.patch ≡ b.patch → a ≡ b
same_fields a b p q r =
    ap₂ {A = ℕ} {B = ℕ} (λ x y. record { major = x; minor = y; patch = a.patch }) p q
    ∙ ap {A = ℕ} (λ z. record { major = b.major; minor = b.minor; patch = z }) r

equal-eq : (a b : Semver) → equal a b ≡ true → a ≡ b
unfolding equal
equal-eq a b h = same_fields a b (ground arith) (ground arith) (ground arith)

greater_total : (a b : Semver) → (greater a b ≡ true) ⊎ (greater b a ≡ true) ⊎ (a ≡ b)
unfolding greater equal
greater_total a b = elim (Bool-cases (greater a b)) [
  | inl e ↦ inl e
  | inr e ↦ elim (Bool-cases (greater b a)) [
    | inl f ↦ inr (inl f)
    | inr f ↦ inr (inr (equal-eq a b (ground arith)))
  ]
]

-- The comparisons agree with one another and order all versions: `>` is transitive, and of two
-- versions that differ exactly one is greater; `!=` is false only for the same version; and
-- `<=` is `>=` with its sides exchanged.
pub comparisons-order :
    (a b c : Semver)
    → (greater a b ≡ true → greater b c ≡ true → greater a c ≡ true)
      × ((greater a b ≡ true) ⊎ (greater b a ≡ true) ⊎ (a ≡ b))
      × (greater a b ≡ true → greater b a ≡ false)
      × (not_equal a b ≡ false → a ≡ b)
      × (less_equal a b ≡ greater_equal b a)
unfolding greater not_equal less_equal greater_equal equal
comparisons-order a b c =
    (ground arith, greater_total a b, ground arith, λ h. equal-eq a b (ground arith), ground arith)
