-- ===== src/Common/Credentials/Params.antt =====
-- cpp/common/s3_credentials: the parameters of a configuration.
use runai_model_streamer.Prelude.{
  ◌≡◌, refl, ap, ◌∙◌, Bool, true, false, none, some, [], ◌∷◌, if◌then◌else◌, arith, Bool-cases, inl,
  inr, ap₂, subst,
}
use runai_model_streamer.Common.Credentials.{
  Text, same_text, before_text, Credentials, endpoint_key, set, get, to_object_client_config,
}

same_text_refl : (s : Text) → same_text s s ≡ true
same_text_refl [] = refl
same_text_refl (a ∷ s) = ground (arith, same_text_refl s)

same_text-path : (s t : Text) → same_text s t ≡ true → s ≡ t
same_text-path [] [] h = refl
same_text-path [] (b ∷ t) h = absurd cc
same_text-path (a ∷ s) [] h = absurd cc
same_text-path (a ∷ s) (b ∷ t) h =
    let p : a ≡ b = ground arith in
    let q : same_text s t ≡ true = ground arith in ap₂ ◌∷◌ p (same_text-path s t q)

same_text_sym : (s t : Text) → same_text s t ≡ same_text t s
same_text_sym [] [] = refl
same_text_sym [] (b ∷ t) = refl
same_text_sym (a ∷ s) [] = refl
same_text_sym (a ∷ s) (b ∷ t) = ground (arith, same_text_sym s t)

if_again :
    {A : Type 0} (b : Bool) (x y z : A)
    → (if b then x else z) ≡ (if b then x else if b then y else z)
if_again true x y z = refl
if_again false x y z = refl

if_same : {A : Type 0} (b : Bool) (x : A) → x ≡ (if b then x else x)
if_same true x = refl
if_same false x = refl

-- A key that is `j` is not `k` when `j` is not.
apart : (i j k : Text) → same_text i k ≡ false → same_text i j ≡ true → same_text k j ≡ false
apart i j k e f = subst (λ x. same_text k x ≡ false) (same_text-path i j f) (same_text_sym k i ∙ e)

get-set :
    (k j v : Text) (m : Credentials)
    → get j (set k v m) ≡ (if same_text k j then some v else get j m)
unfolding get set
get-set k j v [] = refl
get-set k j v ((i, w) ∷ m) = elim (Bool-cases (same_text i k)) [
  | inl e ↦
      let p = same_text-path i k e in
      rw e (
        subst
          (λ x.
            (if same_text i j then some v else get j m)
            ≡ (if same_text x j then some v else if same_text i j then some w else get j m))
          p (if_again (same_text i j) (some v) (some w) (get j m)))
  | inr e ↦ elim (Bool-cases (before_text k i)) [
    | inl f ↦ rw (e, f) refl
    | inr f ↦ elim (Bool-cases (same_text i j)) [
      | inl g ↦ let h = apart i j k e g in rw (e, f, g, h) refl
      | inr g ↦ rw (e, f, g) (get-set k j v m)
    ]
  ]
]

get-to_object_client_config :
    (k : Text) (m : Credentials)
    → get k (to_object_client_config m) ≡ (if same_text k endpoint_key then none else get k m)
unfolding get to_object_client_config
get-to_object_client_config k [] = if_same (same_text k endpoint_key) none
get-to_object_client_config k ((i, w) ∷ m) = elim (Bool-cases (same_text i endpoint_key)) [
  | inl e ↦ elim (Bool-cases (same_text k endpoint_key)) [
    | inl f ↦ rw (e, f) (get-to_object_client_config k m ∙ rw f refl)
    | inr f ↦
        let g : same_text i k ≡ false =
          same_text_sym i k
          ∙ apart endpoint_key i k (same_text_sym endpoint_key k ∙ f)
              (same_text_sym endpoint_key i ∙ e) in
        rw (e, f, g) (get-to_object_client_config k m ∙ rw f refl)
  ]
  | inr e ↦ elim (Bool-cases (same_text i k)) [
    | inl f ↦
        let g : same_text k endpoint_key ≡ false =
          subst (λ x. same_text x endpoint_key ≡ false) (same_text-path i k f) e in
        rw (e, f, g) refl
    | inr f ↦ rw (e, f) (get-to_object_client_config k m)
  ]
]

-- A parameter that is set is got back, the last value of its key, and the others are as before. The
-- configuration of a client has these parameters, the endpoint alone left out.
pub config-set :
    (key value other : Text) (m : Credentials)
    → (get other (set key value m) ≡ (if same_text key other then some value else get other m))
      × (get other (to_object_client_config (set key value m)) ≡ (
          if same_text other endpoint_key
          then none
          else if same_text key other
          then some value
          else get other m))
config-set key value other m = (
  get-set key other value m,
  get-to_object_client_config other (set key value m)
      ∙ ap (λ x. if same_text other endpoint_key then none else x) (get-set key other value m),
)
