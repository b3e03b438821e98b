-- ===== src/Plugins/S3/Verify.antt =====
-- cpp/s3/client/client.cc, `verify_credentials`: whether a client may be used for a configuration.
use runai_model_streamer.Prelude.{
  ℕ, ◌≡◌, ◌↔◌, refl, sym, ap, subst₂, Bool, true, false, ◌&&◌, Option, none, some, [], ◌∷◌, arith,
}
use runai_model_streamer.Common.Text.{Text}
use runai_model_streamer.Common.Credentials.{same_text}
use runai_model_streamer.Common.BackendApi.{ObjectClientConfig}
use runai_model_streamer.Plugins.S3.Base.{
  S3ClientBase, create_base, credentials_of, verify_credentials_member, same_members,
  verify_credentials,
}

same_text-eq : (s t : Text) → same_text s t ≡ true → s ≡ t
same_text-eq [] [] h = refl
same_text-eq [] (b ∷ t) h = cc
same_text-eq (a ∷ s) [] h = cc
same_text-eq (a ∷ s) (b ∷ t) h = ground (arith, same_text-eq s t)

same_text_refl : (s : Text) → same_text s s ≡ true
same_text_refl [] = refl
same_text_refl (a ∷ s) = ground (arith, same_text_refl s)

member-eq : (m v : Option Text) → verify_credentials_member m v ≡ true → m ≡ v
unfolding verify_credentials_member
member-eq none none h = refl
member-eq none (some v) h = cc
member-eq (some m) none h = cc
member-eq (some m) (some v) h = ap some (same_text-eq m v h)

member_refl : (m : Option Text) → verify_credentials_member m m ≡ true
unfolding verify_credentials_member
member_refl none = refl
member_refl (some m) = same_text_refl m

&&-eq : (a b : Bool) → (a && b) ≡ true → (a ≡ true) × (b ≡ true)
&&-eq true b h = (refl, h)
&&-eq false b h = cc

-- A client is determined by five members and its chunk size.
abbrev make : (key secret token region endpoint : Option Text) → ℕ → S3ClientBase
make key secret token region endpoint chunk_bytesize = record {
  key = key;
  secret = secret;
  token = token;
  region = region;
  endpoint = endpoint;
  client_credentials = credentials_of key secret token;
  chunk_bytesize = chunk_bytesize;
}

abbrev of_base : S3ClientBase → S3ClientBase
of_base b = make b.key b.secret b.token b.region b.endpoint b.chunk_bytesize

create_base-of_base : (c : ObjectClientConfig) → create_base c ≡ of_base (create_base c)
unfolding create_base
create_base-of_base c = refl

-- The same but for the size of the chunks.
abbrev pub SameButChunk : S3ClientBase → S3ClientBase → Type 0
SameButChunk b o = b ≡ record o { chunk_bytesize = b.chunk_bytesize }

same_members→eq :
    (b o : S3ClientBase) → same_members b o ≡ true → SameButChunk (of_base b) (of_base o)
same_members→eq b o h =
    let (key, rest) = &&-eq (verify_credentials_member b.key o.key) _ h in
    let (secret, rest') = &&-eq (verify_credentials_member b.secret o.secret) _ rest in
    let (token, rest'') = &&-eq (verify_credentials_member b.token o.token) _ rest' in
    let (region, endpoint) = &&-eq (verify_credentials_member b.region o.region) _ rest'' in
    rw
      (
        member-eq b.key o.key key,
        member-eq b.secret o.secret secret,
        member-eq b.token o.token token,
        member-eq b.region o.region region,
        member-eq b.endpoint o.endpoint endpoint,
      )
      refl

member_of_eq : (m v : Option Text) → m ≡ v → verify_credentials_member m v ≡ true
member_of_eq m v e = rw e (member_refl v)

eq→same_members : (b o : S3ClientBase) → SameButChunk b o → same_members b o ≡ true
eq→same_members b o e =
    rw
      (
        member_of_eq b.key o.key (ap (λ (r : S3ClientBase). r.key) e),
        member_of_eq b.secret o.secret (ap (λ (r : S3ClientBase). r.secret) e),
        member_of_eq b.token o.token (ap (λ (r : S3ClientBase). r.token) e),
        member_of_eq b.region o.region (ap (λ (r : S3ClientBase). r.region) e),
        member_of_eq b.endpoint o.endpoint (ap (λ (r : S3ClientBase). r.endpoint) e),
      )
      refl

-- A client that was made for one configuration is accepted for another one exactly if the client
-- that the other configuration would make is the same, with the same key, secret, token, region,
-- endpoint and explicit credentials, but for the size of its chunks.
pub verify_credentials-create_base :
    (c d : ObjectClientConfig)
    → (verify_credentials (create_base c) d ≡ true) ↔ SameButChunk (create_base c) (create_base d)
unfolding verify_credentials
verify_credentials-create_base c d = (
  λ h.
      subst₂ SameButChunk (sym (create_base-of_base c)) (sym (create_base-of_base d))
        (same_members→eq (create_base c) (create_base d) h),
  λ e. eq→same_members (create_base c) (create_base d) e,
)
