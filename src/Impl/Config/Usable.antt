-- ===== src/Impl/Config/Usable.antt =====
-- cpp/streamer/impl/config/config.cc: the configuration that is made from the environment.
use runai_model_streamer.Prelude.{
  refl, ℕ, ◌^◌, ◌%◌, ◌≤◌, ◌<◌, ◌≡◌, true, Option, none, some, arith, ◌⊎◌, inl, inr, Bool-cases,
  Option-cases, ◌==◌, ap, ◌∙◌, false,
}
use runai_model_streamer.Common.Text.{Text}
use runai_model_streamer.Common.Result.{Result, ok, err, Fault, assertion}
use runai_model_streamer.Utils.Env.{
  Environment, to_unsigned_long, try_getenv_unsigned_long, getenv_unsigned_long_or,
}
use runai_model_streamer.Impl.Config.{
  Config, min_chunk_bytesize, default_chunk_bytesize, min_fs_block_bytesize, at_least, create,
  concurrency_variable, chunk_bytesize_variable, from_env, max_concurrency,
}

abbrev pub or_default : Option ℕ → ℕ → ℕ
or_default none d = d
or_default (some n) d = n

-- What the assigner needs of a configuration.
pub record IsUsable (c : Config) : Type 0 where
  pub readers : 0 < c.concurrency
  pub clients : 0 < c.s3_concurrency
  pub s3_block : min_chunk_bytesize ≤ c.s3_block_bytesize
  pub fs_block : min_fs_block_bytesize ≤ c.fs_block_bytesize
  pub most : (c.concurrency ≤ max_concurrency c) × (c.s3_concurrency ≤ max_concurrency c)

-- How a variable is refused: its text is no number, or the number is refused.
abbrev pub IsRefused : Environment → Text → (ℕ → Type 0) → Type 0
IsRefused env variable P =
    ((e : Fault) × (try_getenv_unsigned_long env variable ≡ err e))
    ⊎ ((n : ℕ) × (try_getenv_unsigned_long env variable ≡ ok (some n)) × P n)

-- Both variables are unset or numbers and give a configuration; or one of them is refused.
abbrev pub Configures : Environment → Result Config → Type 0
Configures env r =
    ((concurrency chunk : Option ℕ) × (try_getenv_unsigned_long env concurrency_variable
        ≡ ok concurrency)
      × (try_getenv_unsigned_long env chunk_bytesize_variable ≡ ok chunk)
      × (c : Config) × (r ≡ ok c)
      × (c.concurrency ≡ or_default concurrency 16 % 2 ^ 32)
      × (c.s3_concurrency ≡ or_default concurrency 8 % 2 ^ 32)
      × IsUsable c)
    ⊎ ((e : Fault) × (r ≡ err e)
        × (IsRefused env concurrency_variable (λ n. n % 2 ^ 32 ≡ 0)
            ⊎ IsRefused env chunk_bytesize_variable (λ n. n ≡ 0)))

-- Reading a variable with a default, beside reading it without.
abbrev Reads : Environment → Text → Type 0
Reads env v =
    ((e : Fault) × (try_getenv_unsigned_long env v ≡ err e)
      × ((d : ℕ) → getenv_unsigned_long_or env v d ≡ err e))
    ⊎ ((o : Option ℕ) × (try_getenv_unsigned_long env v ≡ ok o)
        × ((d : ℕ) → getenv_unsigned_long_or env v d ≡ ok (or_default o d)))

text-Reads :
    (env : Environment) (v s : Text) (r : Result ℕ)
    → env v ≡ some s
    → to_unsigned_long s ≡ r
    → Reads env v
unfolding try_getenv_unsigned_long getenv_unsigned_long_or
text-Reads env v s (err e) h k =
    inl (e, rw (h, try_getenv_unsigned_long, k) refl, λ d. rw (h, getenv_unsigned_long_or, k) refl)
text-Reads env v s (ok n) h k =
    inr (
      some n,
      rw (h, try_getenv_unsigned_long, k) refl,
      λ d. rw (h, getenv_unsigned_long_or, k) refl,
    )

getenv-Reads : (env : Environment) (v : Text) → Reads env v
unfolding try_getenv_unsigned_long getenv_unsigned_long_or
getenv-Reads env v = elim (Option-cases (env v)) [
  | inl h ↦
      inr (none, rw (h, try_getenv_unsigned_long) refl, λ d. rw (h, getenv_unsigned_long_or) refl)
  | inr (s, h) ↦ text-Reads env v s _ h refl
]

-- The first constructor, with the minimum enforced.
made : (concurrency s3_concurrency s3_block fs_block : ℕ) → Config
made concurrency s3_concurrency s3_block fs_block = record {
  concurrency = concurrency;
  s3_concurrency = s3_concurrency;
  s3_block_bytesize = at_least true min_chunk_bytesize s3_block;
  fs_block_bytesize = at_least true min_fs_block_bytesize fs_block;
}

create-made :
    (a b c d : ℕ) → (a == 0) ≡ false → (c == 0) ≡ false → create a b c d true ≡ ok (made a b c d)
unfolding create made at_least
create-made a b c d h k = ground arith

create-refused :
    (a b c d : ℕ)
    → ((a == 0) ≡ true) ⊎ ((c == 0) ≡ true)
    → (e : Fault) × (create a b c d true ≡ err e)
unfolding create
create-refused a b c d (inl h) = (assertion, ground arith)
create-refused a b c d (inr h) = (assertion, ground arith)

made-IsUsable : (a b c d : ℕ) → 0 < a → 0 < b → IsUsable (made a b c d)
unfolding made max_concurrency at_least
made-IsUsable a b c d h k = record {
  readers = h;
  clients = k;
  s3_block = ground arith;
  fs_block = ground arith;
  most = ground arith;
}

-- The defaults are not refused.
zero_workers :
    (o : Option ℕ) → or_default o 16 % 2 ^ 32 ≡ 0 → (n : ℕ) × (o ≡ some n) × (n % 2 ^ 32 ≡ 0)
zero_workers none h = absurd (omega (arith, h))
zero_workers (some n) h = (n, refl, h)

zero_chunk : (o : Option ℕ) → or_default o default_chunk_bytesize ≡ 0 → o ≡ some 0
zero_chunk none h = absurd (omega (arith, h))
zero_chunk (some n) h = ap some h

clients-pos : (o : Option ℕ) → 0 < or_default o 16 % 2 ^ 32 → 0 < or_default o 8 % 2 ^ 32
clients-pos none h = omega arith
clients-pos (some n) h = h

module _ (env : Environment) (o p : Option ℕ)
    (h : try_getenv_unsigned_long env concurrency_variable ≡ ok o)
    (k : try_getenv_unsigned_long env chunk_bytesize_variable ≡ ok p) where
  abbrev result : Result Config
  result =
      create (or_default o 16 % 2 ^ 32) (or_default o 8 % 2 ^ 32)
        (or_default p default_chunk_bytesize) (or_default p min_fs_block_bytesize) true

  result-Configures : Configures env result
  unfolding made
  result-Configures = elim (Bool-cases (or_default o 16 % 2 ^ 32 == 0)) [
    | inl z ↦
        let (n, e, u) = zero_workers o (ground arith) in
        let (f, q) = create-refused _ _ _ _ (inl z) in inr (f, q, inl (inr (n, h ∙ ap ok e, u)))
    | inr z ↦ elim (Bool-cases (or_default p default_chunk_bytesize == 0)) [
      | inl y ↦
          let (f, q) = create-refused _ _ _ _ (inr y) in
          inr (f, q, inr (inr (0, k ∙ ap ok (zero_chunk p (ground arith)), refl)))
      | inr y ↦
          let a : 0 < or_default o 16 % 2 ^ 32 = ground arith in
          inl (
            o,
            p,
            h,
            k,
            _,
            create-made _ _ _ _ z y,
            refl,
            refl,
            made-IsUsable _ _ _ _ a (clients-pos o a),
          )
    ]
  ]

-- Whatever the environment is, one of two things happens with the minimum enforced. Either both
-- variables are unset or whole numbers, and a configuration is made: its concurrencies are the
-- number or the defaults 16 and 8, on 32 bits, neither is 0, and the blocks have at least 5 MiB for
-- object storage and 2 MiB for the file system. Or the constructor throws, and then a variable is no
-- number, or the concurrency is set to a multiple of 2^32, or the size of a chunk to 0.
pub from_env-Configures : (env : Environment) → Configures env (from_env env true)
unfolding from_env
from_env-Configures env = elim (getenv-Reads env concurrency_variable) [
  | inl (e, h, f) ↦ inr (e, rw (f 16) refl, inl (inl (e, h)))
  | inr (o, h, f) ↦ elim (getenv-Reads env chunk_bytesize_variable) [
    | inl (e, k, g) ↦ inr (e, rw (f 16, f 8, g default_chunk_bytesize) refl, inr (inl (e, k)))
    | inr (p, k, g) ↦
        rw (f 16, f 8, g default_chunk_bytesize, g min_fs_block_bytesize)
          (result-Configures env o p h k)
  ]
]
