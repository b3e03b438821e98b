-- ===== src/Common/ClientMgr/Held/Counts.antt =====
-- cpp/common/client_mgr/client_mgr.h with its users: how many hold a client.
use runai_model_streamer.Prelude.{
  ℕ, ◌+◌, ◌<◌, ◌≡◌, refl, List, [], ◌∷◌, ◌==◌, if◌then◌else◌, length, arith,
}
use runai_model_streamer.Common.ClientMgr.{ClientMgr, insert}

-- How often an address is in a list, and how often it is a key.
abbrev pub count : ℕ → List ℕ → ℕ
count p [] = 0
count p (q ∷ qs) = (if q == p then 1 else 0) + count p qs

abbrev pub count_key {ℓ} : {C : Type ℓ} → ℕ → List (ℕ × C) → ℕ
count_key p [] = 0
count_key p ((q, c) ∷ cs) = (if q == p then 1 else 0) + count_key p cs

-- A user gives a client back.
abbrev pub remove : ℕ → List ℕ → List ℕ
remove p [] = []
remove p (q ∷ qs) = if q == p then qs else q ∷ remove p qs

-- The manager, with the clients that its users hold.
pub record Shared (C : Type 0) : Type 0 where
  pub mgr : ClientMgr C
  pub held : List ℕ

pub count-remove :
    (p q : ℕ) (l : List ℕ)
    → 0 < count p l
    → count q (remove p l) + (if p == q then 1 else 0) ≡ count q l
count-remove p q [] h = absurd (omega arith)
count-remove p q (x ∷ l) h = ground (arith, count-remove p q l)

pub length-remove : (p : ℕ) (l : List ℕ) → 0 < count p l → length (remove p l) + 1 ≡ length l
length-remove p [] h = absurd (omega arith)
length-remove p (x ∷ l) h = ground (arith, length-remove p l)

pub count-insert :
    (p q : ℕ) (l : List ℕ)
    → count p l ≡ 0
    → count q (insert p l) ≡ count q l + (if p == q then 1 else 0)
unfolding insert
count-insert p q [] h = ground arith
count-insert p q (x ∷ l) h = ground (arith, count-insert p q l)

pub length-insert : (p : ℕ) (l : List ℕ) → count p l ≡ 0 → length (insert p l) ≡ length l + 1
unfolding insert
length-insert p [] h = refl
length-insert p (x ∷ l) h = ground (arith, length-insert p l)

pub nothing_held : (l : List ℕ) (p : ℕ) → length l ≡ 0 → count p l ≡ 0
nothing_held [] p h = refl
nothing_held (x ∷ l) p h = absurd (omega arith)

pub count-length : (p : ℕ) (l : List ℕ) → 0 < count p l → 0 < length l
count-length p [] h = absurd (omega arith)
count-length p (x ∷ l) h = omega arith
