-- ===== src/Common/ClientMgr/Held.antt =====
-- cpp/common/client_mgr/client_mgr.h with its users: who holds which client.
pub mod Counts
use runai_model_streamer.Prelude.{
  ℕ, suc, ◌+◌, ◌≤◌, ◌<◌, ◌≡◌, refl, ap, ◌∙◌, Bool, false, Option, none, some, List, [], ◌∷◌, ◌==◌,
  if◌then◌else◌, length, arith, Bool-cases, Option-cases, inl, inr, subst,
}
use runai_model_streamer.Prelude.Assoc.{lookup, erase}
use runai_model_streamer.Common.Result.{ok}
use runai_model_streamer.Common.ClientMgr.{
  ClientMgr, create, reuse, enter, insert, push, clear, stop, halt_all,
}
use runai_model_streamer.Common.ClientMgr.Held.Counts.{
  count, count_key, remove, Shared, count-remove, length-remove, count-insert, length-insert,
  nothing_held, count-length,
}

module _ {C : Type 0} where
  count_key-erase :
      (p q : ℕ) (cs : List (ℕ × C))
      → count_key q (erase p cs) ≡ (if p == q then 0 else count_key q cs)
  unfolding erase
  count_key-erase p q [] = ground arith
  count_key-erase p q ((x, c) ∷ cs) = ground (arith, count_key-erase p q cs)

  length-erase_once : (p : ℕ) (cs : List (ℕ × C)) → length (erase p cs) + count_key p cs ≡ length cs
  unfolding erase
  length-erase_once p [] = refl
  length-erase_once p ((x, c) ∷ cs) = ground (arith, length-erase_once p cs)

  lookup-count_key : (p : ℕ) (cs : List (ℕ × C)) → lookup p cs ≡ none → count_key p cs ≡ 0
  unfolding lookup
  lookup-count_key p [] h = refl
  lookup-count_key p ((x, c) ∷ cs) h = ground (arith, lookup-count_key p cs)

  -- Each client that is owned is either unused or held, once.
  pub record IsKept (s : Shared C) : Type 0 where
    pub owned : (p : ℕ) → count_key p s.mgr.clients ≡ count p s.mgr.unused + count p s.held
    pub once : (p : ℕ) → count_key p s.mgr.clients ≤ 1
    pub number : length s.mgr.clients ≡ length s.mgr.unused + length s.held

  -- What one round of the loop of `pop` leaves, with the client for the user.
  abbrev given : List ℕ → Option ℕ × ClientMgr C → Shared C
  given held (none, m) = record { mgr = m; held = held }
  given held (some p, m) = record { mgr = m; held = p ∷ held }

  reuse-IsKept :
      (verify : C → Bool) (ps : List ℕ) (cs : List (ℕ × C)) (held : List ℕ)
      → IsKept (record { mgr = record { unused = ps; clients = cs }; held = held })
      → (out : Option ℕ × ClientMgr C) × (reuse verify ps cs ≡ ok out) × IsKept (given held out)
  unfolding reuse
  reuse-IsKept verify [] cs held v = (_, refl, v)
  reuse-IsKept verify (p ∷ ps) cs held v = elim (Option-cases (lookup p cs)) [
    | inl e ↦ absurd (ground (arith, v.owned p, lookup-count_key p cs e))
    | inr (c, e) ↦ elim (Bool-cases (verify c)) [
      | inl f ↦ (
        (some p, record { unused = ps; clients = cs }),
        rw (e, f, reuse) refl,
        record {
          owned = λ q. ground (arith, v.owned q);
          once = v.once;
          number = omega (arith, v.number);
        },
      )
      | inr f ↦
          let (out, g, k) = reuse-IsKept verify ps (erase p cs) held (record {
            owned = λ q. ground (arith, v.owned q, v.once q, count_key-erase p q cs);
            once = λ q. ground (arith, v.once q, count_key-erase p q cs);
            number = ground (arith, v.number, v.once p, v.owned p, length-erase_once p cs);
          }) in
          (out, rw (e, f, reuse) g, k)
    ]
  ]

  -- What the threads do: a user takes an unused client, finds none, takes one that it has made at an
  -- address that is free, or gives back a client that it holds; and any thread clears or stops.
  pub data Step (s : Shared C) : Shared C → Type 0 where
    reuses :
        (verify : C → Bool) (p : ℕ) (m : ClientMgr C)
        → reuse verify s.mgr.unused s.mgr.clients ≡ ok (some p, m)
        → Step s (record { mgr = m; held = p ∷ s.held })
    finds_none :
        (verify : C → Bool) (m : ClientMgr C)
        → reuse verify s.mgr.unused s.mgr.clients ≡ ok (none, m)
        → Step s (record { mgr = m; held = s.held })
    enters :
        (p : ℕ) (c : C)
        → count_key p s.mgr.clients ≡ 0
        → Step s (record { mgr = enter p c s.mgr; held = p ∷ s.held })
    pushes :
        (p : ℕ)
        → 0 < count p s.held
        → Step s (record { mgr = push p s.mgr; held = remove p s.held })
    clears : Step s (record { mgr = clear s.mgr; held = s.held })
    stops : (halt : C → C) → Step s (record { mgr = stop halt s.mgr; held = s.held })

  pub data Reach (s : Shared C) : Shared C → Type 0 where
    here : Reach s s
    next : {t u : Shared C} → Reach s t → Step t u → Reach s u

  reused-IsKept :
      (verify : C → Bool) (s : Shared C) (out : Option ℕ × ClientMgr C)
      → IsKept s
      → reuse verify s.mgr.unused s.mgr.clients ≡ ok out
      → IsKept (given s.held out)
  reused-IsKept verify s out v e =
      let (out', f, k) =
        reuse-IsKept verify s.mgr.unused s.mgr.clients s.held
          (record { owned = v.owned; once = v.once; number = v.number }) in
      let g : out' ≡ out = cc in subst (λ x. IsKept (given s.held x)) g k

  count_key-halt_all :
      (halt : C → C) (p : ℕ) (cs : List (ℕ × C)) → count_key p (halt_all halt cs) ≡ count_key p cs
  count_key-halt_all halt p [] = refl
  count_key-halt_all halt p ((q, c) ∷ cs) =
      ap (λ n. (if q == p then 1 else 0) + n) (count_key-halt_all halt p cs)

  length-halt_all : (halt : C → C) (cs : List (ℕ × C)) → length (halt_all halt cs) ≡ length cs
  length-halt_all halt [] = refl
  length-halt_all halt ((q, c) ∷ cs) = ap suc (length-halt_all halt cs)

  clear-IsKept : (s : Shared C) → IsKept s → IsKept (record { mgr = clear s.mgr; held = s.held })
  unfolding clear
  clear-IsKept s v = elim (Bool-cases (length s.mgr.unused == length s.mgr.clients)) [
    | inr e ↦ rw (e, clear) (record { owned = v.owned; once = v.once; number = v.number })
    | inl e ↦
        let z : length s.held ≡ 0 = ground (arith, v.number) in
        rw (e, clear)
          (record {
            owned = λ p. omega (arith, nothing_held s.held p z);
            once = λ p. omega arith;
            number = omega arith;
          })
  ]

  held-clear : (s : Shared C) → IsKept s → (p : ℕ) → 0 < count p s.held → clear s.mgr ≡ s.mgr
  unfolding clear
  held-clear s v p h =
      let e : length s.mgr.unused == length s.mgr.clients ≡ false =
        ground (arith, v.number, count-length p s.held h) in
      rw (e, clear) refl

  Step-IsKept : {s t : Shared C} → Step s t → IsKept s → IsKept t
  unfolding enter push stop
  Step-IsKept {s} (reuses verify p m e) v = reused-IsKept verify s (some p, m) v e
  Step-IsKept {s} (finds_none verify m e) v = reused-IsKept verify s (none, m) v e
  Step-IsKept {s} (enters p c h) v = record {
    owned = λ q. ground (arith, v.owned q);
    once = λ q. ground (arith, v.once q);
    number = omega (arith, v.number);
  }
  Step-IsKept {s} (pushes p h) v =
      let z : count p s.mgr.unused ≡ 0 = omega (arith, v.owned p, v.once p) in
      record {
        owned = λ q.
            omega (arith, v.owned q, count-remove p q s.held h, count-insert p q s.mgr.unused z);
        once = v.once;
        number = omega (arith, v.number, length-remove p s.held h, length-insert p s.mgr.unused z);
      }
  Step-IsKept {s} clears v = clear-IsKept s v
  Step-IsKept {s} (stops halt) v = record {
    owned = λ q. count_key-halt_all halt q s.mgr.clients ∙ v.owned q;
    once = λ q. omega (arith, v.once q, count_key-halt_all halt q s.mgr.clients);
    number = length-halt_all halt s.mgr.clients ∙ v.number;
  }

  Reach-IsKept : {s t : Shared C} → IsKept s → Reach s t → IsKept t
  Reach-IsKept v here = v
  Reach-IsKept v (next r st) = Step-IsKept st (Reach-IsKept v r)

  abbrev pub start : Shared C
  start = record { mgr = create; held = [] }

  -- However the users of the manager interleave, and whatever credentials they test: `pop` never
  -- meets an unused client that has been released; a client that is held is owned, is not unused and
  -- is held by one user only; and while a client is held, `clear` releases nothing.
  pub held_once :
      {s : Shared C}
      → Reach start s
      → ((verify : C → Bool)
          → (out : Option ℕ × ClientMgr C) × (reuse verify s.mgr.unused s.mgr.clients ≡ ok out))
        × ((p : ℕ)
            → 0 < count p s.held
            → (count_key p s.mgr.clients ≡ 1)
              × (count p s.mgr.unused ≡ 0)
              × (count p s.held ≡ 1)
              × (clear s.mgr ≡ s.mgr))
  unfolding create clear
  held_once {s} r =
      let v =
        Reach-IsKept (record { owned = λ p. refl; once = λ p. omega arith; number = refl }) r in
      (
        λ verify.
            let (out, e, k) =
              reuse-IsKept verify s.mgr.unused s.mgr.clients s.held
                (record { owned = v.owned; once = v.once; number = v.number }) in
            (out, e),
        λ p h. (
          omega (arith, v.owned p, v.once p),
          omega (arith, v.owned p, v.once p),
          omega (arith, v.owned p, v.once p),
          held-clear s v p h,
        ),
      )
