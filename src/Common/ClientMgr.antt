-- ===== src/Common/ClientMgr.antt =====
-- cpp/common/client_mgr/client_mgr.h: the clients of an object storage, which are used again. A client
-- is named by its address; what a client is, is a parameter, with its test of the credentials.
pub mod Held
use runai_model_streamer.Prelude.{
  ℕ, Bool, true, false, Option, none, some, List, [], ◌∷◌, ltb, ◌==◌, if◌then◌else◌, length, map,
}
use runai_model_streamer.Prelude.Assoc.{lookup, erase}
use runai_model_streamer.Common.Result.{Result, ok, err, assertion}

-- `unused` is the std::set `_unused_clients` in its order; `clients` is the std::map that owns them.
pub record ClientMgr (C : Type 0) : Type 0 where
  pub unused : List ℕ
  pub clients : List (ℕ × C)

-- Insertion into a std::set of addresses.
unfoldable pub insert : ℕ → List ℕ → List ℕ
insert p [] = p ∷ []
insert p (q ∷ qs) =
    let rest = insert p qs in if ltb p q then p ∷ q ∷ qs else if p == q then q ∷ qs else q ∷ rest

module _ {C : Type 0} where
  unfoldable pub create : ClientMgr C
  create = record { unused = []; clients = [] }

  -- The loop of `pop` under the lock: the client that is used again, if there is one. A client whose
  -- credentials have changed is released. A pointer to a client that is not there is not defined.
  unfoldable pub reuse : (C → Bool) → List ℕ → List (ℕ × C) → Result (Option ℕ × ClientMgr C)
  reuse verify [] cs = ok (none, record { unused = []; clients = cs })
  reuse verify (p ∷ ps) cs =
      let next = reuse verify ps (erase p cs) in
      elim (lookup p cs) [
        | none ↦ err assertion
        | some c ↦ if verify c then ok (some p, record { unused = ps; clients = cs }) else next
      ]

  -- The second part under the lock: a client that was made, at an address that is free.
  unfoldable pub enter : ℕ → C → ClientMgr C → ClientMgr C
  enter p c m = record m { clients = (p, c) ∷ m.clients }

  abbrev pub entered : ℕ → C → Option ℕ × ClientMgr C → ℕ × ClientMgr C
  entered p c (some q, m) = (q, m)
  entered p c (none, m) = (p, enter p c m)

  -- `pop`, while no other thread moves between its two parts; a new client would be `c` at `p`.
  unfoldable pub pop : (C → Bool) → ℕ → C → ClientMgr C → Result (ℕ × ClientMgr C)
  unfolding reuse enter
  pop verify p c m = elim (reuse verify m.unused m.clients) [
    | err e ↦ err e
    | ok out ↦ ok (entered p c out)
  ]

  unfoldable pub push : ℕ → ClientMgr C → ClientMgr C
  unfolding insert
  push p m = record m { unused = insert p m.unused }

  -- Nothing is released while a client is in use.
  unfoldable pub clear : ClientMgr C → ClientMgr C
  clear m = if length m.unused == length m.clients then record { unused = []; clients = [] } else m

  abbrev pub halt_all : (C → C) → List (ℕ × C) → List (ℕ × C)
  halt_all halt [] = []
  halt_all halt ((p, c) ∷ cs) = (p, halt c) ∷ halt_all halt cs

  -- `stop` of a client is the argument.
  unfoldable pub stop : (C → C) → ClientMgr C → ClientMgr C
  stop halt m = record m { clients = halt_all halt m.clients }
