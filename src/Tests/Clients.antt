-- ===== src/Tests/Clients.antt =====
-- Clients, credentials and listings, at concrete inputs.
use runai_model_streamer.Prelude.{
  min, ℕ, ◌<◌, ◌≡◌, refl, Bool, true, false, Option, none, some, List, [], ◌∷◌, arith, ◌==◌,
  if◌then◌else◌,
}
use runai_model_streamer.Common.ResponseCode.{success}
use runai_model_streamer.Common.Result.{ok}
use runai_model_streamer.Common.ClientMgr.{ClientMgr, create, reuse, enter, push, insert, clear}
use runai_model_streamer.Common.ClientMgr.Held.Counts.{Shared, count, count_key}
use runai_model_streamer.Common.ClientMgr.Held.{
  Reach, here, next, enters, pushes, reuses, start, held_once,
}
use runai_model_streamer.Common.Credentials.{
  Credentials, Text, endpoint_key, same_text, set, get, to_object_client_config, same_credentials,
}
use runai_model_streamer.Common.Credentials.Params.{config-set}
use runai_model_streamer.Prelude.Assoc.{lookup}
use runai_model_streamer.Impl.Streamer.{get_credentials}
use runai_model_streamer.Impl.Streamer.Listing.{Store}
use runai_model_streamer.Utils.FdLimit.{Rlimit, FdLimitSetter, limits_restored}
use runai_model_streamer.Utils.FdLimit
use runai_model_streamer.Api.Listing.{
  AreWanted, runai_list_files, patterns_from, runai_list_files-AreWanted,
}
use runai_model_streamer.Api.Start.{Call, set_calls, codes_after, first-stays}

-- A client is made at address 9, and given back; another is made at 4, and the first is used again.
abbrev two_held : Shared ℕ
two_held = record {
  mgr = record { unused = []; clients = (4, 70) ∷ (9, 60) ∷ [] };
  held = 9 ∷ 4 ∷ [];
}

two_held-Reach : Reach start two_held
unfolding create enter push insert reuse lookup
two_held-Reach =
    next (next (next (next here (enters 9 60 refl)) (enters 4 70 refl)) (pushes 9 (omega arith)))
      (reuses (λ c. c == 60) 9 _ refl)

held_once_example :
    ((verify : ℕ → Bool)
      → (out : Option ℕ × ClientMgr ℕ) × (reuse verify two_held.mgr.unused two_held.mgr.clients
          ≡ ok out))
    × ((p : ℕ)
        → 0 < count p two_held.held
        → (count_key p two_held.mgr.clients ≡ 1)
          × (count p two_held.mgr.unused ≡ 0)
          × (count p two_held.held ≡ 1)
          × (clear two_held.mgr ≡ two_held.mgr))
held_once_example = held_once two_held-Reach

abbrev region : Text
region = 114 ∷ []

abbrev one_param : Credentials
one_param = (region, 1 ∷ []) ∷ []

config-set_example :
    (get region (set endpoint_key (5 ∷ []) one_param)
      ≡ (if same_text endpoint_key region then some (5 ∷ []) else get region one_param))
    × (get region (to_object_client_config (set endpoint_key (5 ∷ []) one_param)) ≡ (
        if same_text region endpoint_key
        then none
        else if same_text endpoint_key region
        then some (5 ∷ [])
        else get region one_param))
config-set_example = config-set endpoint_key (5 ∷ []) region one_param

-- A directory with two files; a pattern matches the path that it is.
abbrev small_store : Store
small_store = record {
  matches = same_text;
  list_objects = λ prefix r. (success, []);
  exists = λ prefix. true;
  list_directory = λ prefix r.
      record { path = 97 ∷ []; size = 5; is_regular_file = true }
      ∷ record { path = 98 ∷ []; size = 6; is_regular_file = true }
      ∷ [];
}

runai_list_files-AreWanted_example :
    AreWanted small_store []
      ((97 ∷ []) ∷ [])
      (runai_list_files small_store true (some (47 ∷ [])) false none 0 (some ((97 ∷ []) ∷ [])) 1)
unfolding patterns_from
runai_list_files-AreWanted_example =
    runai_list_files-AreWanted small_store true false (some (47 ∷ [])) none (some ((97 ∷ []) ∷ []))
      0 1 [] ((97 ∷ []) ∷ []) refl refl

-- The same parameters again, and then others.
abbrev later_calls : List Call
later_calls =
    (some (some region ∷ []), some (some (1 ∷ []) ∷ []), 1)
    ∷ (some (some region ∷ []), some (some (2 ∷ []) ∷ []), 1)
    ∷ []

first-stays_example :
    (set_calls later_calls (some one_param) ≡ (codes_after one_param later_calls, some one_param))
    × (get_credentials same_credentials [] (set_calls later_calls (some one_param)).1 ≡ one_param)
first-stays_example = first-stays one_param later_calls

abbrev low_limit : Rlimit
low_limit = record { rlim_cur = 1024; rlim_max = 4096 }

abbrev raised_limit : Rlimit
raised_limit = record { rlim_cur = 4096; rlim_max = 4096 }

-- Someone else has set another limit meanwhile.
abbrev later_limit : Rlimit
later_limit = record { rlim_cur = 2048; rlim_max = 4096 }

abbrev setter : FdLimitSetter
setter = record { previous = low_limit; valid = true }

limits_restored_example :
    let (moved, left) = FdLimit.move setter in
    (raised_limit.rlim_cur ≡ min 8192 4096)
    × (raised_limit.rlim_max ≡ low_limit.rlim_max)
    × (FdLimit.destroy true moved later_limit ≡ low_limit)
    × (FdLimit.destroy false left later_limit ≡ later_limit)
unfolding FdLimit.create
limits_restored_example = limits_restored false 8192 low_limit raised_limit later_limit setter refl
