-- ===== src/Utils/FdLimit.antt =====
-- cpp/utils/fdlimit/fdlimit.cc: the limit of file descriptors, raised while an object lives.
-- getrlimit(2) succeeds here; whether setrlimit(2) does is an argument.
use runai_model_streamer.Prelude.{ℕ, min, ◌≡◌, Bool, true, false, ltb, if◌then◌else◌, arith}
use runai_model_streamer.Common.Result.{Result, ok, err, assertion}

-- The soft and the hard limit of the process.
pub record Rlimit : Type 0 where
  pub rlim_cur : ℕ
  pub rlim_max : ℕ

pub record FdLimitSetter : Type 0 where
  pub previous : Rlimit
  pub valid : Bool

-- The constructor: the object, and the limits after it. The hard limit is not passed.
unfoldable pub create :
    (can_set : Bool) → (new_limit : ℕ) → Rlimit → Result (FdLimitSetter × Rlimit)
create can_set new_limit l =
    let soft = if ltb l.rlim_max new_limit then l.rlim_max else new_limit in
    if can_set
    then ok
        (record { previous = l; valid = true }, record { rlim_cur = soft; rlim_max = l.rlim_max })
    else err assertion

-- The destructor: the limits after it.
unfoldable pub destroy : (can_set : Bool) → FdLimitSetter → Rlimit → Rlimit
destroy can_set setter l = if setter.valid then (if can_set then setter.previous else l) else l

-- The move constructor: the new object, and the old one. The assignment gives the same two.
unfoldable pub move : FdLimitSetter → FdLimitSetter × FdLimitSetter
move other = (other, record other { valid = false })

-- The soft limit that is set is the one asked for, or the hard one where that is less; the hard one
-- stays. If the object is moved, then whatever the limits are by then, destroying the new object
-- makes them what they were before it was made, and destroying what is left of the old one changes
-- nothing, even if setrlimit(2) fails.
pub limits_restored :
    (can_set : Bool) (new_limit : ℕ) (l raised later : Rlimit) (setter : FdLimitSetter)
    → create true new_limit l ≡ ok (setter, raised)
    → let (moved, left) = move setter in
      (raised.rlim_cur ≡ min new_limit l.rlim_max)
      × (raised.rlim_max ≡ l.rlim_max)
      × (destroy true moved later ≡ l)
      × (destroy can_set left later ≡ later)
unfolding create destroy move
limits_restored can_set new_limit l raised later setter e = ground arith
