-- ===== src/Tests/Versions.antt =====
-- Versions, at concrete ones.
use runai_model_streamer.Prelude.{◌≡◌, ◌⊎◌, true, false}
use runai_model_streamer.Utils.Semver.{Semver, not_equal, greater, greater_equal, less_equal}
use runai_model_streamer.Utils.Semver.Order.{comparisons-order}

abbrev v2_31 : Semver
v2_31 = record { major = 2; minor = 31; patch = 0 }

abbrev v2_29 : Semver
v2_29 = record { major = 2; minor = 29; patch = 5 }

abbrev v1_40 : Semver
v1_40 = record { major = 1; minor = 40; patch = 9 }

comparisons-order_example :
    (greater v2_31 v2_29 ≡ true → greater v2_29 v1_40 ≡ true → greater v2_31 v1_40 ≡ true)
    × ((greater v2_31 v2_29 ≡ true) ⊎ (greater v2_29 v2_31 ≡ true) ⊎ (v2_31 ≡ v2_29))
    × (greater v2_31 v2_29 ≡ true → greater v2_29 v2_31 ≡ false)
    × (not_equal v2_31 v2_29 ≡ false → v2_31 ≡ v2_29)
    × (less_equal v2_31 v2_29 ≡ greater_equal v2_29 v2_31)
comparisons-order_example = comparisons-order v2_31 v2_29 v1_40
