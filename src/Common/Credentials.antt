-- ===== src/Common/Credentials.antt =====
-- cpp/common/s3_credentials: the parameters of a client, as a std::map of strings. A string is the list
-- of its bytes.
pub mod Params
use runai_model_streamer.Prelude.{
  ℕ, zero, suc, Bool, true, false, ◌&&◌, ◌||◌, not, Option, none, some, List, [], ◌∷◌, ltb, ◌==◌,
  if◌then◌else◌, get_elem?,
}
use runai_model_streamer.Prelude.Assoc.{is_some}
use runai_model_streamer.Common.Result.{Result, ok, err, assertion, ◌>>=◌}

abbrev pub Text : Type 0
Text = List ℕ

abbrev pub same_text : Text → Text → Bool
same_text [] [] = true
same_text [] (_ ∷ _) = false
same_text (_ ∷ _) [] = false
same_text (a ∷ s) (b ∷ t) = (a == b) && same_text s t

abbrev pub before_text : Text → Text → Bool
before_text [] [] = false
before_text [] (_ ∷ _) = true
before_text (_ ∷ _) [] = false
before_text (a ∷ s) (b ∷ t) = ltb a b || ((a == b) && before_text s t)

-- `_params`, in the order of the keys.
abbrev pub Credentials : Type 0
Credentials = List (Text × Text)

abbrev pub endpoint_key : Text
endpoint_key = 101 ∷ 110 ∷ 100 ∷ 112 ∷ 111 ∷ 105 ∷ 110 ∷ 116 ∷ []

-- `_params[key] = value`
unfoldable pub set : Text → Text → Credentials → Credentials
set key value [] = (key, value) ∷ []
set key value ((k, v) ∷ m) =
    let rest = set key value m in
    if same_text k key
    then (k, value) ∷ m
    else if before_text key k
    then (key, value) ∷ (k, v) ∷ m
    else (k, v) ∷ rest

unfoldable pub get : Text → Credentials → Option Text
get key [] = none
get key ((k, v) ∷ m) = let rest = get key m in if same_text k key then some v else rest

unfoldable pub has : Text → Credentials → Bool
unfolding get
has key m = is_some (get key m)

unfoldable pub endpoint : Credentials → Option Text
unfolding get
endpoint m = get endpoint_key m

-- The parameters that are added to the configuration of a client.
unfoldable pub to_object_client_config : Credentials → List (Text × Text)
to_object_client_config [] = []
to_object_client_config ((k, v) ∷ m) =
    let rest = to_object_client_config m in if same_text k endpoint_key then rest else (k, v) ∷ rest

-- `operator==`
unfoldable pub same_credentials : Credentials → Credentials → Bool
same_credentials [] [] = true
same_credentials [] (_ ∷ _) = false
same_credentials (_ ∷ _) [] = false
same_credentials ((k, v) ∷ m) ((j, w) ∷ n) =
    (same_text k j && same_text v w) && same_credentials m n

-- A null string is skipped, with its partner.
abbrev pub set_pair : Option Text → Option Text → Credentials → Credentials
set_pair none value m = m
set_pair (some key) none m = m
set_pair (some key) (some value) m = set key value m

abbrev pub elem : {A : Type 0} → List A → ℕ → Result A
elem xs k = elim (get_elem? xs k) [ none ↦ err assertion | some x ↦ ok x ]

-- The loop of the constructor; a read past the end of an array is not defined.
unfoldable pub set_params :
    (left i : ℕ) → List (Option Text) → List (Option Text) → Credentials → Result Credentials
unfolding set
set_params zero i keys values m = ok m
set_params (suc left) i keys values m = do
  key ← elem keys i
  value ← elem values i
  set_params left (suc i) keys values (set_pair key value m)

-- The constructor; `none` is an array that is null.
unfoldable pub create :
    Option (List (Option Text))
    → Option (List (Option Text))
    → (num_params : ℕ) → Result Credentials
unfolding set_params
create none values num_params = ok []
create (some keys) none num_params = ok []
create (some keys) (some values) num_params = set_params num_params 0 keys values []
