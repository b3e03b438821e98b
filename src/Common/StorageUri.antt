-- ===== src/Common/StorageUri.antt =====
-- cpp/common/storage_uri/storage_uri.cc: the URI of an object, by the regular expression
-- `^(s3|gs|az)://([^/]+)/(.+)$` on bytes. `none` is the exception. A dot matches neither a line feed
-- nor a carriage return.
use runai_model_streamer.Prelude.{
  ℕ, Bool, true, false, ◌&&◌, ◌||◌, not, Option, none, some, List, [], ◌∷◌, ◌==◌, if◌then◌else◌,
}

pub record StorageUri : Type 0 where
  pub scheme : List ℕ
  pub bucket : List ℕ
  pub path : List ℕ

unfoldable pub same_bytes : List ℕ → List ℕ → Bool
same_bytes [] [] = true
same_bytes [] (c ∷ cs) = false
same_bytes (b ∷ bs) [] = false
same_bytes (b ∷ bs) (c ∷ cs) = (b == c) && same_bytes bs cs

abbrev pub slash : ℕ
slash = 47

-- The bytes of "s3", "gs" and "az".
abbrev pub aws_protocol : List ℕ
aws_protocol = 115 ∷ 51 ∷ []

abbrev pub gcs_protocol : List ℕ
gcs_protocol = 103 ∷ 115 ∷ []

abbrev pub azure_protocol : List ℕ
azure_protocol = 97 ∷ 122 ∷ []

unfoldable pub is_scheme : List ℕ → Bool
unfolding same_bytes
is_scheme s = same_bytes s aws_protocol || same_bytes s gcs_protocol || same_bytes s azure_protocol

-- `(.+)$`
unfoldable pub no_line_end : List ℕ → Bool
no_line_end [] = true
no_line_end (c ∷ cs) = not (c == 10) && not (c == 13) && no_line_end cs

unfoldable pub parse_path : List ℕ → Option (List ℕ)
unfolding no_line_end
parse_path [] = none
parse_path (c ∷ cs) = if no_line_end (c ∷ cs) then some (c ∷ cs) else none

-- The bytes before the first slash, and those after it.
unfoldable pub split_slash : List ℕ → Option (List ℕ × List ℕ)
split_slash [] = none
split_slash (c ∷ cs) = elim (c == slash) [
  | true ↦ some ([], cs)
  | false ↦ elim (split_slash cs) [ none ↦ none | some (a, b) ↦ some (c ∷ a, b) ]
]

-- `([^/]+)/(.+)$`
unfoldable pub parse_bucket : List ℕ → List ℕ → Option StorageUri
unfolding split_slash parse_path
parse_bucket scheme cs = elim (split_slash cs) [
  | none ↦ none
  | some (a, b) ↦ elim a [
    | [] ↦ none
    | x ∷ xs ↦ elim (parse_path b) [
      | none ↦ none
      | some path ↦ some (record { scheme = scheme; bucket = x ∷ xs; path = path })
    ]
  ]
]

-- The whole expression: two bytes of the scheme, then "://".
unfoldable pub parse : List ℕ → Option StorageUri
unfolding is_scheme parse_bucket
parse (a ∷ b ∷ c ∷ d ∷ e ∷ cs) =
    if is_scheme (a ∷ b ∷ []) && (c == 58) && (d == slash) && (e == slash)
    then parse_bucket (a ∷ b ∷ []) cs
    else none
parse _ = none

abbrev pub is_gcs : StorageUri → Bool
is_gcs u = same_bytes u.scheme gcs_protocol

abbrev pub is_azure : StorageUri → Bool
is_azure u = same_bytes u.scheme azure_protocol
