-- ===== src/Plugins/S3/Pages.antt =====
-- cpp/s3/client/client.cc, `list_files`: the pages of a listing.
use runai_model_streamer.Prelude.{
  ℕ, zero, suc, ◌≤◌, ◌≡◌, refl, sym, ap, ◌∙◌, Bool, true, false, not, Option, none, some, List, [],
  ◌∷◌, ◌++◌, append_assoc, append-nil, if◌then◌else◌, length, arith, Bool-cases, inl, inr, All, ◌^◌,
  ◌<◌,
}
use runai_model_streamer.Common.Text.{Text, codes}
use runai_model_streamer.Common.ResponseCode.{ResponseCode, success, file_access_error, is_success}
use runai_model_streamer.Common.Result.{ok}
use runai_model_streamer.Common.StorageUri.{StorageUri}
use runai_model_streamer.Common.StorageUri
use runai_model_streamer.Plugins.ListFiles.{
  ObjectFileEntry, impl_obj_list_files, read_entries, NoNull, read_entries-filled,
}
use runai_model_streamer.Plugins.S3.Backend.{obj_list_files}
use runai_model_streamer.Plugins.S3.{Page, ends_with_slash, take_objects, list_pages, list_files}

-- What the vendor's client gives from a token on: the contents of its pages, and the code at their
-- end.
pub data Serves (server : Option Text → Option Page)
    : Option Text → List (List (Text × ℕ)) → ResponseCode → Type 0 where
  fails : {token : Option Text} → server token ≡ none → Serves server token [] file_access_error
  last :
      {token : Option Text} {contents : List (Text × ℕ)}
      → server token ≡ some (record { contents = contents; next = none })
      → Serves server token (contents ∷ []) success
  more :
      {token : Option Text} {next : Text} {contents : List (Text × ℕ)}
      {pages : List (List (Text × ℕ))} {code : ResponseCode}
      → server token ≡ some (record { contents = contents; next = some next })
      → Serves server (some next) pages code
      → Serves server token (contents ∷ pages) code

abbrev pub concat : List (List (Text × ℕ)) → List (Text × ℕ)
concat [] = []
concat (page ∷ pages) = page ++ concat pages

-- The objects that are no markers of directories, with their URIs.
abbrev pub objects : Text → List (Text × ℕ) → List (Text × ℕ)
objects uri_prefix [] = []
objects uri_prefix ((key, size) ∷ contents) =
    if ends_with_slash key
    then objects uri_prefix contents
    else (uri_prefix ++ key, size) ∷ objects uri_prefix contents

take_objects-append :
    (uri_prefix : Text) (contents results : List (Text × ℕ))
    → take_objects uri_prefix contents results ≡ results ++ objects uri_prefix contents
unfolding take_objects
take_objects-append uri_prefix [] results = sym (append-nil results)
take_objects-append uri_prefix ((key, size) ∷ contents) results =
    elim (Bool-cases (ends_with_slash key)) [
      | inl e ↦ rw e (take_objects-append uri_prefix contents results)
      | inr e ↦ rw e (
          take_objects-append uri_prefix contents (results ++ (uri_prefix ++ key, size) ∷ [])
          ∙ append_assoc results _ _)
    ]

objects-append :
    (uri_prefix : Text) (xs ys : List (Text × ℕ))
    → objects uri_prefix (xs ++ ys) ≡ objects uri_prefix xs ++ objects uri_prefix ys
objects-append uri_prefix [] ys = refl
objects-append uri_prefix ((key, size) ∷ xs) ys = elim (Bool-cases (ends_with_slash key)) [
  | inl e ↦ rw e (objects-append uri_prefix xs ys)
  | inr e ↦ rw e (ap (◌∷◌ (uri_prefix ++ key, size)) (objects-append uri_prefix xs ys))
]

list_pages-Serves :
    (fuel : ℕ) (server : Option Text → Option Page) (uri_prefix : Text) (token : Option Text)
    (pages : List (List (Text × ℕ))) (code : ResponseCode) (results : List (Text × ℕ))
    → Serves server token pages code
    → suc (length pages) ≤ fuel
    → list_pages fuel server uri_prefix token results
      ≡ (true, code, results ++ objects uri_prefix (concat pages))
unfolding list_pages
list_pages-Serves zero server uri_prefix token pages code results s h = absurd (omega arith)
list_pages-Serves (suc fuel) server uri_prefix token [] _ results (fails e) h =
    rw (e, list_pages, append-nil) refl
list_pages-Serves (suc fuel) server uri_prefix token (contents ∷ []) _ results (last e) h =
    rw (e, list_pages, take_objects-append, append-nil) refl
list_pages-Serves (suc fuel) server uri_prefix token (contents ∷ pages) code results
      (more {next = next} e s) h =
    rw (e, list_pages, take_objects-append)
      (list_pages-Serves fuel server uri_prefix (some next) pages code _ s (omega arith)
        ∙ rw (objects-append, append_assoc) refl)

-- What a caller gets of a listing: nothing with an error, and with Success the objects.
abbrev pub Lists :
    ResponseCode
    → List (Text × ℕ)
    → ResponseCode × Option (ℕ × Option (List ObjectFileEntry × Text))
    → Type 0
Lists code found (ret, none) = (ret ≡ code) × (is_success code ≡ false)
Lists code found (ret, some out) = (ret ≡ code) × (code ≡ success) × (read_entries out ≡ found)

impl_obj_list_files-Lists :
    (code : ResponseCode) (found : List (Text × ℕ))
    → All (λ r. NoNull r.0) found
    → length found < 2 ^ 32
    → Lists code found (impl_obj_list_files true (ok (code, found)))
unfolding impl_obj_list_files
impl_obj_list_files-Lists success found h b = (refl, refl, read_entries-filled found h b)
impl_obj_list_files-Lists _ found h b = (refl, refl)

module _ (fuel : ℕ) (server : Text → Text → Bool → Option Text → Option Page) (path : Text)
    (is_recursive : Bool) (pages : List (List (Text × ℕ))) (code : ResponseCode) {uri : StorageUri}
    (parsed : StorageUri.parse path ≡ some uri)
    (served : Serves (server uri.bucket uri.path (not is_recursive)) none pages code)
    (enough : suc (length pages) ≤ fuel) where
  abbrev pub listed : List (Text × ℕ)
  listed = objects (uri.scheme ++ codes "://" ++ uri.bucket ++ codes "/") (concat pages)

  list_files-listed : list_files fuel server path is_recursive [] ≡ ok (true, code, listed)
  unfolding list_files
  list_files-listed =
      rw (parsed, list_files)
        (ap (λ out. ok out) (list_pages-Serves fuel _ _ none pages code [] served enough))

  module _ (strings : All (λ r. NoNull r.0) listed) (few : length listed < 2 ^ 32) where
    -- For a prefix that is a URI, a server whose pages from the first one on end after some calls,
    -- by a last page or by a call that fails, fuel for these calls, and less than 2^32 objects
    -- whose URIs are C strings: `obj_list_files` ends. If a call has failed it gives
    -- FileAccessError and no entries; else it gives Success and entries that a caller reads as the
    -- objects of all pages in order, with their whole URIs and sizes, the markers of directories
    -- alone left out, however the server divides its listing into pages.
    pub obj_list_files-Lists :
        (out : ResponseCode × Option (ℕ × Option (List ObjectFileEntry × Text))) × (obj_list_files
            fuel server true path is_recursive
          ≡ some out)
        × Lists code listed out
    unfolding obj_list_files
    obj_list_files-Lists = (
      impl_obj_list_files true (ok (code, listed)),
      rw (list_files-listed, obj_list_files) refl,
      impl_obj_list_files-Lists code listed strings few,
    )
