-- ===== src/Plugins/S3/Backend/Window.antt =====
-- The window of a client on its way from the plugin (cpp/s3/s3.cc, `obj_create_client` and
-- `obj_get_backend_config`) to the worker (cpp/common/s3_wrapper/s3_wrapper.cc,
-- `max_inflight_bytes`), as text in a buffer.
use runai_model_streamer.Prelude.{
  ℕ, zero, suc, ◌+◌, ◌-◌, ◌%◌, ◌^◌, ◌≤◌, ◌<◌, ◌≡◌, refl, sym, ap, subst, ◌∙◌, Option, none, some,
  List, [], ◌∷◌, ◌++◌, append_assoc, set, replicate, length, length-append, drop, ltb, leb, arith,
  false,
}
use runai_model_streamer.Prelude.Assoc.{lookup}
use runai_model_streamer.Common.Text.{Text, codes}
use runai_model_streamer.Common.Decimal.{to_string, length-to_string, strtoull-to_string}
use runai_model_streamer.Common.ResponseCode.{success}
use runai_model_streamer.Common.Result.{Result, ok, err}
use runai_model_streamer.Common.BackendApi.{ObjectClientConfig}
use runai_model_streamer.Common.S3Wrapper.{S3ClientWrapper, max_inflight_bytes}
use runai_model_streamer.Common.ClientMgr.{ClientMgr, enter}
use runai_model_streamer.Plugins.S3.{S3Client}
use runai_model_streamer.Plugins.S3.Backend.{
  Backend, write_value, obj_get_backend_config, obj_create_client, given,
}

set-append {ℓ} :
    {A : Type ℓ} (xs ys : List A) (i : ℕ) (v : A)
    → length xs ≤ i
    → set (xs ++ ys) i v ≡ xs ++ set ys (i - length xs) v
set-append [] ys i v h = ap (λ j. set ys j v) (omega arith)
set-append (x ∷ xs) ys zero v h = absurd (omega arith)
set-append (x ∷ xs) ys (suc i) v h =
    ap (◌∷◌ x) (set-append xs ys i v (omega arith) ∙ ap (λ j. xs ++ set ys j v) (omega arith))

-- A text of less than 32 bytes arrives in the buffer with its null byte.
write_value-fits :
    (tmp buffer : List ℕ)
    → length tmp < 31
    → write_value tmp buffer 32 ≡ (success, tmp ++ 0 ∷ drop (suc (length tmp)) buffer, length tmp)
unfolding write_value
write_value-fits tmp buffer h =
    let short : leb 32 (length tmp) ≡ false = ground arith in
    let needed : (length tmp % 2 ^ 32 + 1) % 2 ^ 32 ≡ suc (length tmp) = omega arith in
    let room : ltb 32 (suc (length tmp)) ≡ false = ground arith in
    let size : length (tmp ++ 0 ∷ []) ≡ suc (length tmp) =
      length-append tmp (0 ∷ []) ∙ omega arith in
    rw (short, needed, room, size, append_assoc) refl

module _ {H C : Type 0} (w : S3ClientWrapper H C) (b : Backend) where
  max_inflight_bytes-window :
      ((key : Text) (buffer : List ℕ) (len : ℕ)
        → w.backend.library.get_backend_config w.backend.handle key buffer len
          ≡ obj_get_backend_config b key buffer len)
      → b.g_max_inflight_bytes < 2 ^ 64
      → max_inflight_bytes w ≡ b.g_max_inflight_bytes
  unfolding max_inflight_bytes obj_get_backend_config
  max_inflight_bytes-window plugin fits =
      let text = to_string b.g_max_inflight_bytes in
      let size = length-to_string b.g_max_inflight_bytes in
      let next : 31 - length text ≡ suc (30 - length text) = omega arith in
      rw
        (
          plugin (codes "max_inflight_bytes") (replicate 32 0) 32,
          write_value-fits text (replicate 32 0) (omega arith),
          set-append text _ 31 0 (omega arith),
          next,
        )
        (strtoull-to_string b.g_max_inflight_bytes _ fits)

given-window :
    (address p : ℕ) (built : Result S3Client) (b b' : Backend) (c : S3Client)
    (out : Result (Option ℕ × ClientMgr S3Client))
    → given address built b out ≡ (success, some p, b')
    → lookup p b'.mgr.clients ≡ some c
    → b'.g_max_inflight_bytes ≡ c.max_inflight_bytes
unfolding given enter lookup
given-window address p built b b' c (err _) e l = cc
given-window address p built b b' c (ok (some q, mgr)) e l = ground arith
given-window address p (err _) b b' c (ok (none, mgr)) e l = cc
given-window address p (ok d) b b' c (ok (none, mgr)) e l = ground arith

-- The plugin's variable has the window of the client that was given out.
obj_create_client-window :
    (address p : ℕ) (built : Result S3Client) (config : ObjectClientConfig) (b b' : Backend)
    (c : S3Client)
    → obj_create_client address built config b ≡ (success, some p, b')
    → lookup p b'.mgr.clients ≡ some c
    → b'.g_max_inflight_bytes ≡ c.max_inflight_bytes
unfolding obj_create_client
obj_create_client-window address p built config b b' c e l =
    given-window address p built b b' c _ e l

module _ {H C : Type 0} (w : S3ClientWrapper H C) (address p : ℕ) (built : Result S3Client)
    (config : ObjectClientConfig) (b b' : Backend) (c : S3Client)
    (created : obj_create_client address built config b ≡ (success, some p, b'))
    (found : lookup p b'.mgr.clients ≡ some c) (fits : c.max_inflight_bytes < 2 ^ 64)
    (plugin : (key : Text) (buffer : List ℕ) (len : ℕ)
      → w.backend.library.get_backend_config w.backend.handle key buffer len
        ≡ obj_get_backend_config b' key buffer len) where
  -- Once the plugin for S3 has created a client, whether it made it or used one again, whose window
  -- is a `size_t`, the wrapper over that plugin reads exactly this window, from the text that the
  -- plugin writes into a buffer of 32 bytes.
  pub max_inflight_bytes-obj_create_client : max_inflight_bytes w ≡ c.max_inflight_bytes
  max_inflight_bytes-obj_create_client =
      let same = obj_create_client-window address p built config b b' c created found in
      max_inflight_bytes-window w b' plugin (subst (λ n. n < 2 ^ 64) (sym same) fits) ∙ same
