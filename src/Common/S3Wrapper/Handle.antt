-- ===== src/Common/S3Wrapper/Handle.antt =====
-- cpp/common/s3_wrapper/s3_wrapper.cc, `manage_backend_handle`: the life of the handle of the backend,
-- against a description of it that knows only the handle that is open.
use runai_model_streamer.Prelude.{
  ◌≡◌, refl, ap, ◌⊎◌, Bool, true, false, Option, none, some, List, [], ◌∷◌, inl, inr, All,
  Bool-cases, Option-cases,
}
use runai_model_streamer.Common.Text.{Text}
use runai_model_streamer.Common.ResponseCode.{
  ResponseCode, success, is_success, obj_plugin_load_error,
}
use runai_model_streamer.Common.Result.{Result, ok, err, Fault, exception}
use runai_model_streamer.Common.BackendApi.{
  ObjectShutdownPolicy, on_process_exit, on_streamer_shutdown,
}
use runai_model_streamer.Common.S3Wrapper.{
  loaded_or, opened, Library, BackendHandle, required, open_object_storage_impl, require_all,
  resolve_api, create_handle, Static, unset, closed, made, ManageBackendHandleOp, create_op,
  destroy_op, handle_of, ensure, destroy, held_under, manage_backend_handle,
}
use runai_model_streamer.Common.S3Wrapper.Opening.{
  ObjectPluginType, gcs, s3, azure, Params, so_name, get_libstreamers_plugin_type,
}

module _ {H C : Type 0} (dlopen : Text → Option (Library H C)) where
  -- The backend that the parameters ask for has been opened, from a library with every symbol.
  pub record Opens (p : Params) (h : BackendHandle H C) : Type 0 where
    pub loaded : dlopen (so_name (get_libstreamers_plugin_type p.uri)) ≡ some h.library
    pub complete : All (λ name. h.library.exports name ≡ true) required
    pub opened : h.library.open_backend ≡ (success, h.handle)

  -- Whether a handle was ever open.
  abbrev pub was_open : Static H C → Bool
  was_open unset = false
  was_open closed = true
  was_open (made h) = true

  -- The handle that a DESTROY finds: the open one, or one that it opens because none ever was.
  abbrev pub Finds : Params → Option (BackendHandle H C) → Bool → BackendHandle H C → Type 0
  Finds p before ever h = (before ≡ some h) ⊎ ((before ≡ none) × (ever ≡ false) × Opens p h)

  -- A call: the handle that is open before it and whether one ever was, its result, and the same two
  -- after it.
  pub data Lifecycle (op : ManageBackendHandleOp) (p : Params) (before : Option (BackendHandle H C))
      (ever : Bool) (result : Result (Option (BackendHandle H C)))
      (after : Option (BackendHandle H C)) (ever_after : Bool) : Type 0 where
    -- An open handle is used again, whatever the parameters are.
    uses :
        (h : BackendHandle H C)
        → op ≡ create_op
        → before ≡ some h
        → result ≡ ok (some h)
        → after ≡ some h
        → ever_after ≡ true
        → Lifecycle op p before ever result after ever_after
    opens :
        (h : BackendHandle H C)
        → op ≡ create_op
        → before ≡ none
        → Opens p h
        → result ≡ ok (some h)
        → after ≡ some h
        → ever_after ≡ true
        → Lifecycle op p before ever result after ever_after
    -- DESTROY closes a handle, which this very call may have opened, if the plugin's policy says so.
    closes :
        (h : BackendHandle H C)
        → op ≡ destroy_op
        → Finds p before ever h
        → h.library.shutdown_policy ≡ some on_streamer_shutdown
        → result ≡ ok none
        → after ≡ none
        → ever_after ≡ true
        → Lifecycle op p before ever result after ever_after
    holds :
        (h : BackendHandle H C)
        → op ≡ destroy_op
        → Finds p before ever h
        → ¬ (h.library.shutdown_policy ≡ some on_streamer_shutdown)
        → result ≡ ok (some h)
        → after ≡ some h
        → ever_after ≡ true
        → Lifecycle op p before ever result after ever_after
    -- The handle was closed already.
    rests :
        op ≡ destroy_op
        → before ≡ none
        → ever ≡ true
        → result ≡ ok none
        → after ≡ none
        → ever_after ≡ true
        → Lifecycle op p before ever result after ever_after
    fails :
        (e : Fault)
        → (op ≡ create_op) ⊎ (ever ≡ false)
        → before ≡ none
        → ((h : BackendHandle H C) → ¬ Opens p h)
        → result ≡ err e
        → after ≡ none
        → ever_after ≡ ever
        → Lifecycle op p before ever result after ever_after

  require_all-All :
      (library : Library H C) (names : List Text)
      → ((require_all library names ≡ ok tt) × All (λ name. library.exports name ≡ true) names)
        ⊎ ((e : Fault) × (require_all library names ≡ err e))
  unfolding require_all
  require_all-All library [] = inl (refl, tt)
  require_all-All library (name ∷ names) = elim (Bool-cases (library.exports name)) [
    | inr e ↦ inr (exception obj_plugin_load_error, rw e refl)
    | inl e ↦ elim (require_all-All library names) [
      | inl h ↦ inl (rw e h.0, (e, h.1))
      | inr h ↦ inr (h.0, rw e h.1)
    ]
  ]

  loaded_or-none : (t : ObjectPluginType) → (e : Fault) × (loaded_or {H = H} {C = C} t none ≡ err e)
  loaded_or-none gcs = (_, refl)
  loaded_or-none s3 = (_, refl)
  loaded_or-none azure = (_, refl)

  is_success→eq : (c : ResponseCode) → is_success c ≡ true → c ≡ success
  is_success→eq success h = refl
  is_success→eq _ h = cc

  opened-cases :
      (library : Library H C) (out : ResponseCode × H)
      → ((out ≡ (success, out.1))
          × (opened library out ≡ ok (record { library = library; handle = out.1 })))
        ⊎ ((e : Fault) × (opened library out ≡ err e))
  opened-cases library (ret, handle) = elim (Bool-cases (is_success ret)) [
    | inl e ↦ inl (ap (λ c. (c, handle)) (is_success→eq ret e), rw e refl)
    | inr e ↦ inr (exception ret, rw e refl)
  ]

  create_handle-Opens :
      (p : Params)
      → ((h : BackendHandle H C) × (create_handle dlopen p ≡ ok h) × Opens p h)
        ⊎ ((e : Fault) × (create_handle dlopen p ≡ err e))
  unfolding create_handle open_object_storage_impl resolve_api
  create_handle-Opens p =
      let t = get_libstreamers_plugin_type p.uri in
      elim (Option-cases (dlopen (so_name t))) [
        | inl no_library ↦ let (e, q) = loaded_or-none t in inr (e, rw (no_library, q) refl)
        | inr (library, loaded) ↦ elim (require_all-All library required) [
          | inr (e, q) ↦ inr (e, rw (loaded, q) refl)
          | inl (q, all) ↦ elim (opened-cases library library.open_backend) [
            | inr (e, f) ↦ inr (e, rw (loaded, q, f) refl)
            | inl (same, f) ↦ inl (
              record { library = library; handle = library.open_backend.1 },
              rw (loaded, q, f) refl,
              record { loaded = loaded; complete = all; opened = same },
            )
          ]
        ]
      ]

  require_all-ok :
      (library : Library H C) (names : List Text)
      → All (λ name. library.exports name ≡ true) names
      → require_all library names ≡ ok tt
  unfolding require_all
  require_all-ok library [] h = refl
  require_all-ok library (name ∷ names) h = rw h.0 (require_all-ok library names h.1)

  create_handle-ok :
      (p : Params) (h : BackendHandle H C) → Opens p h → create_handle dlopen p ≡ ok h
  unfolding create_handle open_object_storage_impl resolve_api
  create_handle-ok p h o =
      rw (o.loaded, require_all-ok h.library required o.complete, o.opened) refl

  refuses :
      (p : Params) (f : Fault)
      → create_handle dlopen p ≡ err f
      → (h : BackendHandle H C) → ¬ Opens p h
  refuses p f e h o = cc (create_handle-ok p h o)

  destroy-Lifecycle :
      (p : Params) (before : Option (BackendHandle H C)) (ever : Bool) (h : BackendHandle H C)
      → Finds p before ever h
      → (policy : Option ObjectShutdownPolicy) → h.library.shutdown_policy ≡ policy
      → let s' = held_under dlopen policy h in
        Lifecycle destroy_op p before ever
          (ok (handle_of dlopen s'))
          (handle_of dlopen s')
          (was_open s')
  destroy-Lifecycle p before ever h b none e = holds h refl b (λ f. cc) refl refl refl
  destroy-Lifecycle p before ever h b (some on_process_exit) e =
      holds h refl b (λ f. cc) refl refl refl
  destroy-Lifecycle p before ever h b (some on_streamer_shutdown) e =
      closes h refl b e refl refl refl

  -- Every call of `manage_backend_handle` is a step of the life of the handle: CREATE gives the
  -- open handle, or opens the backend that its parameters ask for, from a library that has every
  -- symbol; DESTROY closes a handle exactly if its plugin's policy is to close on shutdown. Where
  -- none is open, it opens one first if and only if none ever was; if one was, it does nothing. A call
  -- fails only where it has to open one and none can be opened, and then none is open.
  pub manage_backend_handle-Lifecycle :
      (op : ManageBackendHandleOp) (p : Params) (s : Static H C)
      → let (result, s') = manage_backend_handle dlopen op p s in
        Lifecycle op p (handle_of dlopen s) (was_open s) result (handle_of dlopen s') (was_open s')
  unfolding manage_backend_handle ensure destroy
  manage_backend_handle-Lifecycle create_op p (made h) = uses h refl refl refl refl refl
  manage_backend_handle-Lifecycle destroy_op p (made h) =
      destroy-Lifecycle p (some h) true h (inl refl) h.library.shutdown_policy refl
  manage_backend_handle-Lifecycle create_op p unset = elim (create_handle-Opens p) [
    | inl (h, e, o) ↦ rw e (opens h refl refl o refl refl refl)
    | inr (f, e) ↦ rw e (fails f (inl refl) refl (refuses p f e) refl refl refl)
  ]
  manage_backend_handle-Lifecycle create_op p closed = elim (create_handle-Opens p) [
    | inl (h, e, o) ↦ rw e (opens h refl refl o refl refl refl)
    | inr (f, e) ↦ rw e (fails f (inl refl) refl (refuses p f e) refl refl refl)
  ]
  manage_backend_handle-Lifecycle destroy_op p closed = rests refl refl refl refl refl refl
  manage_backend_handle-Lifecycle destroy_op p unset = elim (create_handle-Opens p) [
    | inl (h, e, o) ↦
        rw e (destroy-Lifecycle p none false h (inr (refl, refl, o)) h.library.shutdown_policy refl)
    | inr (f, e) ↦ rw e (fails f (inr refl) refl (refuses p f e) refl refl refl)
  ]
