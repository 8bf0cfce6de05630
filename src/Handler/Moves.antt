-- ===== src/Handler/Moves.antt =====
-- langserver/handler.go: what each method changes of the fields that decide the life of a server.
use go_langserver.Common.{
  Bool, Bool-cases, Bytes, Option, Option-cases, arith, beq, codes, false, if◌then◌else◌, inl, inr,
  none, refl, some, true, ◌≡◌, ◌⊎◌,
}
use go_langserver.Common.Result.{Result, ok, err, panics}
use go_langserver.Lsp.{InitializeParams}
use go_langserver.Util.{is_uri, path_to_uri}
use go_langserver.Overlay.{Overlay}
use go_langserver.Overlay.Request.{
  Reply, returns, panicked, is_file_system_request, handle_file_system_request,
}
use go_langserver.Handler.State.{
  Caches, LangHandler, HandlerError, reset, reset_caches, shut_down, common_reset,
}
use go_langserver.Handler.Dispatch.{
  file_reply, Environment, Session, Response, handle_method, handle_initialize,
  handle_cancel_request, handle_other, is_feature,
}

-- How one request can change the fields that decide the phase.
pub data Moves {C : Caches} (h h' : LangHandler C) : Type 0 where
  same : h'.init ≡ h.init → h'.common.shutdown ≡ h.common.shutdown → Moves h h'
  inits :
      (p : InitializeParams)
      → h.init ≡ none
      → h'.init ≡ some p
      → h'.common.shutdown ≡ h.common.shutdown
      → Moves h h'
  shuts :
      (p : InitializeParams)
      → h.init ≡ some p
      → h'.init ≡ some p
      → h'.common.shutdown ≡ true
      → Moves h h'

module _ {C : Caches} {Raw V : Type 0} (env : Environment C Raw V) where
  pub stays : (h : LangHandler C) → Moves h h
  stays h = same refl refl

  reset_fields :
      (h h' : LangHandler C) (params : InitializeParams)
      → reset C env.parse_url h params ≡ ok h'
      → (h'.init ≡ some params) × (h'.common.shutdown ≡ h.common.shutdown)
  unfolding reset common_reset reset_caches
  reset_fields h h' params e = ground arith

  -- The path as a URI, before the reset.
  abbrev fixed : InitializeParams → InitializeParams
  fixed params =
      if is_uri params.root_path
      then params
      else record params { root_path = path_to_uri env.os params.root_path }

  initialize_with :
      (h : LangHandler C) (raw : Raw) (params : InitializeParams)
      → h.init ≡ none
      → env.decode_initialize raw ≡ some params
      → (r : Result HandlerError (LangHandler C)) → reset C env.parse_url h (fixed params) ≡ r
      → Moves h (handle_initialize env h (some raw)).0
  unfolding handle_initialize
  initialize_with h raw params e d (ok h') q =
      let (i, k) = reset_fields h h' (fixed params) q in
      simp (e, d, q, handle_initialize) (inits (fixed params) e i k)
  initialize_with h raw params e d (err x) q = simp (e, d, q, handle_initialize) (stays h)
  initialize_with h raw params e d panics q = simp (e, d, q, handle_initialize) (stays h)

  initialize-Moves :
      (h : LangHandler C) (params : Option Raw) → Moves h (handle_initialize env h params).0
  unfolding handle_initialize
  initialize-Moves h none = stays h
  initialize-Moves h (some raw) = elim (Option-cases h.init) [
    | inl e ↦ elim (Option-cases (env.decode_initialize raw)) [
      | inl d ↦ simp (e, d, handle_initialize) (stays h)
      | inr (params, d) ↦
          initialize_with h raw params e d (reset C env.parse_url h (fixed params)) refl
    ]
    | inr (p, e) ↦ simp (e, handle_initialize) (stays h)
  ]

  cancel-Moves :
      (h : LangHandler C) (params : Option Raw) → Moves h (handle_cancel_request env h params).0
  unfolding handle_cancel_request
  cancel-Moves h none = stays h
  cancel-Moves h (some raw) = elim (Option-cases (env.decode_cancel raw)) [
    | inl e ↦ rw (e, handle_cancel_request) (stays h)
    | inr (id, e) ↦ rw (e, handle_cancel_request) (same refl refl)
  ]

  file_reply-Moves : (h : LangHandler C) (r : Overlay × Reply) → Moves h (file_reply env h r).0
  file_reply-Moves h (o, panicked) = same refl refl
  file_reply-Moves h (o, returns uri true e) = unfold reset_caches in same refl refl
  file_reply-Moves h (o, returns uri false e) = same refl refl

  other-Moves :
      (h : LangHandler C) (method : Bytes) (params : Option Raw)
      → Moves h (handle_other env h method params).0
  unfolding handle_other
  other-Moves h method params = elim (Bool-cases (is_file_system_request method)) [
    | inl e ↦
        rw (e, handle_other)
          (file_reply-Moves h (
            handle_file_system_request env.parse_url env.fs env.json h.shared.overlay method
              params))
    | inr e ↦ rw (e, handle_other) (stays h)
  ]

  pub pick-Moves :
      (h : LangHandler C) (b : Bool) (x y : Session C × Response env)
      → Moves h x.0.handler
      → Moves h y.0.handler
      → Moves h (if b then x else y).0.handler
  pick-Moves h true x y m n = m
  pick-Moves h false x y m n = n

  shutdown-Moves :
      (h : LangHandler C) (p : InitializeParams)
      → h.init ≡ some p
      → Moves h (record h { common = shut_down h.common })
  unfolding shut_down
  shutdown-Moves h p e = shuts p e e refl

  -- What the first guard of Handle leaves: "initialize", or a server that is initialised.
  unfoldable pub Passed : LangHandler C → Bytes → Type 0
  Passed h method =
      (beq method (codes "initialize") ≡ true) ⊎ ((p : InitializeParams) × (h.init ≡ some p))

  pub method-Moves :
      (s : Session C) (method : Bytes) (params : Option Raw)
      → Passed s.handler method
      → Moves s.handler (handle_method env s method params).0.handler
  unfolding handle_method Passed
  method-Moves s method params (inl e) = rw e (initialize-Moves s.handler params)
  method-Moves s method params (inr (p, e)) =
      let h = s.handler in
      pick-Moves h (beq method (codes "initialize")) _ _ (initialize-Moves h params) (
        pick-Moves h (beq method (codes "initialized")) _ _ (stays h) (
          pick-Moves h (beq method (codes "shutdown")) _ _ (shutdown-Moves h p e) (
            pick-Moves h (beq method (codes "exit")) _ _ (stays h) (
              pick-Moves h (beq method (codes "$/cancelRequest")) _ _ (cancel-Moves h params)
                (pick-Moves h (is_feature method) _ _ (stays h) (other-Moves h method params))))))
