-- ===== src/Handler/Dispatch.antt =====
-- langserver/handler.go: Handle, from the checks in front of the switch to its cases. What the
-- language features compute, the decoding of JSON, the file system and url.Parse are the fields of
-- `Environment`.
use go_langserver.Common.{
  Bool, Bytes, List, Option, [], any, beq, codes, false, if◌then◌else◌, none, not, some, true, ℕ,
  ◌&&◌, ◌∷◌,
}
use go_langserver.Common.Result.{Result, ok, err, panics}
use go_langserver.Lsp.{RequestId, InitializeParams}
use go_langserver.Util.{Os, is_uri, path_to_uri}
use go_langserver.Overlay.{Files, Overlay}
use go_langserver.Overlay.Request.{
  ReadError, RequestError, Reply, returns, panicked, Decoders, is_file_system_request,
  handle_file_system_request,
}
use go_langserver.Cancel.{Cancel, with_cancel, release, cancel}
use go_langserver.Handler.State.{
  Caches, LangHandler, HandlerError, not_initialized, already_initialized, shut_down, check_ready,
  reset, reset_caches,
}

pub data ResponseError : Type 0 where
  handler_error : HandlerError → ResponseError
  bad_trace invalid_params bad_json completion_disabled unexpected_panic : ResponseError
  method_not_found : Bytes → ResponseError
  feature_error : ℕ → ResponseError
  file_error : RequestError → ResponseError

pub record Request (Raw : Type 0) : Type 0 where
  pub method : Bytes
  pub params : Option Raw
  pub id : RequestId
  pub notif : Bool

-- The results of the methods: nothing, InitializeResult with or without a CompletionProvider, or
-- what a feature returns.
pub data Value (V : Type 0) : Type 0 where
  null : Value V
  capabilities : Bool → Value V
  feature_value : V → Value V

pub record Environment (C : Caches) (Raw V : Type 0) : Type 0 where
  pub os : Os
  pub parse_url : Bytes → Option Bytes
  pub fs : Files → Bytes → Result ReadError Bytes
  pub json : Decoders Raw
  pub decode_initialize : Raw → Option InitializeParams
  pub decode_cancel : Raw → Option RequestId
  pub gocode_completion_enabled : Bool
  -- SpanForRequest gives no error
  pub span_ok : Request Raw → Bool
  -- decoding the parameters of a feature and running it; `none` is an error of json.Unmarshal
  pub feature : LangHandler C → Bytes → Raw → Option (Result ℕ V)

-- The methods whose cases decode their parameters and call a feature.
abbrev pub feature_methods : List Bytes
feature_methods =
    codes "textDocument/hover"
    ∷ codes "textDocument/definition"
    ∷ codes "textDocument/xdefinition"
    ∷ codes "textDocument/completion"
    ∷ codes "textDocument/references"
    ∷ codes "textDocument/implementation"
    ∷ codes "textDocument/documentSymbol"
    ∷ codes "textDocument/signatureHelp"
    ∷ codes "textDocument/formatting"
    ∷ codes "workspace/symbol"
    ∷ codes "workspace/xreferences"
    ∷ []

unfoldable pub is_feature : Bytes → Bool
is_feature method = any (beq method) feature_methods

-- The state of the server with that of its connection.
pub record Session (C : Caches) : Type 0 where
  pub handler : LangHandler C
  pub closed : Bool

abbrev pub is_none {ℓ} : {A : Type ℓ} → Option A → Bool
is_none none = true
is_none (some a) = false

module _ {C : Caches} {Raw V : Type 0} (env : Environment C Raw V) where
  abbrev pub Response : Type 0
  Response = Result ResponseError (Value V)

  -- What Panicf leaves of a result.
  abbrev pub recovered : Result ℕ V → Response
  recovered (ok v) = ok (feature_value v)
  recovered (err e) = err (feature_error e)
  recovered panics = err unexpected_panic

  unfoldable pub handle_initialize : LangHandler C → Option Raw → LangHandler C × Response
  handle_initialize h none = (
    h,
    elim h.init [ some _ ↦ err (handler_error already_initialized) | none ↦ err invalid_params ],
  )
  handle_initialize h (some raw) = elim h.init [
    | some _ ↦ (h, err (handler_error already_initialized))
    | none ↦ elim (env.decode_initialize raw) [
      | none ↦ (h, err bad_json)
      | some params ↦
          elim (reset C env.parse_url h (
            if is_uri params.root_path
            then params
            else record params { root_path = path_to_uri env.os params.root_path })) [
              | ok h' ↦ (h', ok (capabilities env.gocode_completion_enabled))
              | err e ↦ (h, err (handler_error e))
              | panics ↦ (h, err unexpected_panic)
            ]
    ]
  ]

  unfoldable pub handle_cancel_request : LangHandler C → Option Raw → LangHandler C × Response
  handle_cancel_request h none = (h, ok null)
  handle_cancel_request h (some raw) = elim (env.decode_cancel raw) [
    | none ↦ (h, ok null)
    | some id ↦
        (record h { cancel = elim h.cancel [ none ↦ none | some c ↦ some (cancel c id) ] }, ok null)
  ]

  unfoldable pub handle_feature : LangHandler C → Bytes → Option Raw → Response
  handle_feature h method params =
      if beq method (codes "textDocument/completion") && not env.gocode_completion_enabled
      then err completion_disabled
      else elim params [
        | none ↦ err invalid_params
        | some raw ↦ elim (env.feature h method raw) [ none ↦ err bad_json | some r ↦ recovered r ]
      ]

  abbrev pub with_overlay : LangHandler C → Overlay → LangHandler C
  with_overlay h o = record h { shared = record h.shared { overlay = o } }

  -- `if fileChanged { h.resetCaches(true) }` and the result
  abbrev pub file_reply : LangHandler C → Overlay × Reply → LangHandler C × Response
  file_reply h (o, panicked) = (with_overlay h o, err unexpected_panic)
  file_reply h (o, returns uri changed e) = (
    if changed then reset_caches C (with_overlay h o) else with_overlay h o,
    elim e [ none ↦ ok null | some x ↦ err (file_error x) ],
  )

  -- The `default` case.
  unfoldable pub handle_other : LangHandler C → Bytes → Option Raw → LangHandler C × Response
  handle_other h method params =
      if is_file_system_request method
      then file_reply h
          (handle_file_system_request env.parse_url env.fs env.json h.shared.overlay method params)
      else (h, err (method_not_found method))

  abbrev pub keep : Session C → LangHandler C × Response → Session C × Response
  keep s (h, response) = (record s { handler = h }, response)

  -- The switch over the methods.
  unfoldable pub handle_method : Session C → Bytes → Option Raw → Session C × Response
  unfolding handle_initialize handle_cancel_request handle_feature handle_other
  handle_method s method params =
      if beq method (codes "initialize")
      then keep s (handle_initialize s.handler params)
      else if beq method (codes "initialized")
      then (s, ok null)
      else if beq method (codes "shutdown")
      then keep s (record s.handler { common = shut_down s.handler.common }, ok null)
      else if beq method (codes "exit")
      then (record s { closed = true }, ok null)
      else if beq method (codes "$/cancelRequest")
      then keep s (handle_cancel_request s.handler params)
      else if is_feature method
      then (s, handle_feature s.handler method params)
      else keep s (handle_other s.handler method params)

  -- Registering the request with the cancel manager, and its deferred removal.
  abbrev pub track : Request Raw → Option Cancel → Option Cancel
  track r none = none
  track r (some c) = if r.notif then some c else some (with_cancel c r.id).0

  abbrev pub untrack : Request Raw → Option Cancel → Option Cancel → Option Cancel
  untrack r none now = now
  untrack r (some before) none = none
  untrack r (some before) (some c) =
      if r.notif then some c else some (release c r.id (with_cancel before r.id).1)

  abbrev pub with_tracking : Session C → Option Cancel → Session C
  with_tracking s c = record s { handler = record s.handler { cancel = c } }

  -- The switch between the registration of the request and its removal.
  unfoldable pub handle_tracked : Session C → Request Raw → Session C × Response
  unfolding handle_method
  handle_tracked s r =
      let before = s.handler.cancel in
      let (s', response) = handle_method (with_tracking s (track r before)) r.method r.params in
      (with_tracking s' (untrack r before s'.handler.cancel), response)

  -- What follows CheckReady.
  unfoldable pub handle_ready :
      Session C → Request Raw → Result HandlerError (Unit {0}) → Session C × Response
  unfolding handle_tracked
  handle_ready s r (err e) =
      if beq r.method (codes "exit") then (s, ok null) else (s, err (handler_error e))
  handle_ready s r panics = (s, err unexpected_panic)
  handle_ready s r (ok _) = if env.span_ok r then handle_tracked s r else (s, err bad_trace)

  unfoldable pub handle : Session C → Request Raw → Session C × Response
  unfolding handle_ready
  handle s r =
      if not (beq r.method (codes "initialize")) && is_none s.handler.init
      then (s, err (handler_error not_initialized))
      else handle_ready s r (check_ready s.handler.common)
