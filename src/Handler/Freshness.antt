-- ===== src/Handler/Freshness.antt =====
-- langserver/handler.go: the caches after a textDocument/did* request.
use mathlib.Core.Path.{subst}
use go_langserver.Common.{
  Bool, Bool-cases, Bytes, Option, ap, arith, beq, beq→eq, codes, false, if◌then◌else◌, inl, inr,
  none, refl, some, sym, true, ◌||◌, ◌↔◌, ◌∙◌, ◌≡◌, ◌⊎◌,
}
use go_langserver.Lsp.{DocumentUri, InitializeParams}
use go_langserver.Overlay.{Overlay}
use go_langserver.Overlay.Request.{
  Reply, returns, RequestError, is_file_system_request, handle_file_system_request, read_file,
}
use go_langserver.Overlay.Request.Changed.{handle_file_system_request_changed}
use go_langserver.Cancel.{Cancel}
use go_langserver.Handler.State.{Caches, LangHandler, check_ready, reset_caches, renewed}
use go_langserver.Handler.Dispatch.{
  Environment, Session, Request, Response, handle, handle_ready, handle_tracked, handle_method,
  handle_other, is_feature, file_reply, keep, track, untrack, with_tracking, with_overlay,
}

||_elim : (a b : Bool) → (a || b) ≡ true → (a ≡ true) ⊎ (b ≡ true)
||_elim a b h = ground arith

-- A file system method is none of the names that the switch lists.
Unlisted : Bytes → Type 0
Unlisted m =
    (beq m (codes "initialize") ≡ false)
    × (beq m (codes "initialized") ≡ false)
    × (beq m (codes "shutdown") ≡ false)
    × (beq m (codes "exit") ≡ false)
    × (beq m (codes "$/cancelRequest") ≡ false)
    × (is_feature m ≡ false)

listed_as : (m name : Bytes) → Unlisted name → beq m name ≡ true → Unlisted m
listed_as m name u e = subst Unlisted (sym (beq→eq m name e)) u

opened_Unlisted : Unlisted (codes "textDocument/didOpen")
unfolding Unlisted is_feature beq
opened_Unlisted = (refl, refl, refl, refl, refl, refl)

changed_Unlisted : Unlisted (codes "textDocument/didChange")
unfolding Unlisted is_feature beq
changed_Unlisted = (refl, refl, refl, refl, refl, refl)

closed_Unlisted : Unlisted (codes "textDocument/didClose")
unfolding Unlisted is_feature beq
closed_Unlisted = (refl, refl, refl, refl, refl, refl)

saved_Unlisted : Unlisted (codes "textDocument/didSave")
unfolding Unlisted is_feature beq
saved_Unlisted = (refl, refl, refl, refl, refl, refl)

file_system-Unlisted : (m : Bytes) → is_file_system_request m ≡ true → Unlisted m
unfolding is_file_system_request
file_system-Unlisted m h = elim (||_elim (beq m (codes "textDocument/didOpen")) _ h) [
  | inl e ↦ listed_as m _ opened_Unlisted e
  | inr h' ↦ elim (||_elim (beq m (codes "textDocument/didChange")) _ h') [
    | inl e ↦ listed_as m _ changed_Unlisted e
    | inr h'' ↦ elim (||_elim (beq m (codes "textDocument/didClose")) _ h'') [
      | inl e ↦ listed_as m _ closed_Unlisted e
      | inr e ↦ listed_as m _ saved_Unlisted e
    ]
  ]
]

-- What a reply does to the caches.
abbrev pub IsFresh : (C : Caches) → LangHandler C → Bool → LangHandler C → Type 0
IsFresh C h changed h' =
    (h'.typecheck_cache
      ≡ (if changed then renewed C C.new_typecheck_cache h.typecheck_cache else h.typecheck_cache))
    × (h'.symbol_cache
        ≡ (if changed then renewed C C.new_symbol_cache h.symbol_cache else h.symbol_cache))
    × (h'.import_graph ≡ (if changed then none else h.import_graph))

module _ {C : Caches} {Raw V : Type 0} (env : Environment C Raw V) where
  handle-Unlisted :
      (s : Session C) (m : Bytes) (params : Option Raw)
      → Unlisted m
      → handle_method env s m params ≡ keep env s (handle_other env s.handler m params)
  unfolding handle_method Unlisted
  handle-Unlisted s m params u = simp (u.0, u.1, u.2, u.3, u.4, u.5)

  -- A running server hands every request to the switch.
  pub handle_running :
      (s : Session C) (r : Request Raw) (p : InitializeParams)
      → s.handler.init ≡ some p
      → s.handler.common.shutdown ≡ false
      → env.span_ok r ≡ true
      → handle env s r ≡ handle_tracked env s r
  unfolding handle handle_ready check_ready
  handle_running s r p i d ok_span = elim (Bool-cases (beq r.method (codes "initialize"))) [
    | inl e ↦ simp (e, d, ok_span)
    | inr e ↦ simp (e, i, d, ok_span)
  ]

  -- What the default case leaves, before the request is removed from the cancel manager.
  replied :
      (h : LangHandler C) (m : Bytes) (params : Option Raw) (x : Overlay × Reply)
      → is_file_system_request m ≡ true
      → handle_file_system_request env.parse_url env.fs env.json h.shared.overlay m params ≡ x
      → handle_other env h m params ≡ file_reply env h x
  unfolding handle_other
  replied h m params x f e = simp (f, e)

  -- The state that a file system request leaves, but for the cancel manager.
  pub tracked_reply :
      (s : Session C) (r : Request Raw) (x : Overlay × Reply)
      → is_file_system_request r.method ≡ true
      → handle_file_system_request env.parse_url env.fs env.json s.handler.shared.overlay r.method
          r.params
        ≡ x
      → (c : Option Cancel) × ((handle_tracked env s r).0.handler
          ≡ record (file_reply env
              (with_tracking env s (track env r s.handler.cancel)).handler
              x).0 { cancel = c })
  unfolding handle_tracked
  tracked_reply s r x f e = (
    _,
    ap
        (λ (y : Session C × Response env). record y.0.handler {
          cancel = untrack env r s.handler.cancel y.0.handler.cancel;
        })
        (handle-Unlisted (with_tracking env s (track env r s.handler.cancel)) r.method r.params
            (file_system-Unlisted r.method f)
          ∙ ap (keep env (with_tracking env s (track env r s.handler.cancel)))
              (replied _ r.method r.params x f e)),
  )

  overlay_of :
      (h : LangHandler C) (o : Overlay) (changed : Bool)
      → (if changed
          then reset_caches C (with_overlay env h o)
          else with_overlay env h o).shared.overlay
        ≡ o
  unfolding reset_caches
  overlay_of h o true = refl
  overlay_of h o false = refl

  file_reply-IsFresh :
      (h : LangHandler C) (o : Overlay) (uri : DocumentUri) (changed : Bool)
      (e : Option RequestError)
      → IsFresh C h changed (file_reply env h (o, returns uri changed e)).0
  unfolding reset_caches
  file_reply-IsFresh h o uri true e = (refl, refl, refl)
  file_reply-IsFresh h o uri false e = (refl, refl, refl)

  -- In a running server a textDocument/did* request leaves the overlay that
  -- handleFileSystemRequest computes; the flag of its reply says whether the file that it names
  -- reads otherwise than before, and if it does both caches are purged and the import graph is
  -- dropped, and if it does not all three are as they were.
  pub handle_file_system_caches :
      (s : Session C) (r : Request Raw) (p : InitializeParams) (o' : Overlay) (uri : DocumentUri)
      (changed : Bool) (e : Option RequestError)
      → s.handler.init ≡ some p
      → s.handler.common.shutdown ≡ false
      → env.span_ok r ≡ true
      → is_file_system_request r.method ≡ true
      → handle_file_system_request env.parse_url env.fs env.json s.handler.shared.overlay r.method
          r.params
        ≡ (o', returns uri changed e)
      → ((handle env s r).0.handler.shared.overlay ≡ o')
        × ((changed ≡ false) ↔ (
            read_file env.parse_url env.fs o' uri
            ≡ read_file env.parse_url env.fs s.handler.shared.overlay uri))
        × IsFresh C s.handler changed (handle env s r).0.handler
  handle_file_system_caches s r p o' uri changed e i d ok_span f q =
      let (c, t) = tracked_reply s r (o', returns uri changed e) f q in
      let left =
        ap (λ (y : Session C × Response env). y.0.handler) (handle_running s r p i d ok_span) ∙ t in
      let h : LangHandler C = (with_tracking env s (track env r s.handler.cancel)).handler in
      rw left (
        overlay_of h o' changed,
        handle_file_system_request_changed env.parse_url env.fs env.json s.handler.shared.overlay o'
            r.method r.params uri changed e q,
        file_reply-IsFresh h o' uri changed e,
      )
