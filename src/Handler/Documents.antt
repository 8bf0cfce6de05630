-- ===== src/Handler/Documents.antt =====
-- langserver/handler.go and fs.go together: a running server that handles the notifications about
-- documents one after the other, as lspHandler.Handle makes it do.
use go_langserver.Common.{All, List, [], ap, beq, false, map, refl, some, true, ◌∙◌, ◌∷◌, ◌≡◌}
use go_langserver.Lsp.{InitializeParams, RequestId}
use go_langserver.Overlay.{Overlay}
use go_langserver.Overlay.Changes.{Event, opened, changed, closed, event_uri, handle_event, run}
use go_langserver.Overlay.Request.{
  Reply, returns, panicked, is_file_system_request, handle_file_system_request, read_file,
}
use go_langserver.Overlay.Request.Events.{
  method_of, IsReadable, Decodes, handle_file_system_request-overlay,
}
use go_langserver.Handler.State.{Caches, LangHandler, HandlerCommon, reset_caches}
use go_langserver.Handler.Dispatch.{
  Environment, Session, Request, Response, handle, file_reply, track, with_tracking,
}
use go_langserver.Handler.Freshness.{handle_running, tracked_reply}

-- The notification as it arrives.
abbrev pub notification : {Raw : Type 0} → (Event → Raw) → RequestId → Event → Request Raw
notification encode id e = record {
  method = method_of e;
  params = some (encode e);
  id = id;
  notif = true;
}

method_of-is_file_system_request : (e : Event) → is_file_system_request (method_of e) ≡ true
unfolding method_of is_file_system_request beq
method_of-is_file_system_request (opened p) = refl
method_of-is_file_system_request (changed p) = refl
method_of-is_file_system_request (closed p) = refl

module _ {C : Caches} {Raw V : Type 0} (env : Environment C Raw V) where
  unfoldable pub handle_all : Session C → List (Request Raw) → Session C
  handle_all s [] = s
  handle_all s (r ∷ rs) = handle_all (handle env s r).0 rs

  -- A file system reply sets the overlay, and starts or stops nothing.
  file_reply_kept :
      (h : LangHandler C) (x : Overlay × Reply)
      → ((file_reply env h x).0.shared.overlay ≡ x.0)
        × ((file_reply env h x).0.init ≡ h.init)
        × ((file_reply env h x).0.common ≡ h.common)
  unfolding reset_caches
  file_reply_kept h (o, panicked) = (refl, refl, refl)
  file_reply_kept h (o, returns uri true e) = (refl, refl, refl)
  file_reply_kept h (o, returns uri false e) = (refl, refl, refl)

  module _ (encode : Event → Raw) (id : RequestId) where
    -- The file of a document can be read or does not exist, whatever the overlay holds.
    abbrev pub AllReadable : List Event → Type 0
    AllReadable =
        All (λ e. (o : Overlay) → IsReadable (read_file env.parse_url env.fs o (event_uri e)))

    handle-notification :
        (s : Session C) (p : InitializeParams) (e : Event)
        → Decodes env.json encode
        → s.handler.init ≡ some p
        → s.handler.common.shutdown ≡ false
        → env.span_ok (notification encode id e) ≡ true
        → ((o : Overlay) → IsReadable (read_file env.parse_url env.fs o (event_uri e)))
        → ((handle env s (notification encode id e)).0.handler.shared.overlay
            ≡ handle_event env.parse_url s.handler.shared.overlay e)
          × ((handle env s (notification encode id e)).0.handler.init ≡ some p)
          × ((handle env s (notification encode id e)).0.handler.common.shutdown ≡ false)
    handle-notification s p e d i down span h =
        let r : Request Raw = notification encode id e in
        let o = s.handler.shared.overlay in
        let x = handle_file_system_request env.parse_url env.fs env.json o r.method r.params in
        let (c, t) = tracked_reply env s r x (method_of-is_file_system_request e) refl in
        let left =
          ap (λ (y : Session C × Response env). y.0.handler) (handle_running env s r p i down span)
          ∙ t in
        let before : LangHandler C = (with_tracking env s (track env r s.handler.cancel)).handler in
        let (k, ki, kc) = file_reply_kept before x in
        rw left (
          k ∙ handle_file_system_request-overlay env.parse_url env.fs env.json encode d o e (h o),
          ki ∙ i,
          ap (λ (y : HandlerCommon). y.shutdown) kc ∙ down,
        )

    -- In a running server, after the notifications of a list of events have been handled one after
    -- the other, the overlay is what the events make of the one before, where each decodes, gets a
    -- span and has a file that reads or does not exist; and the server is still initialized and not
    -- shut down.
    pub handle_all-run :
        (s : Session C) (p : InitializeParams) (es : List Event)
        → Decodes env.json encode
        → s.handler.init ≡ some p
        → s.handler.common.shutdown ≡ false
        → ((r : Request Raw) → env.span_ok r ≡ true)
        → AllReadable es
        → ((handle_all s (map (notification encode id) es)).handler.shared.overlay
            ≡ run env.parse_url s.handler.shared.overlay es)
          × ((handle_all s (map (notification encode id) es)).handler.init ≡ some p)
          × ((handle_all s (map (notification encode id) es)).handler.common.shutdown ≡ false)
    unfolding handle_all run
    handle_all-run s p [] d i down span h = (refl, i, down)
    handle_all-run s p (e ∷ es) d i down span (h, hs) =
        let (a, i', down') = handle-notification s p e d i down (span _) h in
        let (b, i'', down'') =
          handle_all-run (handle env s (notification encode id e)).0 p es d i' down' span hs in
        (b ∙ ap (λ (o : Overlay). run env.parse_url o es) a, i'', down'')
