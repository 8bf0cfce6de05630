-- ===== src/Overlay/Request/Events.antt =====
-- langserver/fs.go: a did* request as the notification that it carries.
use go_langserver.Common.{Bytes, Option, beq, codes, refl, some, ◌≡◌}
use go_langserver.Common.Result.{Result, ok, err, panics}
use go_langserver.Lsp.{DocumentUri}
use go_langserver.Overlay.{Files, Overlay, ChangeError}
use go_langserver.Overlay.Changes.{Event, opened, changed, closed, event_uri, handle_event}
use go_langserver.Overlay.Request.{
  ReadError, not_exist, unreadable, conclude, decoded, finish, read_file, run_op, Decoders,
  handle_file_system_request,
}

unfoldable pub method_of : Event → Bytes
method_of (opened params) = codes "textDocument/didOpen"
method_of (changed params) = codes "textDocument/didChange"
method_of (closed params) = codes "textDocument/didClose"

-- The file of a document can be read, or does not exist.
abbrev pub IsReadable : Result ReadError Bytes → Type 0
IsReadable (ok contents) = Unit
IsReadable (err not_exist) = Unit
IsReadable (err unreadable) = ⊥
IsReadable panics = ⊥

-- Decoding gives back what was encoded.
pub record Decodes {Raw : Type 0} (json : Decoders Raw) (encode : Event → Raw) : Type 0 where
  pub open_decodes : (p : _) → json.open_params (encode (opened p)) ≡ some p
  pub change_decodes : (p : _) → json.change_params (encode (changed p)) ≡ some p
  pub close_decodes : (p : _) → json.close_params (encode (closed p)) ≡ some p

conclude-overlay :
    (before after : Result ReadError Bytes) (uri : DocumentUri) (o : Overlay)
    (r : Result ChangeError (Unit {0}))
    → (conclude before after uri o r).0 ≡ o
unfolding conclude
conclude-overlay before after uri o panics = refl
conclude-overlay before panics uri o (ok u) = refl
conclude-overlay before panics uri o (err e) = refl
conclude-overlay before (ok a) uri o (ok u) = refl
conclude-overlay before (ok a) uri o (err e) = refl
conclude-overlay before (err x) uri o (ok u) = refl
conclude-overlay before (err x) uri o (err e) = refl

module _ (parse_url : Bytes → Option Bytes) (fs : Files → Bytes → Result ReadError Bytes) where
  run_op-overlay :
      (o : Overlay) (uri : DocumentUri) (op : Overlay → Overlay × Result ChangeError (Unit {0}))
      → IsReadable (read_file parse_url fs o uri)
      → (run_op parse_url fs o uri op).0 ≡ (op o).0
  run_op-overlay o uri op = from (read_file parse_url fs o uri) refl
    where
      from :
          (before : Result ReadError Bytes)
          → read_file parse_url fs o uri ≡ before
          → IsReadable before
          → (run_op parse_url fs o uri op).0 ≡ (op o).0
      from panics e h = absurd h
      from (err unreadable) e h = absurd h
      from (err not_exist) e h =
          unfold run_op finish in
          rw (e, run_op) (conclude-overlay (err not_exist) _ uri (op o).0 (op o).1)
      from (ok b) e h =
          unfold run_op finish in rw (e, run_op) (conclude-overlay (ok b) _ uri (op o).0 (op o).1)

  module _ {Raw : Type 0} (json : Decoders Raw) (encode : Event → Raw) where
    -- Where the file of its document can be read or does not exist, a request does to the overlay what
    -- the notification that it carries does.
    pub handle_file_system_request-overlay :
        Decodes json encode
        → (o : Overlay) (e : Event) → IsReadable (read_file parse_url fs o (event_uri e))
        → (handle_file_system_request parse_url fs json o (method_of e) (some (encode e))).0
          ≡ handle_event parse_url o e
    unfolding handle_file_system_request method_of handle_event beq
    handle_file_system_request-overlay d o (opened p) h =
        rw (d.open_decodes p, decoded) (run_op-overlay o p.uri _ h)
    handle_file_system_request-overlay d o (changed p) h =
        rw (d.change_decodes p, decoded) (run_op-overlay o p.uri _ h)
    handle_file_system_request-overlay d o (closed p) h =
        rw (d.close_decodes p, decoded) (run_op-overlay o p.uri _ h)
