-- ===== src/Overlay/Changes.antt =====
-- langserver/fs.go: didOpen, didChange and didClose as operations on the documents.
use go_langserver.Common.{
  Bool, Bool-cases, Bytes, List, Option, Option-cases, [], ap, arith, beq, beq→eq, if◌then◌else◌,
  inl, inr, none, refl, some, true, ◌∷◌, ◌≡◌,
}
use go_langserver.Common.Result.{panics, ok, err}
use go_langserver.Lsp.{
  DocumentUri, TextDocumentContentChangeEvent, DidOpenTextDocumentParams,
  DidChangeTextDocumentParams, DidCloseTextDocumentParams,
}
use go_langserver.Overlay.{
  Overlay, apply_changes, uri_to_overlay_path, get, did_open, did_close, did_change, set,
}

-- A notification of the client about one document.
pub data Event : Type 0 where
  opened : DidOpenTextDocumentParams → Event
  changed : DidChangeTextDocumentParams → Event
  closed : DidCloseTextDocumentParams → Event

abbrev pub event_uri : Event → DocumentUri
event_uri (opened params) = params.uri
event_uri (changed params) = params.uri
event_uri (closed params) = params.uri

-- What a notification does to its own document: a change that is refused leaves it as it was.
changed_doc : Bytes → List TextDocumentContentChangeEvent → Bytes
changed_doc contents changes = elim (apply_changes contents changes) [
  | ok after ↦ after
  | err e ↦ contents
  | panics ↦ contents
]

unfoldable pub doc_step : Option Bytes → Event → Option Bytes
unfolding changed_doc
doc_step doc (opened params) = some params.text
doc_step doc (closed params) = none
doc_step none (changed params) = none
doc_step (some contents) (changed params) = some (changed_doc contents params.content_changes)

unfoldable pub doc_run : Option Bytes → List Event → Option Bytes
unfolding doc_step
doc_run doc [] = doc
doc_run doc (e ∷ es) = doc_run (doc_step doc e) es

module _ (parse_url : Bytes → Option Bytes) where
  abbrev pub same_path : DocumentUri → DocumentUri → Bool
  same_path a b = beq (uri_to_overlay_path parse_url a) (uri_to_overlay_path parse_url b)

  unfoldable pub handle_event : Overlay → Event → Overlay
  handle_event o (opened params) = did_open parse_url o params
  handle_event o (changed params) = (did_change parse_url o params).0
  handle_event o (closed params) = did_close parse_url o params

  -- The notifications are handled in the order in which they arrive.
  unfoldable pub run : Overlay → List Event → Overlay
  run o [] = o
  run o (e ∷ es) = run (handle_event o e) es

  -- The notifications about the documents that share a URI's path.
  unfoldable pub events_of : DocumentUri → List Event → List Event
  events_of uri [] = []
  events_of uri (e ∷ es) =
      let rest = events_of uri es in if same_path (event_uri e) uri then e ∷ rest else rest

  get-set :
      (o : Overlay) (uri other : DocumentUri) (text : Bytes)
      → get parse_url (set parse_url o uri text) other
        ≡ (if same_path uri other then some text else get parse_url o other)
  unfolding get set
  get-set o uri other text = refl

  get-same :
      (o : Overlay) (uri other : DocumentUri)
      → same_path uri other ≡ true
      → get parse_url o uri ≡ get parse_url o other
  unfolding get
  get-same o uri other h = ap o.m (beq→eq _ _ h)

  -- One notification steps its own document and leaves the others alone.
  get-handle_event :
      (o : Overlay) (e : Event) (other : DocumentUri)
      → get parse_url (handle_event o e) other ≡ (
          if same_path (event_uri e) other
          then doc_step (get parse_url o other) e
          else get parse_url o other)
  unfolding handle_event
  get-handle_event o (opened params) other = unfold get did_open doc_step in refl
  get-handle_event o (closed params) other = unfold get did_close doc_step in refl
  get-handle_event o (changed params) other =
      unfold did_change doc_step changed_doc in
      ground (
        arith,
        get-set o params.uri other,
        get-same o params.uri other,
        Option-cases (get parse_url o params.uri),
      )

  -- Each document sees only its own notifications: after any sequence of them the text of a URI is
  -- what the notifications about its path, in their order, make of the text it had before.
  pub get-run :
      (es : List Event) (o : Overlay) (uri : DocumentUri)
      → get parse_url (run o es) uri ≡ doc_run (get parse_url o uri) (events_of uri es)
  unfolding run doc_run events_of
  get-run [] o uri = refl
  get-run (e ∷ es) o uri = elim (Bool-cases (same_path (event_uri e) uri)) [
    | inl s ↦ rw (s, get-run es (handle_event o e) uri, get-handle_event o e uri) (rw s)
    | inr s ↦ rw (s, get-run es (handle_event o e) uri, get-handle_event o e uri) (rw s)
  ]
