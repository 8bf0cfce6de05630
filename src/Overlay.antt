-- ===== src/Overlay.antt =====
-- langserver/fs.go: the overlay of unsaved documents and the requests that change it. The map is a
-- function from overlay paths to contents; its mutex makes each access one step. `url.Parse` is the
-- parameter `parse_url` of Util.
pub mod Splice
pub mod AtEnd
pub mod Changes
pub mod Request
pub mod Examples
use go_langserver.Common.{
  Bytes, List, Option, [], beq, codes, drop, if◌then◌else◌, length, none, not, some, take,
  trim_prefix, ℕ, ◌++◌, ◌+◌, ◌==◌, ◌||◌, ◌∷◌,
}
use go_langserver.Common.Int.{ℤ, pos, negsuc, to_int64, ltb_ℤ, pos_part}
use go_langserver.Common.Result.{Result, ok, err, panics, ◌>>=◌}
use go_langserver.Lsp.{
  Position, Range, DocumentUri, TextDocumentContentChangeEvent, DidOpenTextDocumentParams,
  DidChangeTextDocumentParams, DidCloseTextDocumentParams,
}
use go_langserver.Position.{WhyInvalid, offset_for_position}
use go_langserver.Util.{is_uri, uri_to_path}

-- The errors of didChange; the texts of the last two also print the URI of the file.
pub data ChangeError : Type 0 where
  unknown_file : DocumentUri → ChangeError
  invalid_position : Position → WhyInvalid → ChangeError
  out_of_range : Range → ChangeError

abbrev pub Files : Type 0
Files = Bytes → Option Bytes

pub record Overlay : Type 0 where
  pub m : Files

unfoldable pub new_overlay : Overlay
new_overlay = record { m = λ path. none }

unfoldable pub uri_to_overlay_path : (Bytes → Option Bytes) → DocumentUri → Bytes
uri_to_overlay_path parse_url uri =
    if is_uri uri then trim_prefix (uri_to_path parse_url uri) (codes "/") else uri

-- `offsetForPosition`, with the error of didChange that names the start of the range
unfoldable pub locate : Bytes → Position → Position → Result ChangeError ℕ
locate contents start p = elim (offset_for_position contents p) [
  | ok offset ↦ ok offset
  | err why ↦ err (invalid_position start why)
  | panics ↦ panics
]

-- The end of the replaced part: `start + int(change.RangeLength)` in 64 bits, or the offset of
-- `change.Range.End`.
unfoldable pub change_end : Bytes → Range → ℕ → ℕ → Result ChangeError ℤ
unfolding locate
change_end contents range start range_length =
    if not (range_length == 0)
    then ok (to_int64 (start + range_length))
    else (locate contents range.start range.end >>= λ offset. ok (pos offset))

-- `contents[:start] + change.Text + contents[end:]`, behind the test of the bounds
unfoldable pub splice : Bytes → Range → ℕ → ℤ → Bytes → Result ChangeError Bytes
splice contents range start end text =
    if not (ltb_ℤ end (pos (length contents))) || ltb_ℤ end (pos start)
    then err (out_of_range range)
    else ok (take start contents ++ (text ++ drop (pos_part end) contents))

-- One round of the loop of didChange. A nil range with a length is a nil dereference.
unfoldable pub apply_change : Bytes → TextDocumentContentChangeEvent → Result ChangeError Bytes
unfolding locate change_end splice
apply_change contents change = elim change.range [
  | none ↦ if change.range_length == 0 then ok change.text else panics
  | some range ↦ do
    start ← locate contents range.start range.start
    end ← change_end contents range start change.range_length
    splice contents range start end change.text
]

unfoldable pub apply_changes :
    Bytes → List TextDocumentContentChangeEvent → Result ChangeError Bytes
unfolding apply_change
apply_changes contents [] = ok contents
apply_changes contents (change ∷ changes) = do
  contents' ← apply_change contents change
  apply_changes contents' changes

module _ (parse_url : Bytes → Option Bytes) where
  unfoldable pub get : Overlay → DocumentUri → Option Bytes
  get o uri = o.m (uri_to_overlay_path parse_url uri)

  unfoldable pub set : Overlay → DocumentUri → Bytes → Overlay
  set o uri contents = record {
    m = λ path. if beq (uri_to_overlay_path parse_url uri) path then some contents else o.m path;
  }

  unfoldable pub del : Overlay → DocumentUri → Overlay
  del o uri = record {
    m = λ path. if beq (uri_to_overlay_path parse_url uri) path then none else o.m path;
  }

  unfoldable pub did_open : Overlay → DidOpenTextDocumentParams → Overlay
  unfolding set
  did_open o params = set o params.uri params.text

  unfoldable pub did_close : Overlay → DidCloseTextDocumentParams → Overlay
  unfolding del
  did_close o params = del o params.uri

  -- The map is written once, after the last change, if every change is accepted.
  unfoldable pub did_change :
      Overlay → DidChangeTextDocumentParams → Overlay × Result ChangeError (Unit {0})
  unfolding get set
  did_change o params = elim (get o params.uri) [
    | none ↦ (o, err (unknown_file params.uri))
    | some contents ↦ elim (apply_changes contents params.content_changes) [
      | ok contents' ↦ (set o params.uri contents', ok tt)
      | err e ↦ (o, err e)
      | panics ↦ (o, panics)
    ]
  ]
