-- ===== src/Overlay/Examples.antt =====
-- langserver/fs.go: the theorems on the overlay, applied to a document of two lines.
use go_langserver.Common.{
  Bytes, List, Option, [], arith, beq, codes, false, has_prefix, if◌then◌else◌, inr, leb, length,
  ltb, none, refl, some, trim_prefix, true, ◌+◌, ◌↔◌, ◌∷◌, ◌≡◌, ◌≢◌,
}
use go_langserver.Common.Int.{pos}
use go_langserver.Common.Result.{Result, ok, err}
use go_langserver.Lsp.{
  DocumentUri, Range, DidOpenTextDocumentParams, DidChangeTextDocumentParams,
  DidCloseTextDocumentParams,
}
use go_langserver.Util.{uri_to_path, is_uri}
use go_langserver.Position.{offset_for_position}
use go_langserver.Position.Offset.{newlines, trailing}
use go_langserver.Position.Examples.{two_lines, second_line}
use go_langserver.Overlay.{
  Files, Overlay, new_overlay, apply_change, get, out_of_range, uri_to_overlay_path, apply_changes,
  did_open, set,
}
use go_langserver.Overlay.Splice.{replaced, apply_change_range, apply_change_range_length}
use go_langserver.Overlay.AtEnd.{IsEnd, apply_change_at_end}
use go_langserver.Overlay.Changes.{
  Event, opened, changed, closed, run, doc_run, events_of, get-run, doc_step,
}
use go_langserver.Overlay.Request.{
  ReadError, not_exist, returns, Decoders, handle_file_system_request, file_path, read_file, run_op,
  conclude, changed_between,
}
use go_langserver.Overlay.Request.Changed.{handle_file_system_request_changed}

abbrev middle : Range
middle = record { start = record { line = pos 0; character = pos 1 }; end = second_line }

start_found : offset_for_position two_lines middle.start ≡ ok 1
unfolding offset_for_position
start_found = refl

end_found : offset_for_position two_lines middle.end ≡ ok 4
unfolding offset_for_position
end_found = refl

apply_change_range_example :
    apply_change two_lines (record { range = some middle; range_length = 0; text = codes "x" })
    ≡ (if leb 1 4 then ok (replaced two_lines 1 4 (codes "x")) else err (out_of_range middle))
apply_change_range_example =
    apply_change_range two_lines (codes "x") middle 1 4 start_found end_found

apply_change_range_length_example :
    apply_change two_lines (record { range = some middle; range_length = 2; text = codes "x" }) ≡ (
      if ltb (1 + 2) (length two_lines)
      then ok (replaced two_lines 1 (1 + 2) (codes "x"))
      else err (out_of_range middle))
apply_change_range_length_example =
    apply_change_range_length two_lines (codes "x") middle 1 2 (omega arith) (omega arith)
      (omega arith) start_found

accepted :
    apply_change two_lines (record { range = some middle; range_length = 0; text = codes "x" })
    ≡ ok (97 ∷ 120 ∷ 100 ∷ [])
unfolding apply_change offset_for_position
accepted = refl

abbrev to_end : Range
to_end = record { start = second_line; end = record { line = pos 1; character = pos 2 } }

at_end : IsEnd two_lines to_end.end
unfolding newlines trailing
at_end = (refl, refl)

apply_change_at_end_example :
    apply_change two_lines (record { range = some to_end; range_length = 0; text = codes "x" })
    ≢ ok (97 ∷ 98 ∷ 10 ∷ 99 ∷ 120 ∷ [])
apply_change_at_end_example =
    apply_change_at_end two_lines (codes "x") (97 ∷ 98 ∷ 10 ∷ 99 ∷ 120 ∷ []) to_end 0
      (inr (at_end, refl))

-- A url.Parse for URIs without escapes, and a file system that has only the overlay.
abbrev pub plain_url : Bytes → Option Bytes
plain_url uri = some (trim_prefix uri (codes "file://"))

abbrev pub found_or : Option Bytes → Result ReadError Bytes
found_or none = err not_exist
found_or (some contents) = ok contents

abbrev pub only_overlay : Files → Bytes → Result ReadError Bytes
only_overlay m path = found_or (m (trim_prefix path (codes "/")))

abbrev pub main_go : DocumentUri
main_go = codes "file:///main.go"

abbrev pub open_main : DidOpenTextDocumentParams
open_main = record { uri = main_go; text = two_lines }

abbrev pub change_main : DidChangeTextDocumentParams
change_main = record {
  uri = main_go;
  content_changes = record { range = some middle; range_length = 0; text = codes "x" } ∷ [];
}

abbrev close_other : DidCloseTextDocumentParams
close_other = record { uri = codes "file:///other.go" }

abbrev history : List Event
history = opened open_main ∷ changed change_main ∷ closed close_other ∷ []

get-run_example :
    get plain_url (run plain_url new_overlay history) main_go
    ≡ doc_run (get plain_url new_overlay main_go) (events_of plain_url main_go history)
get-run_example = get-run plain_url history new_overlay main_go

pub main_path : file_path plain_url only_overlay main_go ≡ some (codes "/main.go")
unfolding file_path uri_to_path trim_prefix has_prefix
main_path = refl

main_text :
    doc_run (get plain_url new_overlay main_go) (events_of plain_url main_go history)
    ≡ some (97 ∷ 120 ∷ 100 ∷ [])
unfolding get doc_run doc_step events_of uri_to_overlay_path new_overlay beq is_uri uri_to_path
    trim_prefix has_prefix apply_changes offset_for_position
main_text = refl

read_overlay :
    (m : Files) (path contents : Bytes)
    → m (trim_prefix path (codes "/")) ≡ some contents
    → only_overlay m path ≡ ok contents
read_overlay m path contents h = rw h

-- Decoders for parameters that are decoded already.
abbrev opened_params : Event → Option DidOpenTextDocumentParams
opened_params (opened p) = some p
opened_params (changed p) = none
opened_params (closed p) = none

abbrev changed_params : Event → Option DidChangeTextDocumentParams
changed_params (opened p) = none
changed_params (changed p) = some p
changed_params (closed p) = none

abbrev closed_params : Event → Option DidCloseTextDocumentParams
closed_params (opened p) = none
closed_params (changed p) = none
closed_params (closed p) = some p

abbrev pub plain_json : Decoders Event
plain_json = record {
  open_params = opened_params;
  change_params = changed_params;
  close_params = closed_params;
}

abbrev pub after_open : Overlay
after_open =
    (handle_file_system_request plain_url only_overlay plain_json new_overlay
      (codes "textDocument/didOpen") (some (opened open_main))).0

pub open_reply :
    handle_file_system_request plain_url only_overlay plain_json new_overlay
      (codes "textDocument/didOpen")
      (some (opened open_main))
    ≡ (after_open, returns main_go true none)
unfolding handle_file_system_request run_op read_file conclude changed_between new_overlay get
    did_open set uri_to_overlay_path beq is_uri uri_to_path trim_prefix has_prefix file_path
open_reply = refl

handle_file_system_request_changed_example : (true ≡ false) ↔ (
    read_file plain_url only_overlay after_open main_go
    ≡ read_file plain_url only_overlay new_overlay main_go)
handle_file_system_request_changed_example =
    handle_file_system_request_changed plain_url only_overlay plain_json new_overlay after_open
      (codes "textDocument/didOpen") (some (opened open_main)) main_go true none open_reply
