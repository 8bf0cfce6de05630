-- ===== src/Format.antt =====
-- langserver/format.go: textDocument/formatting. Parsing, the sorting of imports and printing are the
-- parameter `format`, from the path of a file to its text.
pub mod Edits
pub mod Examples
use go_langserver.Util.{is_uri}
use go_langserver.Overlay.{Files, Overlay}
use go_langserver.Overlay.Request.{ReadError, file_path, read_file}
use go_langserver.Common.Result.{Result, ok, err, panics}
use go_langserver.Common.Int.{ℤ, pos, negsuc, ◌-ℤ◌}
use go_langserver.Lsp.{Position, Range, TextEdit, DocumentUri}
use go_langserver.Common.{
  Bytes, List, Option, [], beq, if◌then◌else◌, length, none, not, some, suc, ℕ, ◌==◌, ◌∷◌,
}

pub data FormatError : Type 0 where
  out_of_workspace : DocumentUri → FormatError
  format_error : ℕ → FormatError
  file_error : ReadError → FormatError

-- bytes.Count(orig, []byte("\n"))
unfoldable pub count_lines : Bytes → ℕ
count_lines [] = 0
count_lines (c ∷ s) = let rest = count_lines s in if c == b'\n' then suc rest else rest

-- bytes.LastIndexByte(s, '\n') where s stands at the index i
unfoldable pub last_index_from : ℕ → Bytes → ℤ
last_index_from i [] = negsuc 0
last_index_from i (c ∷ s) = elim (last_index_from (suc i) s) [
  | pos k ↦ pos k
  | negsuc k ↦ if c == b'\n' then pos i else negsuc 0
]

unfoldable pub zero_position : Position
zero_position = record { line = pos 0; character = pos 0 }

-- The two edits: the whole text is deleted, then the new one inserted.
unfoldable pub format_edits : Bytes → Bytes → List TextEdit
unfolding count_lines last_index_from zero_position ◌-ℤ◌
format_edits b orig =
    if beq b orig
    then []
    else (record {
      range = record {
        start = zero_position;
        end = record {
          line = pos (count_lines orig);
          character = pos (length orig) -ℤ last_index_from 0 orig -ℤ pos 1;
        };
      };
      new_text = [];
    }
        ∷ record { range = record { start = zero_position; end = zero_position }; new_text = b }
        ∷ [])

module _ (parse_url : Bytes → Option Bytes) (fs : Files → Bytes → Result ReadError Bytes) where
  unfoldable pub handle_text_document_formatting :
      (Overlay → Bytes → Result ℕ Bytes)
      → Overlay
      → DocumentUri
      → Result FormatError (List TextEdit)
  unfolding file_path read_file format_edits
  handle_text_document_formatting format o uri =
      if not (is_uri uri) then err (out_of_workspace uri) else elim (file_path parse_url fs uri) [
        | none ↦ panics
        | some filename ↦ elim (format o filename) [
          | panics ↦ panics
          | err e ↦ err (format_error e)
          | ok b ↦ elim (read_file parse_url fs o uri) [
            | panics ↦ panics
            | err e ↦ err (file_error e)
            | ok orig ↦ ok (format_edits b orig)
          ]
        ]
      ]
