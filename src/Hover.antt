-- ===== src/Hover.antt =====
-- langserver/hover.go: the parts of a hover text. The
-- conversion of a comment to Markdown, ToMarkdown, is a parameter. A syntax tree of a file is its
-- package name with the identity of that node, and the text of its doc comment.
pub mod Godef
pub mod Pretty
pub mod Ink
pub mod Target
pub mod Object
pub mod Handle
pub mod Examples
use go_langserver.Lsp.{MarkedString, raw_marked_string}
use go_langserver.Common.{
  Bytes, List, [], beq, codes, false, if◌then◌else◌, not, ℕ, ◌&&◌, ◌++◌, ◌==◌, ◌∷◌,
}
use go_langserver.Common.Words.{trim_space}

-- lsp.MarkedString{Language: "go", Value: s}
abbrev pub go_string : Bytes → MarkedString
go_string s = record { language = codes "go"; value = s; is_raw_string = false }

pub record AstFile : Type 0 where
  pub name_node : ℕ
  pub name : Bytes
  pub doc_text : Bytes

-- The name of the identifier `node` if it is the package statement of one of the files.
unfoldable pub package_statement_name : List AstFile → ℕ → Bytes → Bytes
package_statement_name [] node name = []
package_statement_name (f ∷ fs) node name =
    if f.name_node == node then name else package_statement_name fs node name

unfoldable pub maybe_add_comments : (Bytes → Bytes) → Bytes → List MarkedString → List MarkedString
unfolding raw_marked_string
maybe_add_comments to_markdown comments contents =
    if beq comments [] then contents else contents ++ raw_marked_string (to_markdown comments) ∷ []

unfoldable pub package_doc : List AstFile → Bytes → Bytes
package_doc [] pkg_name = []
package_doc (f ∷ fs) pkg_name =
    if beq f.name pkg_name && not (beq (trim_space f.doc_text) [])
    then f.doc_text
    else package_doc fs pkg_name

-- The texts of the comment groups.
unfoldable pub comments_to_text : List Bytes → Bytes
comments_to_text [] = []
comments_to_text (c ∷ cs) = (if not (beq (trim_space c) []) then c else []) ++ comments_to_text cs
