-- ===== src/Hover/Examples.antt =====
-- langserver/hover.go: a struct and a package that are shown.
use go_langserver.Hover.Pretty.{pretty_print_types_string}
use go_langserver.Hover.Ink.{ink, pretty_print_types_string-ink}
use go_langserver.Common.Words.{trim_space}
use go_langserver.Hover.{go_string, maybe_add_comments, package_doc}
use go_langserver.Hover.Godef.{ParsedPackage, hover_package, package_for_file}
use go_langserver.Util.{other}
use go_langserver.Lsp.{raw_marked_string}
use go_langserver.Common.Result.{ok}
use go_langserver.Common.{
  Bytes, [], beq, codes, has_suffix, if◌then◌else◌, inr, none, refl, some, ◌∷◌, ◌≡◌,
}

abbrev struct_text : Bytes
struct_text = codes "struct{A int; B bool}"

pretty_print_types_string-ink_example :
    ink (pretty_print_types_string struct_text)
    ≡ (if has_suffix struct_text (codes "{}") then [] else ink struct_text)
pretty_print_types_string-ink_example = pretty_print_types_string-ink struct_text refl

-- A directory that parses to one package with one file, which has a comment.
abbrev lone_package : ParsedPackage
lone_package = record {
  key = codes "a";
  files =
      (codes "/a/a.go", record { name_node = 1; name = codes "a"; doc_text = codes "A does." })
      ∷ [];
  doc = λ path. record { consts = []; types = []; vars = []; funcs = [] };
}

lone_package_shown :
    hover_package other
      (λ s. none)
      (λ s. s)
      (λ s. s)
      (λ s. s)
      (λ dir. inr (codes "a", codes "x/a"))
      (λ dir. inr (lone_package ∷ []))
      (codes "/a")
    ≡ ok (go_string (codes "package a (x/a)") ∷ raw_marked_string (codes "A does.") ∷ [])
unfolding hover_package maybe_add_comments package_doc beq trim_space
lone_package_shown = refl

lone_file_found :
    package_for_file (lone_package ∷ []) (codes "/a/a.go") ≡ some (codes "a", lone_package)
unfolding package_for_file beq
lone_file_found = refl
