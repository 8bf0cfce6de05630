-- ===== src/Hover/Godef.antt =====
-- langserver/hover.go: handleHoverGodef and packageForFile, the hover with the binary package cache. The
-- import and the parsing of a directory, doc.New, fmtDocObject, quoting and ToMarkdown are parameters.
use go_langserver.Definition.{
  GodefResult, GodefError, godef_package, godef_found, no_identifier_found,
}
use go_langserver.Position.Ranges.{LinePosition, go_range_to_lsp_location}
use go_langserver.Hover.{AstFile, MarkedString, package_doc, maybe_add_comments, go_string}
use go_langserver.Hover.Target.{TokenPosition, DocPackage, DocObject, find_doc_target}
use go_langserver.Util.{Os, uri_to_real_path}
use go_langserver.Common.Result.{Result, ok, err, panics}
use go_langserver.Common.{
  Bool, Bytes, List, Option, [], beq, codes, false, if◌then◌else◌, inl, inr, map, none, some, ℕ,
  ◌++◌, ◌||◌, ◌∷◌, ◌⊎◌,
}

-- An ast.Package of a directory: the key of the map, its files by their names, and what doc.New makes of
-- it under an import path.
pub record ParsedPackage : Type 0 where
  pub key : Bytes
  pub files : List (Bytes × AstFile)
  pub doc : Bytes → DocPackage

pub data GodefHoverError : Type 0 where
  definition_failed : GodefError → GodefHoverError
  import_dir_failed parse_dir_failed : ℕ → GodefHoverError
  file_not_in_packages doc_object_not_found : Bytes → GodefHoverError

abbrev pub has_file : List (Bytes × AstFile) → Bytes → Bool
has_file [] filename = false
has_file ((f, file) ∷ files) filename = beq f filename || has_file files filename

unfoldable pub package_for_file : List ParsedPackage → Bytes → Option (Bytes × ParsedPackage)
package_for_file [] filename = none
package_for_file (p ∷ ps) filename =
    let rest = package_for_file ps filename in
    if has_file p.files filename then some (p.key, p) else rest

-- `pkgs[bpkg.Name]`
abbrev pub package_named : List ParsedPackage → Bytes → Option ParsedPackage
package_named [] name = none
package_named (p ∷ ps) name = if beq p.key name then some p else package_named ps name

module _ (os : Os) (parse_url : Bytes → Option Bytes) (to_markdown quote dir_of : Bytes → Bytes)
    (import_dir : Bytes → ℕ ⊎ (Bytes × Bytes)) (parse_dir : Bytes → ℕ ⊎ List ParsedPackage) where
  -- The hover over a package: its name and import path, and its comment. The directory may hold no
  -- package of that name, which panics.
  unfoldable pub hover_package : Bytes → Result GodefHoverError (List MarkedString)
  unfolding maybe_add_comments package_doc
  hover_package dir = elim (import_dir dir) [
    | inl e ↦ err (import_dir_failed e)
    | inr (name, import_path) ↦ elim (parse_dir dir) [
      | inl e ↦ err (parse_dir_failed e)
      | inr pkgs ↦ elim (package_named pkgs name) [
        | none ↦ panics
        | some pkg ↦ ok (
            maybe_add_comments to_markdown
              (package_doc (map (λ (f : Bytes × AstFile). f.1) pkg.files) name)
              (go_string
                  (codes "package " ++ (name ++ (codes " (" ++ (quote import_path ++ codes ")"))))
                ∷ []))
      ]
    ]
  ]

  module _ (fset : ℕ → LinePosition) (token_position : ℕ → TokenPosition)
      (fmt_doc_object : DocObject → TokenPosition → Option (List MarkedString)) where
    -- The hover over a definition.
    unfoldable pub hover_definition : ℕ → ℕ → Result GodefHoverError (List MarkedString)
    unfolding go_range_to_lsp_location uri_to_real_path package_for_file find_doc_target
    hover_definition start end =
        let loc = go_range_to_lsp_location fset os start end in
        let filename = uri_to_real_path os parse_url loc.uri in
        if beq loc.uri (codes "file://") then ok [] else elim (parse_dir (dir_of filename)) [
          | inl e ↦ err (parse_dir_failed e)
          | inr pkgs ↦ elim (package_for_file pkgs filename) [
            | none ↦ err (file_not_in_packages filename)
            | some (import_path, pkg) ↦
                elim (find_doc_target os (token_position start) (pkg.doc import_path)) [
                  | none ↦ err (doc_object_not_found filename)
                  | some object ↦ elim (fmt_doc_object object (token_position start)) [
                    | none ↦ panics
                    | some contents ↦ ok contents
                  ]
                ]
          ]
        ]

    -- `none` is no hover.
    unfoldable pub handle_hover_godef :
        Result GodefError GodefResult → Result GodefHoverError (Option (List MarkedString))
    unfolding hover_package hover_definition
    handle_hover_godef definition = elim definition [
      | panics ↦ panics
      | err no_identifier_found ↦ ok none
      | err e ↦ err (definition_failed e)
      | ok (godef_package dir) ↦ elim (hover_package dir) [
        | panics ↦ panics
        | err e ↦ err e
        | ok contents ↦ ok (some contents)
      ]
      | ok (godef_found start end) ↦ elim (hover_definition start end) [
        | panics ↦ panics
        | err e ↦ err e
        | ok contents ↦ ok (some contents)
      ]
    ]
