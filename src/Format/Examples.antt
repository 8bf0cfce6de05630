-- ===== src/Format/Examples.antt =====
-- langserver/format.go: the theorem on a file of two lines.
use go_langserver.Format.{format_edits}
use go_langserver.Format.Edits.{Applies, format_edits-Applies}
use go_langserver.Common.{codes}

format_edits-Applies_example :
    Applies
      (codes "package a\n")
      (codes "package  a\n\n")
      (format_edits (codes "package a\n") (codes "package  a\n\n"))
format_edits-Applies_example = format_edits-Applies (codes "package a\n") (codes "package  a\n\n")
