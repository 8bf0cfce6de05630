-- ===== src/Position/Examples.antt =====
-- langserver/ast.go: offsetForPosition on a text of two lines.
use go_langserver.Common.{Bytes, [], length, take, ◌<◌, ◌↔◌, ◌∷◌, ◌≡◌}
use go_langserver.Common.Int.{pos}
use go_langserver.Common.Result.{ok}
use go_langserver.Lsp.{Position}
use go_langserver.Position.{offset_for_position}
use go_langserver.Position.Offset.{newlines, trailing, offset_for_position_iff}

-- ab, a line break, cd
abbrev pub two_lines : Bytes
two_lines = 97 ∷ 98 ∷ 10 ∷ 99 ∷ 100 ∷ []

abbrev pub second_line : Position
second_line = record { line = pos 1; character = pos 1 }

offset_for_position_iff_example : (offset_for_position two_lines second_line ≡ ok 4) ↔ (
    (4 < length two_lines)
    × (second_line.line ≡ pos (newlines (take 4 two_lines)))
    × (second_line.character ≡ pos (trailing (take 4 two_lines))))
offset_for_position_iff_example = offset_for_position_iff two_lines second_line 4
