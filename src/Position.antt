-- ===== src/Position.antt =====
-- langserver/ast.go: offsetForPosition, from a line and a column to a byte offset.
pub mod Offset
pub mod Ranges
pub mod Examples
use go_langserver.Common.{Bool, Bytes, [], if◌then◌else◌, ℕ, ◌&&◌, ◌+◌, ◌==◌, ◌||◌, ◌∷◌}
use go_langserver.Common.Int.{ℤ, pos, eqb_ℤ, ltb_ℤ}
use go_langserver.Common.Result.{Result, ok, err}
use go_langserver.Lsp.{Position}

-- The three texts of `whyInvalid`, with what they print.
pub data WhyInvalid : Type 0 where
  beyond_line : ℤ → ℤ → WhyInvalid
  beyond_first_line : ℤ → WhyInvalid
  only_lines : ℕ → WhyInvalid

-- `line == p.Line && col == p.Character`
pub hits : ℕ → ℕ → Position → Bool
hits line col p = eqb_ℤ (pos line) p.line && eqb_ℤ (pos col) p.character

-- `(line == p.Line && col > p.Character) || line > p.Line`
pub beyond : ℕ → ℕ → Position → Bool
beyond line col p =
    eqb_ℤ (pos line) p.line && ltb_ℤ p.character (pos col) || ltb_ℤ p.line (pos line)

abbrev pub next_line : ℕ → ℕ → ℕ
next_line b line = if b == b'\n' then line + 1 else line

abbrev pub next_col : ℕ → ℕ → ℕ
next_col b col = if b == b'\n' then 0 else col + 1

-- The loop over the bytes, with its variables `line`, `col` and `offset`.
unfoldable pub offset_from : Bytes → ℕ → ℕ → ℕ → Position → Result WhyInvalid ℕ
unfolding hits beyond
offset_from [] line col offset p =
    if line == 0 then err (beyond_first_line p.character) else err (only_lines (line + 1))
offset_from (b ∷ contents) line col offset p =
    let rest = offset_from contents (next_line b line) (next_col b col) (offset + 1) p in
    if hits line col p
    then ok offset
    else if beyond line col p
    then err (beyond_line p.character p.line)
    else rest

unfoldable pub offset_for_position : Bytes → Position → Result WhyInvalid ℕ
unfolding offset_from
offset_for_position contents p = offset_from contents 0 0 0 p
