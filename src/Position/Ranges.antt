-- ===== src/Position/Ranges.antt =====
-- langserver/ast.go: rangeForNode and goRangeToLSPLocation. A token.FileSet is the function from a
-- token.Pos to the position that it prints.
use go_langserver.Util.{path_to_uri, Os}
use go_langserver.Lsp.{Range, Location}
use go_langserver.Common.Int.{ℤ, pos, ◌-ℤ◌}
use go_langserver.Common.{Bytes, List, [], ℕ, ◌∷◌}

-- token.Position; lines and columns count from 1, and are 0 where the position is not known.
pub record LinePosition : Type 0 where
  pub filename : Bytes
  pub line : ℤ
  pub column : ℤ

module _ (fset : ℕ → LinePosition) where
  -- The node is given by its Pos and its End.
  unfoldable pub range_for_node : ℕ → ℕ → Range
  unfolding ◌-ℤ◌
  range_for_node start end = record {
    start = record { line = (fset start).line -ℤ pos 1; character = (fset start).column -ℤ pos 1 };
    end = record { line = (fset end).line -ℤ pos 1; character = (fset end).column -ℤ pos 1 };
  }

  unfoldable pub go_range_to_lsp_location : Os → ℕ → ℕ → Location
  unfolding path_to_uri range_for_node
  go_range_to_lsp_location os start end = record {
    uri = path_to_uri os (fset start).filename;
    range = range_for_node start end;
  }

  -- goRangesToLSPLocations, the nodes given by their Pos and End
  unfoldable pub go_ranges_to_lsp_locations : Os → List (ℕ × ℕ) → List Location
  unfolding go_range_to_lsp_location
  go_ranges_to_lsp_locations os [] = []
  go_ranges_to_lsp_locations os ((start, end) ∷ nodes) =
      go_range_to_lsp_location os start end ∷ go_ranges_to_lsp_locations os nodes
