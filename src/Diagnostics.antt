-- ===== src/Diagnostics.antt =====
-- langserver/diagnostics.go: the errors of the type checker as diagnostics of files. The position
-- that PathEnclosingInterval and End give for a types.Error is part of the error here.
pub mod Grouping
pub mod Examples
use go_langserver.Common.Result.{Result, ok, err, panics, ◌>>=◌}
use go_langserver.Common.Int.{ℤ, pos, ltb_ℤ, ◌-ℤ◌}
use go_langserver.Lsp.{Position, Range}
use go_langserver.Common.{
  Bool, Bytes, List, Option, [], beq, if◌then◌else◌, length, none, not, some, ℕ, ◌++◌, ◌∷◌,
}
use go_langserver.Common.Words.{trim_space}

-- token.Position
pub record FilePosition : Type 0 where
  pub filename : Bytes
  pub line : ℤ
  pub column : ℤ

-- The dynamic types of an error. The end of a types.Error is there if some node encloses its
-- position.
pub data TypeError : Type 0 where
  types_error : FilePosition → Option FilePosition → Bytes → TypeError
  scanner_error : FilePosition → Bytes → TypeError
  scanner_error_list : List (FilePosition × Bytes) → TypeError
  unexpected : TypeError

-- The severity is always lsp.Error and the source "go".
pub record Diagnostic : Type 0 where
  pub range : Range
  pub message : Bytes

-- The map in the order in which its keys were added.
abbrev pub Diagnostics : Type 0
Diagnostics = List (Bytes × List Diagnostic)

abbrev pub no_position : FilePosition
no_position = record { filename = []; line = pos 0; column = pos 0 }

-- pEnd.IsValid()
unfoldable pub is_valid : FilePosition → Bool
is_valid p = ltb_ℤ (pos 0) p.line

unfoldable pub lsp_position : FilePosition → Position
unfolding ◌-ℤ◌
lsp_position p = record { line = p.line -ℤ pos 1; character = p.column -ℤ pos 1 }

abbrev pub end_or_zero : Option FilePosition → FilePosition
end_or_zero none = no_position
end_or_zero (some p) = p

-- The variables `p`, `pEnd` and `msg` after the switch: an empty list of errors is passed over
-- (`ok none`) and an unexpected type is an error. `more` is the format of the number of the errors
-- that are left out.
unfoldable pub located :
    (ℕ → Bytes) → TypeError → Result (Unit {0}) (Option (FilePosition × FilePosition × Bytes))
located more (types_error p end msg) = ok (some (p, end_or_zero end, msg))
located more (scanner_error p msg) = ok (some (p, no_position, msg))
located more (scanner_error_list []) = ok none
located more (scanner_error_list ((p, msg) ∷ [])) = ok (some (p, no_position, msg))
located more (scanner_error_list ((p, msg) ∷ e ∷ es)) =
    ok (some (p, no_position, msg ++ more (length (e ∷ es))))
located more unexpected = err tt

unfoldable pub diagnostic : FilePosition → FilePosition → Bytes → Diagnostic
unfolding lsp_position is_valid
diagnostic p p_end msg =
    let start = lsp_position p in
    record {
      range = record {
        start = start;
        end = if not (is_valid p_end) then start else lsp_position p_end;
      };
      message = trim_space msg;
    }

-- diags[name] = append(diags[name], d)
unfoldable pub append_to : Bytes → Diagnostic → Diagnostics → Diagnostics
append_to name d [] = (name, d ∷ []) ∷ []
append_to name d ((file, ds) ∷ rest) =
    let further = append_to name d rest in
    if beq file name then (file, ds ++ d ∷ []) ∷ rest else (file, ds) ∷ further

-- diags[name], nil where the map has no such key
unfoldable pub at_file : Diagnostics → Bytes → List Diagnostic
at_file [] name = []
at_file ((file, ds) ∷ rest) name = if beq file name then ds else at_file rest name

abbrev pub add_located : Diagnostics → Option (FilePosition × FilePosition × Bytes) → Diagnostics
add_located diags none = diags
add_located diags (some (p, p_end, msg)) = append_to p.filename (diagnostic p p_end msg) diags

-- The loop, with the map so far.
unfoldable pub errs_from :
    (ℕ → Bytes) → Diagnostics → List TypeError → Result (Unit {0}) Diagnostics
unfolding located append_to diagnostic
errs_from more diags [] = ok diags
errs_from more diags (e ∷ es) = do x ← located more e; errs_from more (add_located diags x) es

unfoldable pub errs_to_diagnostics : (ℕ → Bytes) → List TypeError → Result (Unit {0}) Diagnostics
unfolding errs_from
errs_to_diagnostics more es = errs_from more [] es

-- publishDiagnostics returns before it sends anything; the result is the notifications sent.
unfoldable pub publish_diagnostics : Diagnostics → List (Bytes × List Diagnostic)
publish_diagnostics diags = []
