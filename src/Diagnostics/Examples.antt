-- ===== src/Diagnostics/Examples.antt =====
-- langserver/diagnostics.go: the theorem on two errors in one file and a list of errors in another.
use go_langserver.Diagnostics.Grouping.{about_file, errs_to_diagnostics-about_file}
use go_langserver.Diagnostics.{
  FilePosition, TypeError, Diagnostics, types_error, errs_to_diagnostics, scanner_error_list,
  at_file,
}
use go_langserver.Common.{Bytes, List, [], codes, none, refl, some, ℕ, ◌∷◌, ◌≡◌}
use go_langserver.Common.Result.{ok}
use go_langserver.Common.Int.{pos}

abbrev spot : Bytes → ℕ → FilePosition
spot file line = record { filename = file; line = pos line; column = pos 1 }

abbrev some_errors : List TypeError
some_errors =
    types_error (spot (codes "a.go") 3) none (codes "undeclared name")
    ∷ scanner_error_list (
        (spot (codes "b.go") 1, codes "expected ;")
        ∷ (spot (codes "b.go") 2, codes "expected )")
        ∷ [])
    ∷ scanner_error_list []
    ∷ types_error (spot (codes "a.go") 1) (some (spot (codes "a.go") 2)) (codes " unused ")
    ∷ []

abbrev and_more : ℕ → Bytes
and_more n = n ∷ []

errs_to_diagnostics-about_file_example :
    (diags : Diagnostics) × (errs_to_diagnostics and_more some_errors ≡ ok diags)
    × ((name : Bytes) → at_file diags name ≡ about_file and_more name some_errors)
errs_to_diagnostics-about_file_example =
    errs_to_diagnostics-about_file and_more some_errors (refl, (refl, (refl, (refl, tt))))
