-- ===== src/Diagnostics/Grouping.antt =====
-- langserver/diagnostics.go: what the map of diagnostics holds for each file.
use mathlib.Core.Bool.{false≢true}
use go_langserver.Common.Result.{ok}
use go_langserver.Diagnostics.{
  TypeError, types_error, scanner_error, scanner_error_list, unexpected, located, at_file,
  FilePosition, Diagnostics, errs_from, errs_to_diagnostics, Diagnostic, append_to, add_located,
  diagnostic, is_valid, lsp_position, no_position,
}
use go_langserver.Common.Int.{pos, ltb_ℤ, ◌-ℤ◌}
use go_langserver.Common.Words.{trim_space}
use go_langserver.Common.{
  All, Bool, Bool-cases, Bytes, List, Option, [], append-nil, append_assoc, arith, beq, beq_ne,
  beq→eq, eq→beq, false, if◌then◌else◌, inl, inr, length, none, refl, some, suc, sym, true, ℕ, ◌++◌,
  ◌∙◌, ◌∷◌, ◌≡◌,
}

-- From one position up to another, both counted from 0 rather than from 1.
abbrev pub shown_from : FilePosition → FilePosition → Bytes → Bytes × Diagnostic
shown_from p q msg = (
  p.filename,
  record {
    range = record {
      start = record { line = p.line -ℤ pos 1; character = p.column -ℤ pos 1 };
      end = record { line = q.line -ℤ pos 1; character = q.column -ℤ pos 1 };
    };
    message = trim_space msg;
  },
)

-- The file and the diagnostic of an error. A types.Error reaches to the end of the node around it, if
-- that has a valid line, and every other error is at one position; a list of errors is shown by its
-- first one with the number of the rest.
abbrev pub diagnosis : (ℕ → Bytes) → TypeError → Option (Bytes × Diagnostic)
diagnosis more (types_error p none msg) = some (shown_from p p msg)
diagnosis more (types_error p (some q) msg) =
    some (shown_from p (if ltb_ℤ (pos 0) q.line then q else p) msg)
diagnosis more (scanner_error p msg) = some (shown_from p p msg)
diagnosis more (scanner_error_list []) = none
diagnosis more (scanner_error_list ((p, msg) ∷ [])) = some (shown_from p p msg)
diagnosis more (scanner_error_list ((p, msg) ∷ e ∷ es)) =
    some (shown_from p p (msg ++ more (suc (length es))))
diagnosis more unexpected = none

abbrev pub in_file : Bytes → Option (Bytes × Diagnostic) → List Diagnostic
in_file name none = []
in_file name (some (file, d)) = if beq file name then d ∷ [] else []

-- The diagnostics of one file among those of a list of errors, in their order.
unfoldable pub about_file : (ℕ → Bytes) → Bytes → List TypeError → List Diagnostic
about_file more name [] = []
about_file more name (e ∷ es) = in_file name (diagnosis more e) ++ about_file more name es

abbrev pub is_expected : TypeError → Bool
is_expected unexpected = false
is_expected e = true

at_file-append_to :
    (diags : Diagnostics) (file name : Bytes) (d : Diagnostic)
    → at_file (append_to file d diags) name
      ≡ at_file diags name ++ (if beq file name then d ∷ [] else [])
unfolding at_file append_to
at_file-append_to [] file name d = ground arith
at_file-append_to ((f, ds) ∷ rest) file name d = elim (Bool-cases (beq f file)) [
  | inl e ↦ elim (Bool-cases (beq f name)) [
    | inl e' ↦
        let same : beq file name ≡ true = rw (sym (beq→eq f file e)) e' in rw (e, at_file, e', same)
    | inr e' ↦
        let other_file : beq file name ≡ false = rw (sym (beq→eq f file e)) e' in
        rw (e, at_file, e', other_file) (sym (append-nil _))
  ]
  | inr e ↦ elim (Bool-cases (beq f name)) [
    | inl e' ↦
        let other_file : beq file name ≡ false =
          beq_ne file name (λ q. false≢true (sym e ∙ eq→beq f file (beq→eq f name e' ∙ sym q))) in
        rw (e, at_file, e', other_file) (sym (append-nil _))
    | inr e' ↦ rw (e, at_file, e', at_file-append_to rest file name d)
  ]
]

abbrev is_about : Bytes → Option (FilePosition × FilePosition × Bytes) → List Diagnostic
is_about name none = []
is_about name (some (p, p_end, msg)) =
    if beq p.filename name then diagnostic p p_end msg ∷ [] else []

at_file-add_located :
    (diags : Diagnostics) (name : Bytes) (x : Option (FilePosition × FilePosition × Bytes))
    → at_file (add_located diags x) name ≡ at_file diags name ++ is_about name x
at_file-add_located diags name none = sym (append-nil _)
at_file-add_located diags name (some (p, p_end, msg)) =
    at_file-append_to diags p.filename name (diagnostic p p_end msg)

-- The end of the range, in the two ways.
diagnostic-shown_from :
    (p q : FilePosition) (msg : Bytes)
    → diagnostic p q msg ≡ (shown_from p (if ltb_ℤ (pos 0) q.line then q else p) msg).1
unfolding diagnostic is_valid lsp_position
diagnostic-shown_from p q msg = elim (Bool-cases (ltb_ℤ (pos 0) q.line)) [
  | inl e ↦ rw e
  | inr e ↦ rw e
]

located-diagnosis :
    (more : ℕ → Bytes) (e : TypeError)
    → is_expected e ≡ true
    → (x : Option (FilePosition × FilePosition × Bytes)) × (located more e ≡ ok x)
      × ((name : Bytes) → is_about name x ≡ in_file name (diagnosis more e))
unfolding located
located-diagnosis more unexpected h = cc
located-diagnosis more (types_error p none msg) h =
    (_, refl, λ name. rw (diagnostic-shown_from p no_position msg))
located-diagnosis more (types_error p (some q) msg) h =
    (_, refl, λ name. rw (diagnostic-shown_from p q msg))
located-diagnosis more (scanner_error p msg) h =
    (_, refl, λ name. rw (diagnostic-shown_from p no_position msg))
located-diagnosis more (scanner_error_list []) h = (_, refl, λ name. refl)
located-diagnosis more (scanner_error_list ((p, msg) ∷ [])) h =
    (_, refl, λ name. rw (diagnostic-shown_from p no_position msg))
located-diagnosis more (scanner_error_list ((p, msg) ∷ e ∷ es)) h =
    (_, refl, λ name. rw (diagnostic-shown_from p no_position _))

errs_from-about_file :
    (more : ℕ → Bytes) (diags : Diagnostics) (es : List TypeError)
    → All (λ e. is_expected e ≡ true) es
    → (after : Diagnostics) × (errs_from more diags es ≡ ok after)
      × ((name : Bytes) → at_file after name ≡ at_file diags name ++ about_file more name es)
unfolding errs_from about_file
errs_from-about_file more diags [] h =
    (diags, refl, λ name. unfold about_file in sym (append-nil _))
errs_from-about_file more diags (e ∷ es) (p, h) =
    let (x, q, d) = located-diagnosis more e p in
    let (after, r, t) = errs_from-about_file more (add_located diags x) es h in
    (
      after,
      rw q r,
      λ name.
          t name
          ∙ rw (at_file-add_located diags name x, d name, about_file)
              (append_assoc (at_file diags name) (in_file name (diagnosis more e))
                (about_file more name es)),
    )

-- Where every error is a types.Error, a scanner.Error or a scanner.ErrorList, errsToDiagnostics gives
-- no error, and its map holds for each file the diagnostics of the errors in that file and of no
-- others, in the order of the errors. The diagnostic of an error starts at its position, counted from
-- 0; that of a types.Error ends where the node around it ends, if that end has a line, and else where
-- it starts; that of an ErrorList is the one of its first error, with the number of the others, and an
-- empty ErrorList has none.
pub errs_to_diagnostics-about_file :
    (more : ℕ → Bytes) (es : List TypeError)
    → All (λ e. is_expected e ≡ true) es
    → (diags : Diagnostics) × (errs_to_diagnostics more es ≡ ok diags)
      × ((name : Bytes) → at_file diags name ≡ about_file more name es)
unfolding errs_to_diagnostics
errs_to_diagnostics-about_file more es h =
    let (after, r, t) = errs_from-about_file more [] es h in
    (after, r, λ name. unfold at_file in t name)
