-- ===== src/Format/Edits.antt =====
-- langserver/format.go: what the edits do to the text.
use go_langserver.Format.{count_lines, last_index_from, format_edits, zero_position}
use go_langserver.Overlay.Splice.{replaced}
use go_langserver.Lsp.{Position, TextEdit}
use go_langserver.Common.Int.{ℤ, pos, negsuc, ◌-ℤ◌}
use mathlib.Core.Path.{subst}
use go_langserver.Common.{
  Bool-cases, Bytes, List, [], ap, append-nil, arith, beq, beq→eq, drop, false, if◌then◌else◌, inl,
  inr, length, refl, suc, sym, take, take_all, zero, ℕ, ◌+◌, ◌-◌, ◌<◌, ◌==◌, ◌∙◌, ◌∷◌, ◌≡◌, ◌≢◌,
  ◌≤◌, ◌⊎◌,
}
use go_langserver.Position.Offset.{newlines, trailing}

-- The position of the k-th byte of a text, or of its end.
abbrev pub IsAt : Bytes → ℕ → Position → Type 0
IsAt t k p =
    (k ≤ length t)
    × (p.line ≡ pos (newlines (take k t)))
    × (p.character ≡ pos (trailing (take k t)))

-- The edits of a list, made one after the other.
pub data Applies (u : Bytes) : Bytes → List TextEdit → Type 0 where
  done : Applies u u []
  edit :
      (t : Bytes) (e : TextEdit) (es : List TextEdit) (s k : ℕ)
      → IsAt t s e.range.start
      → IsAt t k e.range.end
      → s ≤ k
      → Applies u (replaced t s k e.new_text) es
      → Applies u t (e ∷ es)

count_lines-newlines : (s : Bytes) → count_lines s ≡ newlines s
unfolding count_lines newlines
count_lines-newlines [] = refl
count_lines-newlines (c ∷ s) = ground (arith, count_lines-newlines s)

dec_zero : (n : ℕ) → (n ≡ 0) ⊎ (n ≢ 0)
dec_zero zero = inl refl
dec_zero (suc n) = inr (λ e. absurd (omega (arith, e)))

unequal : (a b : ℕ) → a ≢ b → (a == b) ≡ false
unequal a b h = ground arith

last_index : ℕ → Bytes → ℤ
last_index i s = if newlines s == 0 then negsuc 0 else pos (i + length s - trailing s - 1)

trailing-length : (s : Bytes) → newlines s ≢ 0 → trailing s < length s
unfolding newlines trailing
trailing-length [] h = absurd (h refl)
trailing-length (c ∷ s) h = ground (arith, trailing-length s)

trailing_whole : (s : Bytes) → newlines s ≡ 0 → trailing s ≡ length s
unfolding newlines trailing
trailing_whole [] h = refl
trailing_whole (c ∷ s) h = ground (arith, trailing_whole s)

last_index_from-trailing : (i : ℕ) (s : Bytes) → last_index_from i s ≡ last_index i s
unfolding last_index_from last_index newlines trailing
last_index_from-trailing i [] = refl
last_index_from-trailing i (c ∷ s) =
    ground (arith, last_index_from-trailing (suc i) s, trailing-length s)

no_line_break : (n : ℕ) → pos n -ℤ negsuc 0 -ℤ pos 1 ≡ pos n
unfolding ◌-ℤ◌
no_line_break n = ground arith

behind_line_break : (n t : ℕ) → t < n → pos n -ℤ pos (0 + n - t - 1) -ℤ pos 1 ≡ pos t
unfolding ◌-ℤ◌
behind_line_break n t h = ground arith

last_column : (s : Bytes) → pos (length s) -ℤ last_index_from 0 s -ℤ pos 1 ≡ pos (trailing s)
unfolding last_index
last_column s = rw (last_index_from-trailing 0 s) (from (dec_zero (newlines s)))
  where
    from :
        (newlines s ≡ 0) ⊎ (newlines s ≢ 0)
        → pos (length s) -ℤ last_index 0 s -ℤ pos 1 ≡ pos (trailing s)
    from (inl e) = rw (last_index, e, trailing_whole s e) (no_line_break (length s))
    from (inr n) =
        let q : (newlines s == 0) ≡ false = unequal (newlines s) 0 n in
        rw (last_index, q) (behind_line_break (length s) (trailing s) (trailing-length s n))

take-length : (s : Bytes) → take (length s) s ≡ s
take-length s = take_all (length s) s (omega arith)

drop-length : (s : Bytes) → drop (length s) s ≡ []
drop-length [] = refl
drop-length (c ∷ s) = drop-length s

-- Inserting into an empty text.
insertion-Applies :
    (b : Bytes)
    → Applies b [] (
        record { range = record { start = zero_position; end = zero_position }; new_text = b } ∷ [])
unfolding zero_position
insertion-Applies b =
    edit [] (record { range = record { start = zero_position; end = zero_position }; new_text = b })
      [] 0 0 (omega arith, (unfold newlines in refl), (unfold trailing in refl))
      (omega arith, (unfold newlines in refl), (unfold trailing in refl)) (omega arith)
      (subst (λ t. Applies b t []) (sym (append-nil b)) done)

-- Formatting sends no edits if the printed text is that of the file; otherwise its edits, made one
-- after the other on the text of the file, have positions that lie in the text and give exactly the
-- printed text.
pub format_edits-Applies : (b orig : Bytes) → Applies b orig (format_edits b orig)
unfolding format_edits zero_position newlines trailing
format_edits-Applies b orig = elim (Bool-cases (beq b orig)) [
  | inl e ↦ rw e (subst (λ t. Applies b t []) (beq→eq b orig e) done)
  | inr e ↦ rw e (
      edit orig _ _ 0 (length orig) (omega arith, refl, refl)
        (
          omega arith,
          ap pos (count_lines-newlines orig ∙ ap newlines (sym (take-length orig))),
          last_column orig ∙ ap (λ t. pos (trailing t)) (sym (take-length orig)),
        )
        (omega arith)
        (subst
          (λ t. Applies b t (
            record { range = record { start = zero_position; end = zero_position }; new_text = b }
            ∷ []))
          (sym (drop-length orig)) (insertion-Applies b)))
]
