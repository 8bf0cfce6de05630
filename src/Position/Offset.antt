-- ===== src/Position/Offset.antt =====
-- langserver/ast.go: offsetForPosition against an independent description of lines and columns.
use go_langserver.Common.{
  &&_elim, Bool-cases, Bytes, [], ap, arith, false, if◌then◌else◌, inl, inr, length, refl, suc, sym,
  take, true, zero, ℕ, ◌+◌, ◌<◌, ◌==◌, ◌↔◌, ◌∙◌, ◌∷◌, ◌≡◌,
}
use go_langserver.Common.Int.{ℤ, pos, negsuc, eqb_ℤ}
use go_langserver.Common.Result.{ok, err}
use go_langserver.Lsp.{Position}
use go_langserver.Position.{
  offset_from, offset_for_position, hits, beyond, next_line, next_col, beyond_line,
}
use native.Mathlib.Nat.{add-zero, zero-add}

-- How many lines a text ends.
unfoldable pub newlines : Bytes → ℕ
newlines [] = 0
newlines (b ∷ s) = (if b == b'\n' then 1 else 0) + newlines s

-- How many bytes stand behind the last newline, or in the whole text if it has none.
unfoldable pub trailing : Bytes → ℕ
trailing [] = 0
trailing (b ∷ s) =
    if newlines s == 0 then (if b == b'\n' then length s else suc (length s)) else trailing s

-- The column after some bytes, for a text that starts in column `col`.
column : ℕ → Bytes → ℕ
column col s = if newlines s == 0 then col + length s else trailing s

column_step :
    (col b : ℕ) (s : Bytes) → column col (b ∷ s) ≡ column (if b == b'\n' then 0 else col + 1) s
unfolding column newlines trailing
column_step col b s = ground arith

newlines_step :
    (line b : ℕ) (s : Bytes)
    → line + newlines (b ∷ s) ≡ (if b == b'\n' then line + 1 else line) + newlines s
unfolding newlines
newlines_step line b s = ground arith

-- The position that the loop gives the byte `k` bytes further on.
At : ℕ → ℕ → Bytes → ℕ → Position → Type 0
At line col s k p =
    (p.line ≡ pos (line + newlines (take k s))) × (p.character ≡ pos (column col (take k s)))

At-here :
    (line col : ℕ) (s : Bytes) (p : Position)
    → p.line ≡ pos line
    → p.character ≡ pos col
    → At line col s 0 p
unfolding At newlines column
At-here line col s p e f = ground (arith, e, f)

At-next :
    (line col b : ℕ) (s : Bytes) (k : ℕ) (p : Position)
    → At (next_line b line) (next_col b col) s k p
    → At line col (b ∷ s) (suc k) p
unfolding At
At-next line col b s k p (e, f) = (
  e ∙ ap pos (sym (newlines_step line b (take k s))),
  f ∙ ap pos (sym (column_step col b (take k s))),
)

At-prev :
    (line col b : ℕ) (s : Bytes) (k : ℕ) (p : Position)
    → At line col (b ∷ s) (suc k) p
    → At (next_line b line) (next_col b col) s k p
unfolding At
At-prev line col b s k p (e, f) =
    (e ∙ ap pos (newlines_step line b (take k s)), f ∙ ap pos (column_step col b (take k s)))

eqb_ℤ_pos : (n : ℕ) (z : ℤ) → eqb_ℤ (pos n) z ≡ true → z ≡ pos n
eqb_ℤ_pos n (pos m) h = ground arith
eqb_ℤ_pos n (negsuc m) h = ground arith

hits_here : (line col : ℕ) (s : Bytes) (p : Position) → hits line col p ≡ true → At line col s 0 p
unfolding hits
hits_here line col s p h =
    let (e, f) = &&_elim _ _ h in
    At-here line col s p (eqb_ℤ_pos line p.line e) (eqb_ℤ_pos col p.character f)

module _ (b : ℕ) (s : Bytes) (line col offset : ℕ) (p : Position) where
  step_hit : hits line col p ≡ true → offset_from (b ∷ s) line col offset p ≡ ok offset
  unfolding offset_from
  step_hit e = ground arith

  step_beyond :
      hits line col p ≡ false
      → beyond line col p ≡ true
      → offset_from (b ∷ s) line col offset p ≡ err (beyond_line p.character p.line)
  unfolding offset_from
  step_beyond e f = ground arith

  step_next :
      hits line col p ≡ false
      → beyond line col p ≡ false
      → offset_from (b ∷ s) line col offset p
        ≡ offset_from s (next_line b line) (next_col b col) (offset + 1) p
  unfolding offset_from
  step_next e f = ground arith

offset_from_sound :
    (s : Bytes) (line col offset n : ℕ) (p : Position)
    → offset_from s line col offset p ≡ ok n
    → (k : ℕ) × (k < length s) × (n ≡ offset + k) × At line col s k p
offset_from_sound [] line col offset n p h = elim (Bool-cases (line == 0)) [
  | inl e ↦ unfold offset_from in cc (rw e at h)
  | inr e ↦ unfold offset_from in cc (rw e at h)
]
offset_from_sound (b ∷ s) line col offset n p h = elim (Bool-cases (hits line col p)) [
  | inl e ↦ (
    0,
    omega arith,
    cc (step_hit b s line col offset p e, add-zero offset),
    hits_here line col (b ∷ s) p e,
  )
  | inr e ↦ elim (Bool-cases (beyond line col p)) [
    | inl f ↦ cc (step_beyond b s line col offset p e f)
    | inr f ↦
        let (k, lt, q, here) =
          offset_from_sound s (next_line b line) (next_col b col) (offset + 1) n p
            (sym (step_next b s line col offset p e f) ∙ h) in
        (suc k, omega arith, omega arith, At-next line col b s k p here)
  ]
]

not_yet :
    (line col m c : ℕ) (p : Position)
    → p.line ≡ pos (line + m)
    → p.character ≡ pos c
    → (m ≡ 0 → col < c)
    → (hits line col p ≡ false) × (beyond line col p ≡ false)
unfolding hits beyond
not_yet line col m c p e f g = rw (e, f) (ground arith, ground arith)

column_same_line : (col : ℕ) (s : Bytes) → newlines s ≡ 0 → column col s ≡ col + length s
unfolding column
column_same_line col s e = ground arith

-- A later position is neither hit nor passed.
before_later :
    (line col k b : ℕ) (s : Bytes) (p : Position)
    → At line col (b ∷ s) (suc k) p
    → (hits line col p ≡ false) × (beyond line col p ≡ false)
unfolding At
before_later line col k b s p (e, f) =
    not_yet line col (newlines (b ∷ take k s)) (column col (b ∷ take k s)) p e f
      (λ z. omega (arith, column_same_line col (b ∷ take k s) z))

hits-At : (line col : ℕ) (s : Bytes) (p : Position) → At line col s 0 p → hits line col p ≡ true
unfolding At hits newlines column
hits-At line col s p (e, f) = rw (e, f) (ground arith)

offset_from_complete :
    (s : Bytes) (line col offset k : ℕ) (p : Position)
    → k < length s
    → At line col s k p
    → offset_from s line col offset p ≡ ok (offset + k)
offset_from_complete [] line col offset k p lt here = absurd (omega arith)
offset_from_complete (b ∷ s) line col offset zero p lt here =
    cc (step_hit b s line col offset p (hits-At line col (b ∷ s) p here), add-zero offset)
offset_from_complete (b ∷ s) line col offset (suc k) p lt here =
    let (e, f) = before_later line col k b s p here in
    step_next b s line col offset p e f
    ∙ offset_from_complete s (next_line b line) (next_col b col) (offset + 1) k p (omega arith)
        (At-prev line col b s k p here)
    ∙ ap ok (omega arith)

column_zero : (s : Bytes) → column 0 s ≡ trailing s
unfolding column newlines trailing
column_zero [] = refl
column_zero (b ∷ s) = ground arith

-- The offset is found exactly if the position names a byte of the text: `k` is the offset of a byte
-- (so below the length), the line is the number of newlines before it, and the character is the
-- number of bytes between it and the last of those newlines.
pub offset_for_position_iff :
    (contents : Bytes) (p : Position) (k : ℕ)
    → (offset_for_position contents p ≡ ok k) ↔ (
        (k < length contents)
        × (p.line ≡ pos (newlines (take k contents)))
        × (p.character ≡ pos (trailing (take k contents))))
unfolding offset_for_position At
offset_for_position_iff contents p k = (
  λ h.
      let (j, lt, q, here) = offset_from_sound contents 0 0 0 k p h in
      let same : k ≡ j = q ∙ zero-add j in
      rw same (lt, here.0 ∙ ap pos (zero-add _), here.1 ∙ ap pos (column_zero (take j contents))),
  λ h.
      offset_from_complete contents 0 0 0 k p h.0
        (h.1 ∙ ap pos (sym (zero-add _)), h.2 ∙ ap pos (sym (column_zero (take k contents))))
      ∙ ap ok (zero-add k),
)
