-- ===== src/Common/Words.antt =====
-- The functions of "strings" that split texts: FieldsFunc, Fields and TrimSpace, for ASCII.
use go_langserver.Common.Tests.{◌==◌, leb, if◌then◌else◌, Bool-cases}
use go_langserver.Common.Lists.{All, All-append}
use go_langserver.Common.Text.{Bytes}
use Prim.Native.Nat.{ℕ}
use mathlib.Core.Path.{◌≡◌, refl, ap, sym, ◌∙◌}
use mathlib.Core.Logic.{inl, inr}
use mathlib.Core.Bool.{Bool, true, false, ◌&&◌, ◌||◌}
use mathlib.Core.List.{
  List, [], ◌∷◌, ◌++◌, reverse, reverse-reverse, reverse-cons, append_assoc, append-nil,
}

unfoldable pub is_space : ℕ → Bool
is_space c = c == 32 || leb 9 c && leb c 13

-- A part that has ended joins the others if it is not empty.
abbrev pub close_field : Bytes → List Bytes → List Bytes
close_field [] rest = rest
close_field (c ∷ cur) rest = (c ∷ cur) ∷ rest

module _ (sep : ℕ → Bool) where
  -- The part so far is `cur`.
  unfoldable pub fields_from : Bytes → Bytes → List Bytes
  fields_from cur [] = close_field cur []
  fields_from cur (c ∷ s) =
      let closed = close_field cur (fields_from [] s) in
      let longer = fields_from (cur ++ c ∷ []) s in if sep c then closed else longer

  -- strings.FieldsFunc
  unfoldable pub fields_func : Bytes → List Bytes
  unfolding fields_from
  fields_func s = fields_from [] s

-- strings.Fields
unfoldable pub fields : Bytes → List Bytes
unfolding fields_func is_space
fields s = fields_func is_space s

unfoldable pub trim_left : Bytes → Bytes
unfolding is_space
trim_left [] = []
trim_left (c ∷ s) = if is_space c then trim_left s else c ∷ s

-- strings.TrimSpace
unfoldable pub trim_space : Bytes → Bytes
unfolding trim_left
trim_space s = reverse (trim_left (reverse (trim_left s)))

module _ (sep : ℕ → Bool) where
  -- A text without separators is at most one part.
  pub fields_from_plain :
      (cur s : Bytes)
      → All (λ c. sep c ≡ false) s
      → fields_from sep cur s ≡ close_field (cur ++ s) []
  unfolding fields_from
  fields_from_plain cur [] h = rw (append-nil cur)
  fields_from_plain cur (c ∷ s) (p, h) =
      rw p (fields_from_plain (cur ++ c ∷ []) s h ∙ rw (append_assoc cur (c ∷ []) s))

  -- The parts of two texts with a separator between them.
  pub fields_from_sep :
      (c : ℕ) (s t cur : Bytes)
      → sep c ≡ true
      → fields_from sep cur (s ++ c ∷ t) ≡ fields_from sep cur s ++ fields_from sep [] t
  unfolding fields_from
  fields_from_sep c [] t [] h = rw h
  fields_from_sep c [] t (d ∷ cur) h = rw h
  fields_from_sep c (d ∷ s) t cur h = elim (Bool-cases (sep d)) [
    | inl e ↦ rw (e, fields_from_sep c s t [] h) (closed cur)
    | inr e ↦ rw e (fields_from_sep c s t (cur ++ d ∷ []) h)
  ]
    where
      closed :
          (x : Bytes)
          → close_field x (fields_from sep [] s ++ fields_from sep [] t)
            ≡ close_field x (fields_from sep [] s) ++ fields_from sep [] t
      closed [] = refl
      closed (y ∷ x) = refl

fields-trim_left : (s : Bytes) → fields_from is_space [] (trim_left s) ≡ fields_from is_space [] s
unfolding trim_left fields_from
fields-trim_left [] = refl
fields-trim_left (c ∷ s) = elim (Bool-cases (is_space c)) [
  | inl e ↦ rw e (fields-trim_left s)
  | inr e ↦ rw (e, fields_from) (rw e)
]

fields-trim_right :
    (w : Bytes)
    → fields_from is_space [] (reverse (trim_left w)) ≡ fields_from is_space [] (reverse w)
unfolding trim_left fields_from
fields-trim_right [] = refl
fields-trim_right (c ∷ w) = elim (Bool-cases (is_space c)) [
  | inl e ↦ rw e (
      fields-trim_right w
      ∙ (sym (append-nil _)
          ∙ (sym (fields_from_sep is_space c (reverse w) [] [] e)
              ∙ ap (fields_from is_space []) (sym (reverse-cons c w)))))
  | inr e ↦ rw e
]

-- Trimming a text changes none of its parts.
pub fields-trim_space : (s : Bytes) → fields (trim_space s) ≡ fields s
unfolding fields trim_space
fields-trim_space s =
    fields-trim_right (reverse (trim_left s))
    ∙ (ap (fields_from is_space []) (reverse-reverse (trim_left s)) ∙ fields-trim_left s)

module _ {κ} (P : ℕ → Type κ) where
  All-reverse : (s : Bytes) → All P s → All P (reverse s)
  All-reverse [] h = tt
  All-reverse (c ∷ s) (p, h) =
      rw (reverse-cons c s) (All-append P (reverse s) (c ∷ []) (All-reverse s h) (p, tt))

  All-trim_left : (s : Bytes) → All P s → All P (trim_left s)
  unfolding trim_left
  All-trim_left [] h = tt
  All-trim_left (c ∷ s) (p, h) = elim (Bool-cases (is_space c)) [
    | inl e ↦ rw e (All-trim_left s h)
    | inr e ↦ rw e (p, h)
  ]

  pub All-trim_space : (s : Bytes) → All P s → All P (trim_space s)
  unfolding trim_space
  All-trim_space s h = All-reverse _ (All-trim_left _ (All-reverse _ (All-trim_left s h)))
