-- ===== src/Common/Text.antt =====
-- Go strings as lists of bytes, and the functions of the standard package "strings" that the
-- server uses, written for bytes.
use Prim.Native.Nat.{ℕ, ◌+◌}
use Prim.Native.Char.{code}
use Prim.Native.String.{String}
use mathlib.Core.Path.{◌≡◌, refl}
use mathlib.Core.Logic.{◌↔◌, inl, inr, ◌≢◌}
use mathlib.Core.Bool.{Bool, true, false, ◌&&◌, ◌||◌}
use mathlib.Core.List.{List, [], ◌∷◌, ◌++◌, reverse, map}
use mathlib.Core.Option.{Option, none, some}
use native.Mathlib.Omega.{arith}
use go_langserver.Common.Tests.{◌==◌, leb, if◌then◌else◌, Bool-cases}
use go_langserver.Common.Lists.{length, drop, drop-length-append}

abbrev pub Bytes : Type 0
Bytes = List ℕ

-- The code points of a literal: its bytes, since every literal of the source used here is ASCII.
abbrev pub codes : String → Bytes
codes String.[] = []
codes (String.◌∷◌ c s) = code c ∷ codes s

-- s == t
unfoldable pub beq : Bytes → Bytes → Bool
beq [] [] = true
beq [] (b ∷ t) = false
beq (a ∷ s) [] = false
beq (a ∷ s) (b ∷ t) = a == b && beq s t

-- strings.HasPrefix(s, prefix)
unfoldable pub has_prefix : Bytes → Bytes → Bool
has_prefix s [] = true
has_prefix [] (b ∷ p) = false
has_prefix (a ∷ s) (b ∷ p) = a == b && has_prefix s p

-- strings.TrimPrefix(s, prefix)
unfoldable pub trim_prefix : Bytes → Bytes → Bytes
unfolding has_prefix
trim_prefix s p = if has_prefix s p then drop (length p) s else s

-- strings.HasSuffix(s, suffix)
unfoldable pub has_suffix : Bytes → Bytes → Bool
unfolding has_prefix
has_suffix s p = has_prefix (reverse s) (reverse p)

-- strings.TrimSuffix(s, suffix)
unfoldable pub trim_suffix : Bytes → Bytes → Bytes
unfolding has_suffix
trim_suffix s p = if has_suffix s p then reverse (drop (length p) (reverse s)) else s

-- strings.Contains(s, substr)
unfoldable pub contains : Bytes → Bytes → Bool
unfolding has_prefix
contains [] t = has_prefix [] t
contains (a ∷ s) t = has_prefix (a ∷ s) t || contains s t

-- What follows the last occurrence of t in s, `none` where t does not occur in s.
unfoldable pub after_last : Bytes → Bytes → Option Bytes
unfolding has_prefix
after_last [] t = if has_prefix [] t then some (drop (length t) []) else none
after_last (a ∷ s) t = elim (after_last s t) [
  | some r ↦ some r
  | none ↦ if has_prefix (a ∷ s) t then some (drop (length t) (a ∷ s)) else none
]

-- An upper-case ASCII letter becomes the lower-case one.
unfoldable pub lower : ℕ → ℕ
lower c = if leb b'A' c && leb c b'Z' then c + 32 else c

-- strings.ToLower(s), for ASCII text
unfoldable pub to_lower : Bytes → Bytes
unfolding lower
to_lower s = map lower s

pub beq→eq : (s t : Bytes) → beq s t ≡ true → s ≡ t
unfolding beq
beq→eq [] [] h = refl
beq→eq [] (b ∷ t) h = cc
beq→eq (a ∷ s) [] h = cc
beq→eq (a ∷ s) (b ∷ t) h = ground (arith, beq→eq s t)

pub beq_self : (s : Bytes) → beq s s ≡ true
unfolding beq
beq_self [] = refl
beq_self (a ∷ s) = ground (arith, beq_self s)

pub eq→beq : (s t : Bytes) → s ≡ t → beq s t ≡ true
eq→beq s t h = rw h (beq_self t)

pub beq_ne : (s t : Bytes) → s ≢ t → beq s t ≡ false
beq_ne s t h = elim (Bool-cases (beq s t)) [ inl e ↦ absurd (h (beq→eq s t e)) | inr e ↦ e ]

pub beq_iff : (s t : Bytes) → (beq s t ≡ true) ↔ (s ≡ t)
beq_iff s t = (beq→eq s t, eq→beq s t)

pub has_prefix-append : (p s : Bytes) → has_prefix (p ++ s) p ≡ true
unfolding has_prefix
has_prefix-append [] [] = refl
has_prefix-append [] (a ∷ s) = refl
has_prefix-append (a ∷ p) s = ground (arith, has_prefix-append p s)

pub has_prefix→eq : (s p : Bytes) → has_prefix s p ≡ true → s ≡ p ++ drop (length p) s
unfolding has_prefix
has_prefix→eq [] [] h = refl
has_prefix→eq (a ∷ s) [] h = refl
has_prefix→eq [] (b ∷ p) h = cc
has_prefix→eq (a ∷ s) (b ∷ p) h = ground (arith, has_prefix→eq s p)

pub trim_prefix-append : (p s : Bytes) → trim_prefix (p ++ s) p ≡ s
unfolding trim_prefix
trim_prefix-append p s = rw (has_prefix-append p s) (drop-length-append p s)

pub trim_prefix_no : (s p : Bytes) → has_prefix s p ≡ false → trim_prefix s p ≡ s
unfolding trim_prefix
trim_prefix_no s p h = rw h
