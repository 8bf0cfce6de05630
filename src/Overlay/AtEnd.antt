-- ===== src/Overlay/AtEnd.antt =====
-- langserver/fs.go, didChange at the very end of a text.
use go_langserver.Common.{
  Bytes, [], arith, inl, inr, length, length-append, some, take, take-append_le, take-length-append,
  ℕ, ◌++◌, ◌<◌, ◌∷◌, ◌≡◌, ◌≢◌, ◌⊎◌,
}
use go_langserver.Common.Int.{ℤ, pos}
use go_langserver.Common.Result.{ok, ◌>>=◌, >>=-ok}
use go_langserver.Lsp.{Position, Range}
use go_langserver.Position.{offset_for_position}
use go_langserver.Position.Offset.{offset_for_position_iff, newlines, trailing}
use go_langserver.Overlay.{locate, change_end, apply_change}

-- The position behind the last byte, where a client appends.
abbrev pub IsEnd : Bytes → Position → Type 0
IsEnd contents p = (p.line ≡ pos (newlines contents)) × (p.character ≡ pos (trailing contents))

-- With one more byte behind the text its end is a position, and a position has one offset.
offset_ne_end :
    (contents : Bytes) (p : Position) (k : ℕ)
    → IsEnd contents p
    → offset_for_position contents p ≢ ok k
offset_ne_end contents p k (e, f) h = absurd (omega (arith, same, lt))
  where
    longer : Bytes
    longer = contents ++ 0 ∷ []

    found :
        (k < length contents)
        × (p.line ≡ pos (newlines (take k contents)))
        × (p.character ≡ pos (trailing (take k contents)))
    found = (offset_for_position_iff contents p k).0 h

    lt : k < length contents
    lt = found.0

    here : offset_for_position longer p ≡ ok k
    here = (offset_for_position_iff longer p k).1 (
      omega (arith, lt, length-append contents (0 ∷ [])),
      rw (take-append_le k contents (0 ∷ []) (omega (arith, lt))) (found.1),
      rw (take-append_le k contents (0 ∷ []) (omega (arith, lt))) (found.2),
    )

    at_end : offset_for_position longer p ≡ ok (length contents)
    at_end = (offset_for_position_iff longer p (length contents)).1 (
      omega (arith, length-append contents (0 ∷ [])),
      rw (take-length-append contents (0 ∷ [])) e,
      rw (take-length-append contents (0 ∷ [])) f,
    )

    same : k ≡ length contents
    same = cc (here, at_end)

locate_ok :
    (contents : Bytes) (start p : Position) (k : ℕ)
    → locate contents start p ≡ ok k
    → offset_for_position contents p ≡ ok k
unfolding locate
locate_ok contents start p k h = ground arith

change_end_located :
    (contents : Bytes) (range : Range) (s n : ℕ) (z : ℤ)
    → n ≡ 0
    → change_end contents range s n ≡ ok z
    → (k : ℕ) × (locate contents range.start range.end ≡ ok k)
unfolding change_end
change_end_located contents range s n z e h =
    let located : (locate contents range.start range.end >>= λ offset. ok (pos offset)) ≡ ok z =
      (rw e at h) in
    let (k, found, _) = >>=-ok (locate contents range.start range.end) _ located in (k, found)

-- A ranged change is never accepted if its range starts at the end of the text, nor if it gives no
-- length and its range ends there: nothing can be appended to a text or replaced up to its end.
pub apply_change_at_end :
    (contents text after : Bytes) (range : Range) (n : ℕ)
    → IsEnd contents range.start ⊎ IsEnd contents range.end × (n ≡ 0)
    → apply_change contents (record { range = some range; range_length = n; text = text })
      ≢ ok after
unfolding apply_change
apply_change_at_end contents text after range n (inl end) h =
    let (s, e, _) = >>=-ok (locate contents range.start range.start) _ h in
    offset_ne_end contents range.start s end (locate_ok contents range.start range.start s e)
apply_change_at_end contents text after range n (inr (end, none_given)) h =
    let (s, _, rest) = >>=-ok (locate contents range.start range.start) _ h in
    let (z, e, _) = >>=-ok (change_end contents range s n) _ rest in
    let (k, found) = change_end_located contents range s n z none_given e in
    offset_ne_end contents range.end k end (locate_ok contents range.start range.end k found)
