-- ===== src/Overlay/Splice.antt =====
-- langserver/fs.go, one round of didChange: what an accepted range does to the text, and which
-- ranges are refused.
use go_langserver.Common.{
  Bytes, [], ap, append_assoc, arith, drop, false, if◌then◌else◌, leb, length, length-drop, ltb,
  some, sym, take, take-append-drop, ℕ, ◌++◌, ◌+◌, ◌<◌, ◌==◌, ◌^◌, ◌∙◌, ◌≡◌, ◌≢◌,
}
use go_langserver.Common.Int.{ℤ, pos, negsuc, to_int64, pos_part}
use go_langserver.Common.Result.{ok, err, >>=-ok}
use go_langserver.Lsp.{Position, Range, TextDocumentContentChangeEvent}
use go_langserver.Position.{offset_for_position}
use go_langserver.Position.Offset.{offset_for_position_iff}
use go_langserver.Overlay.{out_of_range, locate, change_end, splice, apply_change}

-- What stands between `start` and `end` is replaced by `text`.
abbrev pub replaced : Bytes → ℕ → ℕ → Bytes → Bytes
replaced contents start end text = take start contents ++ (text ++ drop end contents)

splice_at :
    (contents text : Bytes) (range : Range) (start end : ℕ)
    → end < length contents
    → splice contents range start (pos end) text
      ≡ (if leb start end then ok (replaced contents start end text) else err (out_of_range range))
unfolding splice
splice_at contents text range start end h = ground arith

locate_at :
    (contents : Bytes) (start p : Position) (k : ℕ)
    → offset_for_position contents p ≡ ok k
    → locate contents start p ≡ ok k
unfolding locate
locate_at contents start p k h = rw (h, locate)

-- A range without a length whose two positions are found at `s` and `e` replaces exactly the bytes
-- from `s` up to `e`, and is refused if `e` comes before `s`.
pub apply_change_range :
    (contents text : Bytes) (range : Range) (s e : ℕ)
    → offset_for_position contents range.start ≡ ok s
    → offset_for_position contents range.end ≡ ok e
    → apply_change contents (record { range = some range; range_length = 0; text = text })
      ≡ (if leb s e then ok (replaced contents s e text) else err (out_of_range range))
unfolding apply_change change_end
apply_change_range contents text range s e hs he =
    rw
      (
        locate_at contents range.start range.start s hs,
        locate_at contents range.start range.end e he,
      )
      (splice_at contents text range s e ((offset_for_position_iff contents range.end e).0 he).0)

length_given : (n : ℕ) → n ≢ 0 → (n == 0) ≡ false
length_given n h = ground arith

splice_wrapped :
    (contents text : Bytes) (range : Range) (s n : ℕ)
    → length contents < 2 ^ 63
    → n < 2 ^ 64
    → s < length contents
    → splice contents range s (to_int64 (s + n)) text ≡ (
        if ltb (s + n) (length contents)
        then ok (replaced contents s (s + n) text)
        else err (out_of_range range))
unfolding splice to_int64
splice_wrapped contents text range s n small word inside = ground arith

-- A range with a length replaces that many bytes from its start, whatever its end says, and is
-- refused where they reach the end of the text.
pub apply_change_range_length :
    (contents text : Bytes) (range : Range) (s n : ℕ)
    → length contents < 2 ^ 63
    → n < 2 ^ 64
    → n ≢ 0
    → offset_for_position contents range.start ≡ ok s
    → apply_change contents (record { range = some range; range_length = n; text = text }) ≡ (
        if ltb (s + n) (length contents)
        then ok (replaced contents s (s + n) text)
        else err (out_of_range range))
unfolding apply_change change_end
apply_change_range_length contents text range s n small word nonzero hs =
    rw (locate_at contents range.start range.start s hs, length_given n nonzero, change_end)
      (splice_wrapped contents text range s n small word
        ((offset_for_position_iff contents range.start s).0 hs).0)

splice_ok :
    (contents text after : Bytes) (range : Range) (s : ℕ) (end : ℤ)
    → splice contents range s end text ≡ ok after
    → (pos_part end < length contents) × (after ≡ replaced contents s (pos_part end) text)
unfolding splice
splice_ok contents text after range s (pos e) h = ground arith
splice_ok contents text after range s (negsuc e) h = ground arith

-- The replaced part of an accepted ranged change ends before the end of the text.
ranged_ok :
    (contents text after : Bytes) (range : Range) (n : ℕ)
    → apply_change contents (record { range = some range; range_length = n; text = text })
      ≡ ok after
    → (s e : ℕ) × (e < length contents) × (after ≡ replaced contents s e text)
unfolding apply_change
ranged_ok contents text after range n h =
    let (s, _, after_start) = >>=-ok (locate contents range.start range.start) _ h in
    let (end, _, after_end) = >>=-ok (change_end contents range s n) _ after_start in
    let (lt, q) = splice_ok contents text after range s end after_end in (s, pos_part end, lt, q)

drop-ne-nil : (n : ℕ) (xs : Bytes) → n < length xs → drop n xs ≢ []
drop-ne-nil n xs h e = absurd (omega (arith, length-drop n xs, ap length e))

-- Whatever range is given, the end of the text stays: an accepted ranged change keeps a rest of the
-- text that is not empty, so no such change appends to a text or removes its last byte.
pub apply_change_keeps_end :
    (contents : Bytes) (change : TextDocumentContentChangeEvent) (range : Range) (after : Bytes)
    → change.range ≡ some range
    → apply_change contents change ≡ ok after
    → (front front' rest : Bytes) × (rest ≢ [])
      × (contents ≡ front ++ rest)
      × (after ≡ front' ++ rest)
apply_change_keeps_end contents change range after hr h =
    let (s, e, lt, q) = ranged_ok contents change.text after range change.range_length (
      ap
        (λ r.
          apply_change contents
            (record { range = r; range_length = change.range_length; text = change.text }))
        (sym hr)
      ∙ h) in
    (
      take e contents,
      take s contents ++ change.text,
      drop e contents,
      drop-ne-nil e contents lt,
      sym (take-append-drop e contents),
      q ∙ sym (append_assoc (take s contents) change.text (drop e contents)),
    )
