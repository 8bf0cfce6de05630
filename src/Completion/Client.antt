-- ===== src/Completion/Client.antt =====
-- A client of langserver/completion.go: what it shows of a snippet.
use go_langserver.Completion.{escape}
use go_langserver.Common.{
  All, Bool, Bool-cases, Bytes, List, Option, [], ap, append-nil, append_assoc, arith, false,
  if◌then◌else◌, inl, inr, leb, none, some, sym, true, ℕ, ◌&&◌, ◌++◌, ◌==◌, ◌∷◌, ◌≡◌, ◌≢◌,
}

-- Where a client is in a snippet: in plain text, behind a backslash there, behind a dollar sign, in the
-- number of a tab stop without braces, in that of one with braces, in the text of a placeholder, and
-- behind a backslash there.
pub data Reading : Type 0 where
  in_text escaped_text after_dollar in_placeholder escaped_placeholder : Reading
  in_stop in_number : Bytes → Reading

abbrev pub is_digit : ℕ → Bool
is_digit c = leb b'0' c && leb c b'9'

-- The text that is shown, and the numbers of the tab stops in their order.
abbrev pub Shown : Type 0
Shown = Option (Bytes × List Bytes)

abbrev pub add_byte : ℕ → Shown → Shown
add_byte c none = none
add_byte c (some (text, stops)) = some (c ∷ text, stops)

abbrev pub add_stop : Bytes → Shown → Shown
add_stop n none = none
add_stop n (some (text, stops)) = some (text, n ∷ stops)

-- A byte of plain text, given what the rest is behind it, behind a dollar sign and behind a backslash.
abbrev pub text_byte : ℕ → Shown → Shown → Shown → Shown
text_byte c plain dollar escaped =
    if c == b'$' then dollar else if c == b'\\' then escaped else add_byte c plain

-- A backslash escapes the byte behind it. `none` is a snippet that ends too early, or that has
-- variables or tab stops inside of a placeholder, which are left out.
unfoldable pub read_snippet : Reading → Bytes → Shown
read_snippet in_text [] = some ([], [])
read_snippet (in_stop n) [] = some ([], n ∷ [])
read_snippet escaped_text [] = none
read_snippet after_dollar [] = none
read_snippet (in_number n) [] = none
read_snippet in_placeholder [] = none
read_snippet escaped_placeholder [] = none
read_snippet in_text (c ∷ s) =
    text_byte c (read_snippet in_text s) (read_snippet after_dollar s) (read_snippet escaped_text s)
read_snippet escaped_text (c ∷ s) = add_byte c (read_snippet in_text s)
read_snippet after_dollar (c ∷ s) =
    let number = read_snippet (in_number []) s in
    let stop = read_snippet (in_stop (c ∷ [])) s in
    if c == b'{' then number else if is_digit c then stop else none
read_snippet (in_stop n) (c ∷ s) =
    let longer = read_snippet (in_stop (n ++ c ∷ [])) s in
    let text =
      text_byte c (read_snippet in_text s) (read_snippet after_dollar s)
        (read_snippet escaped_text s) in
    if is_digit c then longer else add_stop n text
read_snippet (in_number n) (c ∷ s) =
    let longer = read_snippet (in_number (n ++ c ∷ [])) s in
    let placeholder = read_snippet in_placeholder s in
    let text = read_snippet in_text s in
    if is_digit c
    then longer
    else if c == b':'
    then add_stop n placeholder
    else if c == b'}'
    then add_stop n text
    else none
read_snippet in_placeholder (c ∷ s) =
    let text = read_snippet in_text s in
    let escaped = read_snippet escaped_placeholder s in
    let plain = read_snippet in_placeholder s in
    if c == b'}'
    then text
    else if c == b'\\'
    then escaped
    else if c == b'$'
    then none
    else add_byte c plain
read_snippet escaped_placeholder (c ∷ s) = add_byte c (read_snippet in_placeholder s)

-- Neither a backslash nor a dollar sign.
abbrev pub IsPlain : ℕ → Type 0
IsPlain c = (c ≢ b'\\') × (c ≢ b'$')

pub plain_text :
    (t s x : Bytes) (stops : List Bytes)
    → All IsPlain t
    → read_snippet in_text s ≡ some (x, stops)
    → read_snippet in_text (t ++ s) ≡ some (t ++ x, stops)
unfolding read_snippet
plain_text [] s x stops h q = q
plain_text (c ∷ t) s x stops ((b, d), h) q =
    let rest = plain_text t s x stops h q in
    let b' : (c == b'\\') ≡ false = ground arith in
    let d' : (c == b'$') ≡ false = ground arith in rw (b', d', rest, read_snippet)

pub number_read :
    (n d s : Bytes)
    → All (λ c. is_digit c ≡ true) d
    → read_snippet (in_number n) (d ++ b':' ∷ s) ≡ add_stop (n ++ d) (read_snippet in_placeholder s)
unfolding read_snippet
number_read n [] s h = ap (λ m. add_stop m (read_snippet in_placeholder s)) (sym (append-nil n))
number_read n (c ∷ d) s (e, h) =
    rw (e, read_snippet, number_read (n ++ c ∷ []) d s h, append_assoc n (c ∷ []) d)

pub placeholder_read :
    (a s x : Bytes) (stops : List Bytes)
    → All IsPlain a
    → read_snippet in_text s ≡ some (x, stops)
    → read_snippet in_placeholder (escape a ++ b'}' ∷ s) ≡ some (a ++ x, stops)
unfolding read_snippet escape
placeholder_read [] s x stops h q = q
placeholder_read (c ∷ a) s x stops ((b, d), h) q =
    let rest = placeholder_read a s x stops h q in
    elim (Bool-cases (c == b'}')) [
      | inl e ↦ let c_is : c ≡ b'}' = ground arith in rw (e, escape, rest, read_snippet, c_is)
      | inr e ↦
          let b' : (c == b'\\') ≡ false = ground arith in
          let d' : (c == b'$') ≡ false = ground arith in
          rw (e, escape, b', d', rest, read_snippet, e)
    ]
