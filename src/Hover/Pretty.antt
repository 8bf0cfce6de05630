-- ===== src/Hover/Pretty.antt =====
-- langserver/hover.go: prettyPrintTypesString, which breaks the one-line text of a struct or an
-- interface into lines.
use go_langserver.Common.{
  Bool, Bytes, Option, [], codes, false, has_suffix, if◌then◌else◌, none, some, suc, true, zero, ℕ,
  ◌++◌, ◌==◌, ◌∷◌,
}

-- The cases of the loop's switch.
pub data Token : Type 0 where
  semicolon last_brace braces open_brace close_brace plain : Token

abbrev pub brace_token : Bytes → Token
brace_token [] = last_brace
brace_token (n ∷ s) = if n == b'}' then braces else open_brace

-- The case of a byte, from the text behind it.
unfoldable pub token : ℕ → Bytes → Token
token c s =
    if c == b';'
    then semicolon
    else if c == b'{'
    then brace_token s
    else if c == b'}'
    then close_brace
    else plain

-- Four spaces for each level.
unfoldable pub indent : ℕ → Bytes
indent zero = []
indent (suc depth) = codes "    " ++ indent depth

abbrev pub prepend : Bytes → Option Bytes → Option Bytes
prepend p none = none
prepend p (some r) = some (p ++ r)

-- `depth--`, with the return where it becomes negative
abbrev pub deeper : ℕ → (ℕ → Option Bytes) → Option Bytes
deeper zero f = none
deeper (suc depth) f = f depth

-- The loop, with what it writes from here on; `none` where it gives up and returns its input. The
-- flag says that the case before has skipped a byte by an `i++` of its own.
unfoldable pub pretty_from : Bool → ℕ → Bytes → Option Bytes
unfolding token indent
pretty_from skip depth [] = some []
pretty_from true depth (c ∷ s) = pretty_from false depth s
pretty_from false depth (c ∷ s) = elim (token c s) [
  | semicolon ↦ prepend (codes "\n" ++ indent depth) (pretty_from true depth s)
  | last_brace ↦ none
  | braces ↦ prepend (codes "{}") (pretty_from true depth s)
  | open_brace ↦ prepend (codes " {\n" ++ indent (suc depth)) (pretty_from false (suc depth) s)
  | close_brace ↦ deeper depth (λ d. prepend (codes "\n}") (pretty_from false d s))
  | plain ↦ prepend (c ∷ []) (pretty_from false depth s)
]

abbrev pub or_itself : Bytes → Option Bytes → Bytes
or_itself s none = s
or_itself s (some r) = r

unfoldable pub pretty_print_types_string : Bytes → Bytes
unfolding has_suffix pretty_from
pretty_print_types_string s =
    if has_suffix s (codes "{}") then [] else or_itself s (pretty_from false 0 s)
