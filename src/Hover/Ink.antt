-- ===== src/Hover/Ink.antt =====
-- langserver/hover.go: what prettyPrintTypesString keeps of its input.
use go_langserver.Hover.Pretty.{indent, Token, brace_token, token}
use go_langserver.Hover.Pretty.{
  Token, semicolon, last_brace, braces, open_brace, close_brace, plain, brace_token, token, indent,
  pretty_from, prepend, pretty_print_types_string, or_itself,
}
use go_langserver.Common.{
  ==_iff, Bool, Bool-cases, Bytes, Option, [], arith, codes, drop, false, has_suffix, if◌then◌else◌,
  inl, inr, none, not, refl, some, suc, sym, true, zero, ℕ, ◌&&◌, ◌++◌, ◌==◌, ◌||◌, ◌∙◌, ◌∷◌, ◌≡◌,
}

-- A byte that is neither a space, a line break nor a semicolon.
unfoldable pub is_ink : ℕ → Bool
is_ink c = not (c == b' ') && (not (c == b'\n') && not (c == b';'))

unfoldable pub ink : Bytes → Bytes
unfolding is_ink
ink [] = []
ink (c ∷ s) = let rest = ink s in if is_ink c then c ∷ rest else rest

abbrev pub starts_blank : Bytes → Bool
starts_blank [] = true
starts_blank (c ∷ s) = c == b' '

-- Every semicolon is followed by a space, or is the last byte.
abbrev IsSpaced : Bytes → Type 0
IsSpaced [] = Unit
IsSpaced (c ∷ s) = ((c == b';') ≡ true → starts_blank s ≡ true) × IsSpaced s

abbrev pub is_spaced : Bytes → Bool
is_spaced [] = true
is_spaced (c ∷ s) = (not (c == b';') || starts_blank s) && is_spaced s

is_spaced-IsSpaced : (s : Bytes) → is_spaced s ≡ true → IsSpaced s
is_spaced-IsSpaced [] h = tt
is_spaced-IsSpaced (c ∷ s) h = (λ e. ground arith, is_spaced-IsSpaced s (ground arith))

pub ink-append : (s t : Bytes) → ink (s ++ t) ≡ ink s ++ ink t
unfolding ink
ink-append [] t = refl
ink-append (c ∷ s) t = elim (Bool-cases (is_ink c)) [
  | inl e ↦ rw (e, ink-append s t)
  | inr e ↦ rw (e, ink-append s t)
]

ink-indent : (d : ℕ) → ink (indent d) ≡ []
unfolding ink indent is_ink
ink-indent zero = refl
ink-indent (suc d) = ink-indent d

-- What a token says of the text that it was found in.
Reads : ℕ → Bytes → Token → Type 0
Reads c s semicolon = ink (c ∷ s) ≡ ink (drop 1 s)
Reads c s last_brace = Unit
Reads c s braces = ink (c ∷ s) ≡ b'{' ∷ b'}' ∷ ink (drop 1 s)
Reads c s open_brace = ink (c ∷ s) ≡ b'{' ∷ ink s
Reads c s close_brace = ink (c ∷ s) ≡ b'}' ∷ ink s
Reads c s plain = Unit

ink_behind_semicolon : (s : Bytes) → starts_blank s ≡ true → ink s ≡ ink (drop 1 s)
unfolding ink is_ink
ink_behind_semicolon [] h = refl
ink_behind_semicolon (n ∷ s) h = rw ((==_iff n b' ').0 h)

brace_token-Reads : (s : Bytes) → Reads b'{' s (brace_token s)
unfolding Reads ink is_ink
brace_token-Reads [] = tt
brace_token-Reads (n ∷ s) = elim (Bool-cases (n == b'}')) [
  | inl e ↦ rw e (rw ((==_iff n b'}').0 e))
  | inr e ↦ rw e
]

token-Reads : (c : ℕ) (s : Bytes) → IsSpaced (c ∷ s) → Reads c s (token c s)
unfolding token
token-Reads c s h = elim (Bool-cases (c == b';')) [
  | inl e ↦ unfold Reads ink is_ink in rw (e, (==_iff c b';').0 e) (ink_behind_semicolon s (h.0 e))
  | inr e ↦ elim (Bool-cases (c == b'{')) [
    | inl e' ↦ rw (e, e', (==_iff c b'{').0 e') (brace_token-Reads s)
    | inr e' ↦ elim (Bool-cases (c == b'}')) [
      | inl e'' ↦ unfold Reads ink is_ink in rw (e, e', e'', (==_iff c b'}').0 e'')
      | inr e'' ↦ unfold Reads in rw (e, e', e'') tt
    ]
  ]
]

abbrev skipped : Bool → Bytes → Bytes
skipped true s = drop 1 s
skipped false s = s

prepended :
    (p : Bytes) (x : Option Bytes) (r : Bytes)
    → prepend p x ≡ some r
    → (q : Bytes) × (x ≡ some q) × (r ≡ p ++ q)
prepended p none r h = cc
prepended p (some q) r h = (q, refl, cc)

joined :
    (p : Bytes) (x : Option Bytes) (r w : Bytes)
    → prepend p x ≡ some r
    → ((t : Bytes) → x ≡ some t → ink t ≡ w)
    → ink r ≡ ink p ++ w
joined p x r w h f = let (t, e, q) = prepended p x r h in rw (q, ink-append p t, f t e)

line_break : (d : ℕ) (w : Bytes) → ink (codes "\n" ++ indent d) ++ w ≡ w
line_break d w = unfold ink is_ink in rw (ink-indent d)

opened_line : (d : ℕ) (w : Bytes) → ink (codes " {\n" ++ indent d) ++ w ≡ b'{' ∷ w
opened_line d w = unfold ink is_ink in rw (ink-indent d)

closed_line : (w : Bytes) → ink (codes "\n}") ++ w ≡ b'}' ∷ w
closed_line w = unfold ink is_ink in refl

-- One case of the switch, from what the rest of the loop writes.
case-ink :
    (depth c : ℕ) (s r : Bytes)
    → ((skip : Bool) (d : ℕ) (t : Bytes)
        → pretty_from skip d s ≡ some t
        → ink t ≡ ink (skipped skip s))
    → (k : Token) → token c s ≡ k
    → Reads c s k
    → pretty_from false depth (c ∷ s) ≡ some r
    → ink r ≡ ink (c ∷ s)
unfolding pretty_from
case-ink depth c s r ih semicolon q k e =
    let w : pretty_from false depth (c ∷ s)
        ≡ prepend (codes "\n" ++ indent depth) (pretty_from true depth s) =
      rw (q, pretty_from) in
    unfold Reads in joined _ _ r _ (sym w ∙ e) (ih true depth) ∙ (line_break depth _ ∙ sym k)
case-ink depth c s r ih last_brace q k e =
    let w : pretty_from false depth (c ∷ s) ≡ none = rw (q, pretty_from) in cc
case-ink depth c s r ih braces q k e =
    let w : pretty_from false depth (c ∷ s) ≡ prepend (codes "{}") (pretty_from true depth s) =
      rw (q, pretty_from) in
    let z : ink r ≡ ink (codes "{}") ++ ink (drop 1 s) =
      joined (codes "{}") _ r _ (sym w ∙ e) (ih true depth) in
    unfold Reads ink is_ink in z ∙ sym k
case-ink depth c s r ih open_brace q k e =
    let w : pretty_from false depth (c ∷ s)
        ≡ prepend (codes " {\n" ++ indent (suc depth)) (pretty_from false (suc depth) s) =
      rw (q, pretty_from) in
    unfold Reads in
    joined _ _ r _ (sym w ∙ e) (ih false (suc depth)) ∙ (opened_line (suc depth) _ ∙ sym k)
case-ink zero c s r ih close_brace q k e =
    let w : pretty_from false zero (c ∷ s) ≡ none = rw (q, pretty_from) in cc
case-ink (suc depth) c s r ih close_brace q k e =
    let w : pretty_from false (suc depth) (c ∷ s)
        ≡ prepend (codes "\n}") (pretty_from false depth s) =
      rw (q, pretty_from) in
    unfold Reads in joined _ _ r _ (sym w ∙ e) (ih false depth) ∙ (closed_line _ ∙ sym k)
case-ink depth c s r ih plain q k e =
    let w : pretty_from false depth (c ∷ s) ≡ prepend (c ∷ []) (pretty_from false depth s) =
      rw (q, pretty_from) in
    joined _ _ r _ (sym w ∙ e) (ih false depth) ∙ sym (ink-append (c ∷ []) s)

pretty_from-ink :
    (skip : Bool) (depth : ℕ) (s r : Bytes)
    → IsSpaced s
    → pretty_from skip depth s ≡ some r
    → ink r ≡ ink (skipped skip s)
unfolding pretty_from
pretty_from-ink true depth [] r h e = unfold ink in cc
pretty_from-ink false depth [] r h e = unfold ink in cc
pretty_from-ink true depth (c ∷ s) r h e = pretty_from-ink false depth s r h.1 e
pretty_from-ink false depth (c ∷ s) r h e =
    case-ink depth c s r (λ skip d t. pretty_from-ink skip d s t h.1) (token c s) refl
      (token-Reads c s h) e

-- Where every semicolon of a text is followed by a space, printing it pretty changes, adds or drops
-- nothing but spaces, line breaks and semicolons, unless the text ends in `{}`, for which the result
-- is empty.
pub pretty_print_types_string-ink :
    (s : Bytes)
    → is_spaced s ≡ true
    → ink (pretty_print_types_string s) ≡ (if has_suffix s (codes "{}") then [] else ink s)
unfolding pretty_print_types_string
pretty_print_types_string-ink s h = elim (Bool-cases (has_suffix s (codes "{}"))) [
  | inl e ↦ unfold ink in rw e
  | inr e ↦
      rw e
        (from (pretty_from false 0 s) (λ r. pretty_from-ink false 0 s r (is_spaced-IsSpaced s h)))
]
  where
    from :
        (x : Option Bytes)
        → ((r : Bytes) → x ≡ some r → ink r ≡ ink s)
        → ink (or_itself s x) ≡ ink s
    from none f = refl
    from (some r) f = f r refl
