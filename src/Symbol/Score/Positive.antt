-- ===== src/Symbol/Score/Positive.antt =====
-- langserver/symbol.go: the symbols that have a positive score.
use go_langserver.Common.{
  Bool, Bytes, List, Option, [], arith, beq, beq_iff, beq→eq, contains, false, has_prefix,
  if◌then◌else◌, inl, inr, leb, length, not, refl, to_lower, true, ℕ, ◌&&◌, ◌+◌, ◌<◌, ◌==◌, ◌↔◌,
  ◌∷◌, ◌≡◌, ◌⊎◌,
}
use go_langserver.Common.Int.{pos, ltb_ℤ}
use go_langserver.Util.{is_uri, uri_to_path, is_vendor_dir}
use go_langserver.Symbol.Query.{Query}
use go_langserver.Symbol.Descriptor.{DescriptorMap}
use go_langserver.Symbol.Score.{
  SymbolPair, exported_name, is_exported_filter, is_empty, unwanted, token_score, tokens_score,
  boost, file_score, score,
}

has_prefix_self : (s : Bytes) → has_prefix s s ≡ true
unfolding has_prefix
has_prefix_self [] = refl
has_prefix_self (c ∷ s) = ground (arith, has_prefix_self s)

same_prefix : (t s : Bytes) → beq t s ≡ true → has_prefix s t ≡ true
same_prefix t s h = rw (beq→eq t s h) (has_prefix_self s)

-- What a token matches: the beginning of the container or of the name, or, if it has three bytes at
-- least, a part of the file name or the beginning of its last element.
abbrev pub Hits : (Bytes → Bytes) → Bytes → Bytes → Bytes → Bytes → Type 0
Hits base name container filename token =
    (has_prefix container (to_lower token) ≡ true)
    ⊎ (has_prefix name (to_lower token) ≡ true)
    ⊎ ((contains filename (to_lower token) && leb 3 (length (to_lower token))) ≡ true)
    ⊎ ((has_prefix (base filename) (to_lower token) && leb 3 (length (to_lower token))) ≡ true)

abbrev pub SomeHit : (Bytes → Bytes) → Bytes → Bytes → Bytes → List Bytes → Type 0
SomeHit base name container filename [] = ⊥
SomeHit base name container filename (tok ∷ toks) =
    Hits base name container filename tok ⊎ SomeHit base name container filename toks

module _ (base : Bytes → Bytes) where
  token_score_iff :
      (name container filename token : Bytes) (last : Bool)
      → (0 < token_score base name container filename token last)
        ↔ Hits base name container filename token
  unfolding token_score
  token_score_iff name container filename token last = (
    λ h. ground (arith, same_prefix (to_lower token) name, same_prefix (to_lower token) container),
    λ h. ground arith,
  )

  tokens_score_iff :
      (name container filename : Bytes) (toks : List Bytes)
      → (0 < tokens_score base name container filename toks)
        ↔ SomeHit base name container filename toks
  unfolding tokens_score
  tokens_score_iff name container filename [] = (λ h. omega arith, λ h. absurd h)
  tokens_score_iff name container filename (tok ∷ toks) =
      let here = token_score_iff name container filename tok (is_empty toks) in
      let rest = tokens_score_iff name container filename toks in
      (
        λ h. elim (sum_pos _ _ h) [ inl p ↦ inl (here.0 p) | inr p ↦ inr (rest.0 p) ],
        λ h. elim h [ inl p ↦ pos_left _ _ (here.1 p) | inr p ↦ pos_right _ _ (rest.1 p) ],
      )
    where
      sum_pos : (m n : ℕ) → 0 < m + n → (0 < m) ⊎ (0 < n)
      sum_pos m n h = ground arith

      pos_left : (m n : ℕ) → 0 < m → 0 < m + n
      pos_left m n h = omega arith

      pos_right : (m n : ℕ) → 0 < n → 0 < m + n
      pos_right m n h = omega arith

boost_iff :
    (scor : ℕ) (vendored is_exported : Bool) → (0 < boost scor vendored is_exported) ↔ (0 < scor)
unfolding boost
boost_iff scor vendored is_exported = (λ h. ground arith, λ h. ground arith)

-- What a file and its symbol have to be: no vendored file under is:exported, the file of the query
-- if it has one, and, if the query has tokens, a symbol that some token hits.
abbrev pub MatchesFile : (Bytes → Bytes) → Query → SymbolPair → Bytes → Type 0
MatchesFile base q s filename =
    ((is_exported_filter q.filter && is_vendor_dir filename) ≡ false)
    × ((q.file ≡ []) ⊎ (filename ≡ q.file))
    × ((q.tokens ≡ [])
        ⊎ SomeHit base (to_lower s.name) (to_lower s.container_name) filename q.tokens)

file_guard :
    (file filename : Bytes)
    → ((not (beq file []) && not (beq filename file)) ≡ false) ↔ ((file ≡ []) ⊎ (filename ≡ file))
file_guard file filename = ground (arith, beq_iff file [], beq_iff filename file)

module _ (base : Bytes → Bytes) where
  tokens_part :
      (q : Query) (s : SymbolPair) (filename : Bytes) (toks : List Bytes)
      → (0 < (
          if is_empty toks
          then (if is_vendor_dir filename then 1 else 2)
          else boost
              (tokens_score base (to_lower s.name) (to_lower s.container_name) filename toks)
              (is_vendor_dir filename)
              (exported_name s.name)))
        ↔ ((toks ≡ []) ⊎ SomeHit base (to_lower s.name) (to_lower s.container_name) filename toks)
  tokens_part q s filename [] = (λ h. inl refl, λ h. ground arith)
  tokens_part q s filename (tok ∷ toks) =
      let scored =
        tokens_score_iff base (to_lower s.name) (to_lower s.container_name) filename (tok ∷ toks) in
      let boosted =
        boost_iff
          (tokens_score base (to_lower s.name) (to_lower s.container_name) filename (tok ∷ toks))
          (is_vendor_dir filename) (exported_name s.name) in
      (
        λ h. inr (scored.0 (boosted.0 h)),
        λ h. elim h [ inl e ↦ absurd cc | inr p ↦ boosted.1 (scored.1 p) ],
      )

  guarded_iff :
      {P Q R : Type 0} (b c : Bool) (n : ℕ)
      → ((b ≡ false) ↔ P)
      → ((c ≡ false) ↔ Q)
      → ((0 < n) ↔ R)
      → (0 < (if b then 0 else if c then 0 else n)) ↔ (P × Q × R)
  guarded_iff true c n p q r = (λ h. absurd (omega arith), λ h. absurd (cc (p.1 h.0)))
  guarded_iff false true n p q r = (λ h. absurd (omega arith), λ h. absurd (cc (q.1 h.1)))
  guarded_iff false false n p q r = (λ h. (p.0 refl, q.0 refl, r.0 h), λ h. r.1 h.2)

  file_score_iff :
      (q : Query) (s : SymbolPair) (filename : Bytes)
      → (0 < file_score base q s filename) ↔ MatchesFile base q s filename
  unfolding file_score
  file_score_iff q s filename =
      guarded_iff _ _ _ (λ h. h, λ h. h) (file_guard q.file filename)
        (tokens_part q s filename q.tokens)

  kind_guard :
      (q : Query) (s : SymbolPair)
      → (q.kind ≡ 0) ⊎ (q.kind ≡ s.kind)
      → (not (q.kind == 0) && not (q.kind == s.kind)) ≡ false
  kind_guard q s h = ground arith

  positive : (n : ℕ) → 0 < n → ltb_ℤ (pos 0) (pos n) ≡ true
  positive n h = ground arith

  module _ (parse_url : Bytes → Option Bytes) where
    -- A symbol has a positive score exactly if its kind is that of the query or the query has none,
    -- its descriptor contains the wanted one if there is one, its URI is a file's, and the file and
    -- the symbol match: no vendored file under is:exported, the file of the query if it has one, and,
    -- if the query has tokens, some token that begins the symbol's container or name, or has three
    -- bytes at least and stands in the file name or begins its last element.
    score_iff :
        (q : Query) (wanted : Option DescriptorMap) (s : SymbolPair)
        → (ltb_ℤ (pos 0) (score base parse_url q wanted s) ≡ true) ↔ (
            ((q.kind ≡ 0) ⊎ (q.kind ≡ s.kind))
            × (unwanted s.desc wanted ≡ false)
            × (is_uri s.location.uri ≡ true)
            × MatchesFile base q s (uri_to_path parse_url s.location.uri))
    unfolding score
    score_iff q wanted s =
        let file = file_score_iff q s (uri_to_path parse_url s.location.uri) in
        (
          λ h. ground (arith, file.0),
          λ (k, u, i, m). rw (score, kind_guard q s k, u, i) (positive _ (file.1 m)),
        )
