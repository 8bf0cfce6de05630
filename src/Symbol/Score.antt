-- ===== src/Symbol/Score.antt =====
-- langserver/symbol.go: score, the relevance of a symbol for a query. path.Base of the standard
-- library and url.Parse are parameters. ast.IsExported is that of ASCII names.
pub mod Positive
use go_langserver.Common.{
  Bool, Bytes, List, Option, [], beq, contains, false, has_prefix, if◌then◌else◌, leb, length, ltb,
  none, not, some, to_lower, true, ℕ, ◌&&◌, ◌+◌, ◌==◌, ◌∷◌,
}
use go_langserver.Common.Int.{ℤ, pos, negsuc, ltb_ℤ}
use go_langserver.Lsp.{Location}
use go_langserver.Util.{is_uri, uri_to_path, is_vendor_dir}
use go_langserver.Symbol.Query.{Query, SymbolKind, FilterType, unfiltered, exported, in_dir}
use go_langserver.Symbol.Descriptor.{SymbolDescriptor, DescriptorMap, descriptor_contains}

-- The fields of lsp.SymbolInformation and the descriptor.
pub record SymbolPair : Type 0 where
  pub name : Bytes
  pub kind : SymbolKind
  pub location : Location
  pub container_name : Bytes
  pub desc : SymbolDescriptor

-- ast.IsExported
abbrev pub exported_name : Bytes → Bool
exported_name [] = false
exported_name (c ∷ s) = leb b'A' c && leb c b'Z'

-- `q.Filter == FilterExported`
abbrev pub is_exported_filter : FilterType → Bool
is_exported_filter exported = true
is_exported_filter unfiltered = false
is_exported_filter in_dir = false

abbrev pub is_empty {ℓ} : {A : Type ℓ} → List A → Bool
is_empty [] = true
is_empty (a ∷ l) = false

-- The points of one test of the loop.
abbrev pub points : Bool → ℕ → ℕ
points b n = if b then n else 0

-- `q.Symbol != nil && !s.desc.Contains(q.Symbol)`
abbrev pub unwanted : SymbolDescriptor → Option DescriptorMap → Bool
unwanted desc none = false
unwanted desc (some wanted) = not (descriptor_contains desc wanted)

-- The two boosts behind the loop.
unfoldable pub boost : ℕ → Bool → Bool → ℕ
boost scor vendored is_exported =
    let scor' = if ltb 0 scor && not vendored then scor + 5 else scor in
    if ltb 0 scor' && is_exported then scor' + 1 else scor'

module _ (base : Bytes → Bytes) where
  -- One round of the loop over the tokens; `last` is `i == len(q.Tokens)-1`.
  unfoldable pub token_score : Bytes → Bytes → Bytes → Bytes → Bool → ℕ
  token_score name container filename token last =
      let tok = to_lower token in
      points (has_prefix container tok) 2
      + points (has_prefix name tok) 3
      + points (contains filename tok && leb 3 (length tok)) 1
      + points (has_prefix (base filename) tok && leb 3 (length tok)) 2
      + points (beq tok name) (if last then 50 else 5)
      + points (beq tok container) 3

  -- The loop over the tokens.
  unfoldable pub tokens_score : Bytes → Bytes → Bytes → List Bytes → ℕ
  unfolding token_score
  tokens_score name container filename [] = 0
  tokens_score name container filename (tok ∷ toks) =
      token_score name container filename tok (is_empty toks)
      + tokens_score name container filename toks

  -- What follows the guards on the kind, the descriptor and the URI.
  unfoldable pub file_score : Query → SymbolPair → Bytes → ℕ
  unfolding tokens_score boost
  file_score q s filename =
      if is_exported_filter q.filter && is_vendor_dir filename
      then 0
      else if not (beq q.file []) && not (beq filename q.file)
      then 0
      else if is_empty q.tokens
      then (if is_vendor_dir filename then 1 else 2)
      else boost (tokens_score (to_lower s.name) (to_lower s.container_name) filename q.tokens)
          (is_vendor_dir filename) (exported_name s.name)

  module _ (parse_url : Bytes → Option Bytes) where
    -- score; `wanted` is the query's Symbol.
    unfoldable pub score : Query → Option DescriptorMap → SymbolPair → ℤ
    unfolding file_score
    score q wanted s =
        if not (q.kind == 0) && not (q.kind == s.kind)
        then pos 0
        else if unwanted s.desc wanted
        then negsuc 0
        else if not (is_uri s.location.uri)
        then pos 0
        else pos (file_score q s (uri_to_path parse_url s.location.uri))
