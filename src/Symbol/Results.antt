-- ===== src/Symbol/Results.antt =====
-- langserver/symbol.go: resultSorter and the end of handleSymbol, which orders the results and cuts
-- them off at the limit. sort.Sort is a parameter.
pub mod Order
pub mod Best
pub mod Examples
use go_langserver.Common.{
  Bool, Bytes, List, Option, [], beq, false, if◌then◌else◌, length, ltb, take, true, ◌&&◌, ◌++◌,
  ◌==◌, ◌∷◌,
}
use go_langserver.Common.Int.{ℤ, pos, negsuc, ltb_ℤ, eqb_ℤ, pos_part}
use go_langserver.Symbol.Query.{Query}
use go_langserver.Symbol.Descriptor.{DescriptorMap}
use go_langserver.Symbol.Score.{SymbolPair, score}

pub record ScoredSymbol : Type 0 where
  pub score : ℤ
  pub pair : SymbolPair

-- s < t, by bytes
unfoldable pub before : Bytes → Bytes → Bool
before s [] = false
before [] (b ∷ t) = true
before (a ∷ s) (b ∷ t) = if a == b then before s t else ltb a b

-- resultSorter.Less
unfoldable pub less : ScoredSymbol → ScoredSymbol → Bool
unfolding before
less i j =
    if eqb_ℤ i.score j.score
    then if beq i.pair.container_name j.pair.container_name
      then if beq i.pair.name j.pair.name
        then before i.pair.location.uri j.pair.location.uri
        else before i.pair.name j.pair.name
      else before i.pair.container_name j.pair.container_name
    else ltb_ℤ j.score i.score

module _ (base : Bytes → Bytes) (parse_url : Bytes → Option Bytes) where
  -- resultSorter.Collect
  unfoldable pub collect :
      Query → Option DescriptorMap → List ScoredSymbol → SymbolPair → List ScoredSymbol
  collect q wanted results s =
      let n = score base parse_url q wanted s in
      if ltb_ℤ (pos 0) n then results ++ record { score = n; pair = s } ∷ [] else results

  -- The symbols in the order in which they are collected.
  unfoldable pub collect_all :
      Query → Option DescriptorMap → List ScoredSymbol → List SymbolPair → List ScoredSymbol
  unfolding collect
  collect_all q wanted results [] = results
  collect_all q wanted results (s ∷ ss) = collect_all q wanted (collect q wanted results s) ss

-- `results.results[:limit]`, behind its test
unfoldable pub cut_off : ℤ → List ScoredSymbol → List ScoredSymbol
cut_off limit results =
    if ltb_ℤ limit (pos (length results)) && ltb_ℤ (pos 0) limit
    then take (pos_part limit) results
    else results

-- `if params.Limit == 0 { params.Limit = 50 }`
unfoldable pub default_limit : ℤ → ℤ
default_limit limit = if eqb_ℤ limit (pos 0) then pos 50 else limit

module _ (base : Bytes → Bytes) (parse_url : Bytes → Option Bytes) where
  -- The end of handleSymbol, from the symbols in the order in which they are collected.
  unfoldable pub search_results :
      (List ScoredSymbol → List ScoredSymbol)
      → Query
      → Option DescriptorMap
      → ℤ
      → List SymbolPair
      → List ScoredSymbol
  unfolding collect_all cut_off
  search_results sort q wanted limit symbols =
      cut_off limit (sort (collect_all base parse_url q wanted [] symbols))
