-- ===== src/Symbol/Search/Examples.antt =====
-- langserver/symbol.go: the theorem on a search for an exported function.
use go_langserver.Symbol.Search.Hits.{handle_symbol-IsHit, IsHit}
use go_langserver.Symbol.Search.{
  SearchPaths, is_exported, is_kept, is_searched, collect_from_pkg, search_packages, handle_symbol,
}
use go_langserver.Symbol.Results.Examples.{pair_named, plain_base, run_query}
use go_langserver.Symbol.Results.{collect, collect_all, cut_off}
use go_langserver.Symbol.Score.{SymbolPair, score, file_score, tokens_score, token_score, boost}
use go_langserver.Symbol.Query.{Query, exported}
use go_langserver.Overlay.Examples.{plain_url}
use go_langserver.Util.{other, is_uri, uri_to_path, is_vendor_dir}
use go_langserver.Common.Int.{pos}
use go_langserver.Common.{
  Bytes, In, List, Option, [], beq, codes, contains, false, has_prefix, inl, lower, none, refl,
  some, to_lower, trim_prefix, ◌∷◌,
}

abbrev no_paths : SearchPaths
no_paths = record { goroot = []; gopath = []; path_dir = λ p. p }

abbrev exported_query : Query
exported_query = record run_query { filter = exported }

-- Each package declares run and Run.
abbrev both_cases : Bytes → Option (List SymbolPair)
both_cases pkg = some (pair_named (codes "run") ∷ pair_named (codes "Run") ∷ [])

run_found : In (pair_named (codes "Run")) (
    handle_symbol plain_base plain_url other no_paths both_cases exported_query none
      (λ l. l)
      (pos 50)
      ((codes "m", false) ∷ []))
unfolding handle_symbol search_packages is_searched collect_from_pkg is_kept is_exported collect_all
    collect cut_off score file_score tokens_score token_score boost beq has_prefix contains is_uri
    uri_to_path trim_prefix to_lower lower is_vendor_dir
run_found = inl refl

handle_symbol-IsHit_example :
    IsHit plain_base plain_url exported_query none other no_paths both_cases
      ((codes "m", false) ∷ [])
      (pair_named (codes "Run"))
handle_symbol-IsHit_example =
    handle_symbol-IsHit plain_base plain_url exported_query none other no_paths both_cases (λ l. l)
      (λ l x i. i) (pos 50) ((codes "m", false) ∷ []) (pair_named (codes "Run")) run_found
