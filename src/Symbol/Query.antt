-- ===== src/Symbol/Query.antt =====
-- langserver/symbol.go: Query, ParseQuery and Query.String.
pub mod Printed
pub mod RoundTrip
use go_langserver.Common.{
  Bool, Bytes, List, Option, [], beq, codes, has_prefix, if◌then◌else◌, none, some, to_lower,
  trim_prefix, ℕ, ◌++◌, ◌==◌, ◌||◌, ◌∷◌,
}
use go_langserver.Common.Words.{fields, fields_func, trim_space}

-- pkg/lsp/service.go: the values of SymbolKind that a query or a symbol can have; 0 is none.
abbrev pub SymbolKind : Type 0
SymbolKind = ℕ

abbrev pub sk_package : SymbolKind
sk_package = 4

abbrev pub sk_class : SymbolKind
sk_class = 5

abbrev pub sk_method : SymbolKind
sk_method = 6

abbrev pub sk_field : SymbolKind
sk_field = 8

abbrev pub sk_function : SymbolKind
sk_function = 12

abbrev pub sk_variable : SymbolKind
sk_variable = 13

abbrev pub sk_constant : SymbolKind
sk_constant = 14

-- FilterType; the zero value "" is `unfiltered`.
pub data FilterType : Type 0 where
  unfiltered exported in_dir : FilterType

-- The Symbol field is in Symbol.Score, where it is used: a parsed query has none.
pub record Query : Type 0 where
  pub kind : SymbolKind
  pub filter : FilterType
  pub file : Bytes
  pub dir : Bytes
  pub tokens : List Bytes

unfoldable pub keywords : List (Bytes × SymbolKind)
keywords =
    (codes "package", sk_package)
    ∷ (codes "type", sk_class)
    ∷ (codes "method", sk_method)
    ∷ (codes "field", sk_field)
    ∷ (codes "func", sk_function)
    ∷ (codes "var", sk_variable)
    ∷ (codes "const", sk_constant)
    ∷ []

abbrev pub find_keyword : List (Bytes × SymbolKind) → Bytes → Option SymbolKind
find_keyword [] tok = none
find_keyword ((word, kind) ∷ rest) tok = if beq word tok then some kind else find_keyword rest tok

-- keywords[tok]
unfoldable pub keyword : Bytes → Option SymbolKind
unfolding keywords
keyword tok = find_keyword keywords tok

abbrev pub empty_query : Query
empty_query = record { kind = 0; filter = unfiltered; file = []; dir = []; tokens = [] }

-- `c == '.' || c == '/'`
unfoldable pub is_delimiter : ℕ → Bool
is_delimiter c = c == b'.' || c == b'/'

unfoldable pub add_token : Query → Bytes → Query
unfolding keyword
add_token qu tok = elim (keyword tok) [
  | some kind ↦ record qu { kind = kind }
  | none ↦ record qu { tokens = qu.tokens ++ tok ∷ [] }
]

unfoldable pub add_tokens : Query → List Bytes → Query
unfolding add_token
add_tokens qu [] = qu
add_tokens qu (tok ∷ toks) = add_tokens (add_token qu tok) toks

-- One round of the loop over the fields.
unfoldable pub add_field : Query → Bytes → Query
unfolding add_tokens is_delimiter
add_field qu field =
    if has_prefix field (codes "dir:")
    then record qu { filter = in_dir; dir = trim_prefix field (codes "dir:") }
    else if beq field (codes "is:exported")
    then record qu { filter = exported }
    else add_tokens qu (fields_func is_delimiter field)

unfoldable pub add_fields : Query → List Bytes → Query
unfolding add_field
add_fields qu [] = qu
add_fields qu (field ∷ rest) = add_fields (add_field qu field) rest

unfoldable pub parse_query : Bytes → Query
unfolding add_fields
parse_query q = add_fields empty_query (fields (to_lower q))

unfoldable pub query_join : Bytes → Bytes → Bytes
query_join s e = trim_space (s ++ (codes " " ++ e))

abbrev pub join_all : Bytes → List Bytes → Bytes
join_all s [] = s
join_all s (e ∷ es) = join_all (query_join s e) es

-- The keywords of a kind: the loop over the map, which has one word for a kind.
unfoldable pub kind_words : SymbolKind → List (Bytes × SymbolKind) → List Bytes
kind_words kind [] = []
kind_words kind ((word, k) ∷ rest) =
    let others = kind_words kind rest in if k == kind then word ∷ others else others

unfoldable pub filter_words : FilterType → Bytes → List Bytes
filter_words unfiltered dir = []
filter_words exported dir = codes "is:exported" ∷ []
filter_words in_dir dir = (codes "dir" ++ (codes ":" ++ dir)) ∷ []

-- Query.String
unfoldable pub query_string : Query → Bytes
unfolding query_join kind_words filter_words keywords
query_string q =
    let filtered = join_all [] (filter_words q.filter q.dir) in
    let kinded = join_all filtered (if q.kind == 0 then [] else kind_words q.kind keywords) in
    join_all kinded q.tokens
