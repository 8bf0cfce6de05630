-- ===== src/Symbol/Examples.antt =====
-- langserver/symbol.go and lsp.go: the theorems on a query and on a descriptor.
use go_langserver.Common.{[], beq, codes, false, has_prefix, inl, inr, lower, refl, some, ◌∷◌, ◌≡◌}
use go_langserver.Common.Words.{is_space}
use go_langserver.Symbol.Query.{
  Query, in_dir, sk_function, keyword, is_delimiter, parse_query, query_string,
}
use go_langserver.Symbol.Query.Printed.{IsToken, IsCanonical}
use go_langserver.Symbol.Query.RoundTrip.{parse_query-query_string}
use go_langserver.Symbol.Descriptor.{
  SymbolDescriptor, DescriptorMap, text, null, wire, descriptor_contains, map_contains,
  map_contains-wire,
}

abbrev go_query : Query
go_query = record {
  kind = sk_function;
  filter = in_dir;
  file = [];
  dir = codes "cmd";
  tokens = codes "run" ∷ [];
}

run_IsToken : IsToken (codes "run")
unfolding is_space lower is_delimiter keyword beq has_prefix
run_IsToken = record {
  word = (cc, (refl, (refl, (refl, tt))), (refl, (refl, (refl, tt))));
  undelimited = (refl, (refl, (refl, tt)));
  no_keyword = refl;
  no_dir = refl;
  no_exported = cc;
}

go_query-IsCanonical : IsCanonical go_query
unfolding is_space lower
go_query-IsCanonical = record {
  kinds = inr (inr (inr (inr (inr (inl refl)))));
  no_file = refl;
  dirs = inl (refl, ((refl, refl), ((refl, refl), ((refl, refl), tt))));
  toks = (run_IsToken, tt);
}

parse_query-query_string_example : parse_query (query_string go_query) ≡ go_query
parse_query-query_string_example = parse_query-query_string go_query go_query-IsCanonical

abbrev pub print_desc : SymbolDescriptor
print_desc = record {
  package_path = codes "fmt";
  package_name = codes "fmt";
  recv = [];
  name = codes "Print";
  id = codes "fmt/-/Print";
  vendor = false;
}

abbrev wanted : DescriptorMap
wanted = (codes "name", text (codes "Print")) ∷ (codes "vendor", null) ∷ []

map_contains-wire_example :
    map_contains (wire print_desc) wanted ≡ some (descriptor_contains print_desc wanted)
map_contains-wire_example = map_contains-wire print_desc wanted
