-- ===== src/Symbol/Query/RoundTrip.antt =====
-- langserver/symbol.go: ParseQuery after Query.String.
use go_langserver.Common.{
  All, Bytes, List, [], ap, append-nil, append_assoc, beq, beq_ne, codes, false, has_prefix,
  has_prefix-append, inl, inr, none, refl, some, sym, trim_prefix, trim_prefix-append, true, ◌++◌,
  ◌∙◌, ◌∷◌, ◌≡◌, ◌⊎◌,
}
use go_langserver.Common.Words.{fields_func, fields_from, fields_from_plain}
use go_langserver.Symbol.Query.{
  Query, FilterType, unfiltered, exported, in_dir, SymbolKind, keyword, empty_query, is_delimiter,
  add_token, add_tokens, add_field, add_fields, parse_query, kind_words, filter_words, query_string,
}
use go_langserver.Symbol.Query.Printed.{
  IsWord, IsToken, IsKind, IsCanonical, kinded, words, fields-query_string,
}

add_fields-append :
    (xs ys : List Bytes) (q : Query) → add_fields q (xs ++ ys) ≡ add_fields (add_fields q xs) ys
unfolding add_fields
add_fields-append [] ys q = refl
add_fields-append (x ∷ xs) ys q = add_fields-append xs ys (add_field q x)

add_token-plain :
    (q : Query) (tok : Bytes)
    → keyword tok ≡ none
    → add_tokens q (tok ∷ []) ≡ record q { tokens = q.tokens ++ tok ∷ [] }
unfolding add_tokens add_token beq
add_token-plain q tok h = rw h

undelimited :
    (tok : Bytes)
    → IsWord tok
    → All (λ c. is_delimiter c ≡ false) tok
    → fields_func is_delimiter tok ≡ tok ∷ []
unfolding fields_func
undelimited [] w h = absurd (w.0 refl)
undelimited (c ∷ s) w h = fields_from_plain is_delimiter [] (c ∷ s) h

add_field-token :
    (q : Query) (tok : Bytes)
    → IsToken tok
    → add_field q tok ≡ record q { tokens = q.tokens ++ tok ∷ [] }
unfolding add_field
add_field-token q tok h =
    rw (h.no_dir, beq_ne tok _ h.no_exported, undelimited tok h.word h.undelimited)
      (add_token-plain q tok h.no_keyword)

add_fields-tokens :
    (toks : List Bytes) (q : Query)
    → All IsToken toks
    → add_fields q toks ≡ record q { tokens = q.tokens ++ toks }
unfolding add_fields
add_fields-tokens [] q h = ap (λ l. record q { tokens = l }) (sym (append-nil q.tokens))
add_fields-tokens (tok ∷ toks) q (p, h) = rw (add_field-token q tok p) (
    add_fields-tokens toks (record q { tokens = q.tokens ++ tok ∷ [] }) h
    ∙ ap (λ l. record q { tokens = l }) (append_assoc q.tokens (tok ∷ []) toks))

add_keyword :
    (word : Bytes) (kind : SymbolKind) (q : Query)
    → has_prefix word (codes "dir:") ≡ false
    → beq word (codes "is:exported") ≡ false
    → fields_func is_delimiter word ≡ word ∷ []
    → keyword word ≡ some kind
    → add_fields q (word ∷ []) ≡ record q { kind = kind }
unfolding add_fields add_field add_tokens add_token beq
add_keyword word kind q d x f k = rw (d, x, f) (rw k)

add_fields-kinded :
    (kind : SymbolKind) (q : Query)
    → IsKind kind
    → q.kind ≡ 0
    → add_fields q (kinded kind) ≡ record q { kind = kind }
unfolding add_fields kinded kind_words keyword fields_func fields_from is_delimiter has_prefix beq
add_fields-kinded kind q (inl e) z = rw e (ap (λ k. record q { kind = k }) z)
add_fields-kinded kind q (inr (inl e)) z =
    rw e (add_keyword (codes "package") _ q refl refl refl refl)
add_fields-kinded kind q (inr (inr (inl e))) z =
    rw e (add_keyword (codes "type") _ q refl refl refl refl)
add_fields-kinded kind q (inr (inr (inr (inl e)))) z =
    rw e (add_keyword (codes "method") _ q refl refl refl refl)
add_fields-kinded kind q (inr (inr (inr (inr (inl e))))) z =
    rw e (add_keyword (codes "field") _ q refl refl refl refl)
add_fields-kinded kind q (inr (inr (inr (inr (inr (inl e)))))) z =
    rw e (add_keyword (codes "func") _ q refl refl refl refl)
add_fields-kinded kind q (inr (inr (inr (inr (inr (inr (inl e))))))) z =
    rw e (add_keyword (codes "var") _ q refl refl refl refl)
add_fields-kinded kind q (inr (inr (inr (inr (inr (inr (inr e))))))) z =
    rw e (add_keyword (codes "const") _ q refl refl refl refl)

trim_dir : (dir : Bytes) → trim_prefix (codes "dir" ++ (codes ":" ++ dir)) (codes "dir:") ≡ dir
trim_dir dir = trim_prefix-append (codes "dir:") dir

filtered : Query → Query
filtered q = record empty_query { filter = q.filter; dir = q.dir }

add_field-dir :
    (field dir : Bytes)
    → has_prefix field (codes "dir:") ≡ true
    → trim_prefix field (codes "dir:") ≡ dir
    → add_field empty_query field ≡ record empty_query { filter = in_dir; dir = dir }
unfolding add_field
add_field-dir field dir h k = rw (h, k)

add_fields-filter :
    (f : FilterType) (dir : Bytes)
    → (f ≡ in_dir) ⊎ (dir ≡ [])
    → add_fields empty_query (filter_words f dir) ≡ record empty_query { filter = f; dir = dir }
unfolding add_fields add_field filter_words has_prefix beq
add_fields-filter unfiltered dir (inl e) = absurd cc
add_fields-filter unfiltered dir (inr e) = rw e
add_fields-filter exported dir (inl e) = absurd cc
add_fields-filter exported dir (inr e) = rw e
add_fields-filter in_dir dir h =
    add_field-dir _ dir (has_prefix-append (codes "dir:") dir) (trim_dir dir)

dir_cases : (q : Query) → IsCanonical q → (q.filter ≡ in_dir) ⊎ (q.dir ≡ [])
dir_cases q h = elim h.dirs [ inl k ↦ inl k.0 | inr k ↦ inr k.1 ]

-- Parsing the words of a query one after the other gives the query.
add_fields-words : (q : Query) → IsCanonical q → add_fields empty_query (words q) ≡ q
unfolding words filtered
add_fields-words q h =
    add_fields-append (filter_words q.filter q.dir) (kinded q.kind ++ q.tokens) empty_query
    ∙ (add_fields-append (kinded q.kind) q.tokens _
        ∙ (ap (λ r. add_fields (add_fields r (kinded q.kind)) q.tokens)
              (add_fields-filter q.filter q.dir (dir_cases q h))
            ∙ (ap (λ r. add_fields r q.tokens) (add_fields-kinded q.kind (filtered q) h.kinds refl)
                ∙ (add_fields-tokens q.tokens (record (filtered q) { kind = q.kind }) h.toks
                    ∙ ap (λ f. record q { file = f }) (sym h.no_file)))))

-- Printing a query and parsing what was printed gives the query, where the query is one that
-- stands for itself.
pub parse_query-query_string : (q : Query) → IsCanonical q → parse_query (query_string q) ≡ q
unfolding parse_query
parse_query-query_string q h =
    ap (add_fields empty_query) (fields-query_string q h) ∙ add_fields-words q h
