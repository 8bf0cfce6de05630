-- ===== src/Symbol/Query/Printed.antt =====
-- langserver/symbol.go: the words that Query.String prints.
use mathlib.Core.Path.{ap₂}
use go_langserver.Common.{
  All, All-append, All-map, Bool, Bool-cases, Bytes, List, [], ap, append-nil, append_assoc, arith,
  codes, false, has_prefix, if◌then◌else◌, inl, inr, lower, none, refl, sym, to_lower, true, ℕ,
  ◌++◌, ◌==◌, ◌∙◌, ◌∷◌, ◌≡◌, ◌≢◌, ◌⊎◌,
}
use go_langserver.Common.Words.{
  is_space, fields, fields_from, fields_from_plain, fields_from_sep, fields-trim_space,
  All-trim_space,
}
use go_langserver.Symbol.Query.{
  Query, FilterType, unfiltered, exported, in_dir, SymbolKind, sk_package, sk_class, sk_method,
  sk_field, sk_function, sk_variable, sk_constant, keyword, keywords, is_delimiter, query_join,
  join_all, kind_words, filter_words, query_string,
}

-- A word that splitting and lower-casing leave alone.
abbrev pub IsWord : Bytes → Type 0
IsWord w = (w ≢ []) × All (λ c. is_space c ≡ false) w × All (λ c. lower c ≡ c) w

-- A token that ParseQuery keeps as it is.
pub record IsToken (tok : Bytes) : Type 0 where
  pub word : IsWord tok
  pub undelimited : All (λ c. is_delimiter c ≡ false) tok
  pub no_keyword : keyword tok ≡ none
  pub no_dir : has_prefix tok (codes "dir:") ≡ false
  pub no_exported : tok ≢ codes "is:exported"

-- No kind, or one of the kinds that have a keyword.
abbrev pub IsKind : SymbolKind → Type 0
IsKind kind =
    (kind ≡ 0)
    ⊎ (kind ≡ sk_package)
    ⊎ (kind ≡ sk_class)
    ⊎ (kind ≡ sk_method)
    ⊎ (kind ≡ sk_field)
    ⊎ (kind ≡ sk_function)
    ⊎ (kind ≡ sk_variable)
    ⊎ (kind ≡ sk_constant)

-- A query that stands for itself: no file, a directory only with its filter.
pub record IsCanonical (q : Query) : Type 0 where
  pub kinds : IsKind q.kind
  pub no_file : q.file ≡ []
  pub dirs :
      (q.filter ≡ in_dir) × All (λ c. (is_space c ≡ false) × (lower c ≡ c)) q.dir
      ⊎ (q.filter ≢ in_dir) × (q.dir ≡ [])
  pub toks : All IsToken q.tokens

abbrev Low : Bytes → Type 0
Low = All (λ c. lower c ≡ c)

to_lower-Low : (s : Bytes) → Low s → to_lower s ≡ s
unfolding to_lower
to_lower-Low [] h = refl
to_lower-Low (c ∷ s) (e, h) = ap₂ (λ a b. a ∷ b) e (to_lower-Low s h)

query_join-Low : (s e : Bytes) → Low s → Low e → Low (query_join s e)
unfolding query_join lower
query_join-Low s e h k =
    All-trim_space _ (s ++ (codes " " ++ e)) (All-append _ s (codes " " ++ e) h (refl, k))

fields_word : (w : Bytes) → IsWord w → fields w ≡ w ∷ []
unfolding fields
fields_word [] (ne, _, _) = absurd (ne refl)
fields_word (c ∷ w) (ne, plain, low) = fields_from_plain is_space [] (c ∷ w) plain

fields_space : (s e : Bytes) → fields (s ++ (codes " " ++ e)) ≡ fields s ++ fields e
unfolding fields is_space
fields_space s e = fields_from_sep is_space 32 s e [] refl

-- Joining a word adds it to the parts.
fields-query_join : (s e : Bytes) → IsWord e → fields (query_join s e) ≡ fields s ++ e ∷ []
unfolding query_join
fields-query_join s e w =
    fields-trim_space (s ++ (codes " " ++ e))
    ∙ (fields_space s e ∙ ap (λ r. fields s ++ r) (fields_word e w))

join_all-Low : (es : List Bytes) (s : Bytes) → Low s → All IsWord es → Low (join_all s es)
join_all-Low [] s h k = h
join_all-Low (e ∷ es) s h (w, k) = join_all-Low es (query_join s e) (query_join-Low s e h w.2) k

fields-join_all :
    (es : List Bytes) (s : Bytes) → All IsWord es → fields (join_all s es) ≡ fields s ++ es
fields-join_all [] s k = sym (append-nil (fields s))
fields-join_all (e ∷ es) s (w, k) =
    fields-join_all es (query_join s e) k
    ∙ (ap (λ r. r ++ es) (fields-query_join s e w) ∙ append_assoc (fields s) (e ∷ []) es)

-- The words that Query.String prints.
unfoldable pub kinded : SymbolKind → List Bytes
kinded kind = if kind == 0 then [] else kind_words kind keywords

unfoldable pub words : Query → List Bytes
unfolding kinded
words q = filter_words q.filter q.dir ++ (kinded q.kind ++ q.tokens)

abbrev all_plain : Bytes → Bool
all_plain [] = true
all_plain (c ∷ s) = if is_space c then false else if lower c == c then all_plain s else false

all_plain-All :
    (s : Bytes) → all_plain s ≡ true → All (λ c. is_space c ≡ false) s × All (λ c. lower c ≡ c) s
all_plain-All [] h = (tt, tt)
all_plain-All (c ∷ s) h =
    let rest : all_plain s ≡ true → All (λ c. is_space c ≡ false) s × All (λ c. lower c ≡ c) s =
      all_plain-All s in
    elim (Bool-cases (is_space c)) [
      | inl e ↦ absurd (ground arith)
      | inr e ↦ elim (Bool-cases (lower c == c)) [
        | inl f ↦
            let more : all_plain s ≡ true = ground arith in
            ((e, (rest more).0), (ground arith, (rest more).1))
        | inr f ↦ absurd (ground arith)
      ]
    ]

plain_IsWord : (c : ℕ) (s : Bytes) → all_plain (c ∷ s) ≡ true → IsWord (c ∷ s)
plain_IsWord c s h = let both = all_plain-All (c ∷ s) h in (cc, both.0, both.1)

exported_IsWord : IsWord (codes "is:exported")
unfolding is_space lower
exported_IsWord = plain_IsWord _ _ refl

dir_IsWord :
    (dir : Bytes)
    → All (λ c. (is_space c ≡ false) × (lower c ≡ c)) dir
    → IsWord (codes "dir" ++ (codes ":" ++ dir))
unfolding is_space lower
dir_IsWord dir h = (
  cc,
  (refl, (refl, (refl, (refl, All-map _ _ dir (λ c k. k.0) h)))),
  (refl, (refl, (refl, (refl, All-map _ _ dir (λ c k. k.1) h)))),
)

filter_IsWord : (q : Query) → IsCanonical q → All IsWord (filter_words q.filter q.dir)
unfolding filter_words
filter_IsWord q h = go q.filter h.dirs
  where
    go :
        (f : FilterType)
        → (f ≡ in_dir) × All (λ c. (is_space c ≡ false) × (lower c ≡ c)) q.dir
          ⊎ (f ≢ in_dir) × (q.dir ≡ [])
        → All IsWord (filter_words f q.dir)
    go unfiltered k = tt
    go exported k = (exported_IsWord, tt)
    go in_dir (inl (_, k)) = (dir_IsWord q.dir k, tt)
    go in_dir (inr (ne, _)) = absurd (ne refl)

kind_words-IsWord :
    (kind : SymbolKind) (l : List (Bytes × SymbolKind))
    → All (λ w. IsWord w.0) l
    → All IsWord (kind_words kind l)
unfolding kind_words
kind_words-IsWord kind [] h = tt
kind_words-IsWord kind ((w, k) ∷ l) (p, h) = elim (Bool-cases (k == kind)) [
  | inl e ↦ rw e (p, kind_words-IsWord kind l h)
  | inr e ↦ rw e (kind_words-IsWord kind l h)
]

keywords-IsWord : All (λ w. IsWord w.0) keywords
unfolding keywords is_space lower
keywords-IsWord = (
  plain_IsWord _ _ refl,
  (
    plain_IsWord _ _ refl,
    (
      plain_IsWord _ _ refl,
      (
        plain_IsWord _ _ refl,
        (plain_IsWord _ _ refl, (plain_IsWord _ _ refl, (plain_IsWord _ _ refl, tt))),
      ),
    ),
  ),
)

kinded-IsWord : (kind : SymbolKind) → All IsWord (kinded kind)
unfolding kinded
kinded-IsWord kind = elim (Bool-cases (kind == 0)) [
  | inl e ↦ rw e tt
  | inr e ↦ rw e (kind_words-IsWord kind keywords keywords-IsWord)
]

words-IsWord : (q : Query) → IsCanonical q → All IsWord (words q)
unfolding words
words-IsWord q h = All-append IsWord (filter_words q.filter q.dir) _ (filter_IsWord q h) (
    All-append IsWord (kinded q.kind) q.tokens (kinded-IsWord q.kind)
      (All-map IsToken IsWord q.tokens (λ t k. k.word) h.toks))

join_all-append :
    (xs ys : List Bytes) (s : Bytes) → join_all (join_all s xs) ys ≡ join_all s (xs ++ ys)
join_all-append [] ys s = refl
join_all-append (x ∷ xs) ys s = join_all-append xs ys (query_join s x)

query_string-words : (q : Query) → query_string q ≡ join_all [] (words q)
unfolding query_string words kinded
query_string-words q =
    join_all-append (kinded q.kind) q.tokens (join_all [] (filter_words q.filter q.dir))
    ∙ join_all-append (filter_words q.filter q.dir) (kinded q.kind ++ q.tokens) []

fields_nil : fields [] ≡ []
unfolding fields fields_from
fields_nil = refl

-- Splitting the printed query gives its words back.
pub fields-query_string : (q : Query) → IsCanonical q → fields (to_lower (query_string q)) ≡ words q
fields-query_string q h =
    ap (λ s. fields (to_lower s)) (query_string-words q)
    ∙ (ap fields (to_lower-Low _ (join_all-Low (words q) [] tt (words-IsWord q h)))
        ∙ (fields-join_all (words q) [] (words-IsWord q h) ∙ ap (λ r. r ++ words q) fields_nil))
