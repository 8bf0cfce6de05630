-- ===== src/Completion.antt =====
-- langserver/completion.go: the items made from what gocode suggests. The suggestions, the first group
-- of funcArgsRegexp and fmt's `%d` are parameters.
pub mod Client
pub mod Snippets
pub mod Examples
use go_langserver.Common.{
  Bool, Bytes, List, Option, [], any, beq, codes, has_prefix, if◌then◌else◌, none, some, suc, zero,
  ℕ, ◌&&◌, ◌++◌, ◌+◌, ◌==◌, ◌∷◌,
}
use go_langserver.Common.Int.{ℤ, pos, ◌-ℤ◌}
use go_langserver.Lsp.{Position, Range, TextEdit}

-- The kinds of pkg/lsp/service.go that occur; 0 is none.
abbrev pub CompletionItemKind : Type 0
CompletionItemKind = ℕ

abbrev pub cik_function : CompletionItemKind
cik_function = 3

abbrev pub cik_variable : CompletionItemKind
cik_variable = 6

abbrev pub cik_class : CompletionItemKind
cik_class = 7

abbrev pub cik_module : CompletionItemKind
cik_module = 9

abbrev pub cik_constant : CompletionItemKind
cik_constant = 21

-- CIKConstantSupported, which the program shares, after `reset`: the value set of the client may name
-- constants, and nothing puts it back.
unfoldable pub constant_supported :
    CompletionItemKind → List CompletionItemKind → CompletionItemKind
constant_supported constant value_set =
    if any (λ k. k == cik_constant) value_set then cik_constant else constant

pub data InsertTextFormat : Type 0 where
  itf_plain_text itf_snippet : InsertTextFormat

-- A suggestion of gocode.
pub record Candidate : Type 0 where
  pub class : Bytes
  pub name : Bytes
  pub type : Bytes

pub record CompletionItem : Type 0 where
  pub label : Bytes
  pub kind : CompletionItemKind
  pub detail : Bytes
  pub insert_text_format : InsertTextFormat
  pub insert_text : Bytes
  pub text_edit : TextEdit

-- The switch over the class; `constant` is CIKConstantSupported.
unfoldable pub kind_of : CompletionItemKind → Bytes → CompletionItemKind
kind_of constant class =
    if beq class (codes "const")
    then constant
    else if beq class (codes "func")
    then cik_function
    else if beq class (codes "import")
    then cik_module
    else if beq class (codes "package")
    then cik_module
    else if beq class (codes "type")
    then cik_class
    else if beq class (codes "var")
    then cik_variable
    else 0

-- strings.Split(s, ", "), where `skip` bytes of a separator are still to be passed over.
unfoldable pub split_args : ℕ → Bytes → Bytes → List Bytes
split_args skip cur [] = cur ∷ []
split_args (suc skip) cur (c ∷ s) = split_args skip cur s
split_args zero cur (c ∷ s) =
    let behind = split_args 1 [] s in
    let longer = split_args 0 (cur ++ c ∷ []) s in
    if has_prefix (c ∷ s) (codes ", ") then cur ∷ behind else longer

-- strings.Join(args, ", ")
unfoldable pub join_args : List Bytes → Bytes
join_args [] = []
join_args (a ∷ []) = a
join_args (a ∷ b ∷ args) = a ++ (codes ", " ++ join_args (b ∷ args))

-- strings.Replace(a, "}", "\\}", -1)
unfoldable pub escape : Bytes → Bytes
escape [] = []
escape (c ∷ a) = if c == b'}' then b'\\' ∷ b'}' ∷ escape a else c ∷ escape a

module _ (func_args : Bytes → Option Bytes) (decimal : ℕ → Bytes) where
  unfoldable pub parse_func_args : Bytes → List Bytes
  unfolding split_args
  parse_func_args def = elim (func_args def) [ none ↦ [] | some args ↦ split_args 0 [] args ]

  -- The loop of genSnippetArgs, from the argument with the number `n`.
  unfoldable pub gen_snippet_args : ℕ → List Bytes → List Bytes
  unfolding escape
  gen_snippet_args n [] = []
  gen_snippet_args n (a ∷ args) =
      (codes "${" ++ (decimal n ++ (codes ":" ++ (escape a ++ codes "}"))))
      ∷ gen_snippet_args (n + 1) args

  -- getNewText; `snippets` is the configuration's flag together with the client's.
  unfoldable pub get_new_text : Bool → CompletionItemKind → Bytes → Bytes → InsertTextFormat × Bytes
  unfolding parse_func_args gen_snippet_args join_args
  get_new_text snippets kind name detail =
      if snippets && kind == cik_function
      then (
        itf_snippet,
        name
            ++ (codes "("
                ++ (join_args (gen_snippet_args 1 (parse_func_args detail)) ++ codes ")$0")),
      )
      else (itf_plain_text, name)

  -- The loop of handleTextDocumentCompletion; `rangelen` is what gocode found to be typed already.
  unfoldable pub completion_item :
      Bool → CompletionItemKind → Position → ℤ → Candidate → CompletionItem
  unfolding kind_of get_new_text
  completion_item snippets constant position rangelen it =
      let kind = kind_of constant it.class in
      let (itf, new_text) = get_new_text snippets kind it.name it.type in
      record {
        label = it.name;
        kind = kind;
        detail = it.type;
        insert_text_format = itf;
        insert_text = new_text;
        text_edit = record {
          range = record {
            start = record { line = position.line; character = position.character -ℤ rangelen };
            end = position;
          };
          new_text = new_text;
        };
      }
