-- ===== src/Symbol/Results/Examples.antt =====
-- langserver/symbol.go: the theorems on scores, their order and the results, with an insertion sort.
use go_langserver.Common.{
  All, All-map, Bool-cases, Bytes, In, List, [], beq, codes, contains, false, has_prefix,
  if◌then◌else◌, inl, inr, length, lower, none, refl, to_lower, trim_prefix, true, ℕ, ◌∷◌, ◌≡◌, ◌⊎◌,
}
use go_langserver.Common.Int.{pos, ltb_ℤ}
use go_langserver.Util.{is_uri, uri_to_path, is_vendor_dir}
use go_langserver.Overlay.Examples.{plain_url, main_go}
use go_langserver.Symbol.Query.{Query, in_dir, sk_function}
use go_langserver.Symbol.Examples.{print_desc}
use go_langserver.Symbol.Score.{SymbolPair, score, file_score, tokens_score, token_score, boost}
use go_langserver.Symbol.Results.{ScoredSymbol, less, search_results}
use go_langserver.Symbol.Results.Order.{less_trans, less_irrefl}
use go_langserver.Symbol.Results.Best.{Ordered, scored, search_results_best}

abbrev pub pair_named : Bytes → SymbolPair
pair_named name = record {
  name = name;
  kind = sk_function;
  location = record {
    uri = main_go;
    range = record {
      start = record { line = pos 0; character = pos 0 };
      end = record { line = pos 0; character = pos 0 };
    };
  };
  container_name = [];
  desc = print_desc;
}

-- A stand-in for path.Base, for names without a slash.
abbrev pub plain_base : Bytes → Bytes
plain_base s = trim_prefix s (codes "/")

abbrev pub run_query : Query
run_query = record { kind = 0; filter = in_dir; file = []; dir = []; tokens = codes "run" ∷ [] }

abbrev ranked : ℕ → Bytes → ScoredSymbol
ranked n name = record { score = pos n; pair = pair_named name }

abbrev third : ScoredSymbol
third = ranked 3 (codes "c")

third_first : less third third ≡ false
third_first = less_irrefl third

abbrev insert : ScoredSymbol → List ScoredSymbol → List ScoredSymbol
insert x [] = x ∷ []
insert x (y ∷ l) = let rest = insert x l in if less x y then x ∷ y ∷ l else y ∷ rest

abbrev insertion_sort : List ScoredSymbol → List ScoredSymbol
insertion_sort [] = []
insertion_sort (x ∷ l) = insert x (insertion_sort l)

not_less : (x y z : ScoredSymbol) → less x y ≡ true → less z y ≡ false → less z x ≡ false
not_less x y z h k = elim (Bool-cases (less z x)) [
  | inl e ↦ absurd (cc (less_trans z x y e h, k))
  | inr e ↦ e
]

less_asym : (x y : ScoredSymbol) → less x y ≡ true → less y x ≡ false
less_asym x y h = not_less x y y h (less_irrefl y)

All-insert :
    (P : ScoredSymbol → Type 0) (x : ScoredSymbol) (l : List ScoredSymbol)
    → P x
    → All P l
    → All P (insert x l)
All-insert P x [] p h = (p, tt)
All-insert P x (y ∷ l) p (q, h) = elim (Bool-cases (less x y)) [
  | inl e ↦ rw e (p, (q, h))
  | inr e ↦ rw e (q, All-insert P x l p h)
]

insert-Ordered : (x : ScoredSymbol) (l : List ScoredSymbol) → Ordered l → Ordered (insert x l)
insert-Ordered x [] o = (tt, tt)
insert-Ordered x (y ∷ l) (h, o) = elim (Bool-cases (less x y)) [
  | inl e ↦ rw e (
    (
      less_asym x y e,
      All-map (λ z. less z y ≡ false) (λ z. less z x ≡ false) l (λ z k. not_less x y z e k) h,
    ),
    (h, o),
  )
  | inr e ↦ rw e (All-insert (λ z. less z y ≡ false) x l e h, insert-Ordered x l o)
]

insertion_sort-Ordered : (l : List ScoredSymbol) → Ordered (insertion_sort l)
insertion_sort-Ordered [] = tt
insertion_sort-Ordered (x ∷ l) = insert-Ordered x (insertion_sort l) (insertion_sort-Ordered l)

In-insert_first : (x y : ScoredSymbol) (l : List ScoredSymbol) → x ≡ y → In x (insert y l)
In-insert_first x y [] e = inl e
In-insert_first x y (z ∷ l) e = elim (Bool-cases (less y z)) [
  | inl f ↦ rw f (inl e)
  | inr f ↦ rw f (inr (In-insert_first x y l e))
]

In-insert : (x y : ScoredSymbol) (l : List ScoredSymbol) → In x l → In x (insert y l)
In-insert x y [] i = absurd i
In-insert x y (z ∷ l) (inl e) = elim (Bool-cases (less y z)) [
  | inl f ↦ rw f (inr (inl e))
  | inr f ↦ rw f (inl e)
]
In-insert x y (z ∷ l) (inr i) = elim (Bool-cases (less y z)) [
  | inl f ↦ rw f (inr (inr i))
  | inr f ↦ rw f (inr (In-insert x y l i))
]

In-insertion_sort : (l : List ScoredSymbol) (x : ScoredSymbol) → In x l → In x (insertion_sort l)
In-insertion_sort (y ∷ l) x (inl e) = In-insert_first x y (insertion_sort l) e
In-insertion_sort (y ∷ l) x (inr i) = In-insert x y (insertion_sort l) (In-insertion_sort l x i)
In-insertion_sort [] x i = absurd i

abbrev two_symbols : List SymbolPair
two_symbols = pair_named (codes "Runner") ∷ pair_named (codes "run") ∷ []

abbrev shown : List ScoredSymbol
shown = search_results plain_base plain_url insertion_sort run_query none (pos 1) two_symbols

runner_scores :
    ltb_ℤ (pos 0) (score plain_base plain_url run_query none (pair_named (codes "Runner"))) ≡ true
unfolding score file_score tokens_score token_score boost beq has_prefix contains is_uri uri_to_path
    trim_prefix to_lower lower is_vendor_dir
runner_scores = refl

search_results_best_example :
    In (scored plain_base plain_url run_query none (pair_named (codes "Runner"))) shown
    ⊎ (pos (length shown) ≡ pos 1)
      × All
          (λ (r : ScoredSymbol).
            less (scored plain_base plain_url run_query none (pair_named (codes "Runner"))) r
            ≡ false)
          shown
search_results_best_example =
    search_results_best plain_base plain_url insertion_sort insertion_sort-Ordered In-insertion_sort
      run_query none (pos 1) two_symbols (pair_named (codes "Runner")) (inl refl) runner_scores
