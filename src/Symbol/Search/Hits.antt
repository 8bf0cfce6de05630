-- ===== src/Symbol/Search/Hits.antt =====
-- langserver/symbol.go: what the results of workspace/symbol are.
use go_langserver.Symbol.Query.{Query}
use go_langserver.Symbol.Descriptor.{DescriptorMap}
use go_langserver.Symbol.Score.{SymbolPair, score}
use go_langserver.Symbol.Results.{ScoredSymbol, collect, collect_all, cut_off}
use go_langserver.Symbol.Search.{
  SearchPaths, is_kept, is_searched, collect_from_pkg, search_packages, handle_symbol, ℤ, Os,
}
use mathlib.Core.Path.{subst}
use go_langserver.Common.Int.{ltb_ℤ, pos, pos_part, ℤ}
use go_langserver.Common.{
  Bool, Bool-cases, Bytes, In, In-append_cases, List, Option, Option-cases, [], ap, false, filter,
  inl, inr, length, map, refl, some, suc, sym, take, true, zero, ℕ, ◌&&◌, ◌∙◌, ◌∷◌, ◌≡◌, ◌⊎◌,
}

In-take : {A : Type 0} (n : ℕ) (x : A) (l : List A) → In x (take n l) → In x l
In-take zero x l i = absurd i
In-take (suc n) x [] i = absurd i
In-take (suc n) x (y ∷ l) (inl e) = inl e
In-take (suc n) x (y ∷ l) (inr i) = inr (In-take n x l i)

In-cut_off :
    (limit : ℤ) (x : ScoredSymbol) (l : List ScoredSymbol) → In x (cut_off limit l) → In x l
unfolding cut_off
In-cut_off limit x l i = elim (Bool-cases (ltb_ℤ limit (pos (length l)) && ltb_ℤ (pos 0) limit)) [
  | inl e ↦ In-take (pos_part limit) x l (rw e at i)
  | inr e ↦ rw e at i
]

In-filter :
    {A : Type 0} (p : A → Bool) (x : A) (l : List A) → In x (filter p l) → In x l × (p x ≡ true)
In-filter p x [] i = absurd i
In-filter p x (y ∷ l) i = elim (Bool-cases (p y)) [
  | inl e ↦ elim (rw e at i) [
    | inl q ↦ (inl q, ap p q ∙ e)
    | inr j ↦ let (k, h) = In-filter p x l j in (inr k, h)
  ]
  | inr e ↦ let (k, h) = In-filter p x l (rw e at i) in (inr k, h)
]

In-map_pair :
    (s : SymbolPair) (l : List ScoredSymbol)
    → In s (map (λ (x : ScoredSymbol). x.pair) l)
    → (x : ScoredSymbol) × In x l × (s ≡ x.pair)
In-map_pair s [] i = absurd i
In-map_pair s (y ∷ l) (inl e) = (y, inl refl, e)
In-map_pair s (y ∷ l) (inr i) = let (x, j, e) = In-map_pair s l i in (x, inr j, e)

module _ (base : Bytes → Bytes) (parse_url : Bytes → Option Bytes) (q : Query)
    (wanted : Option DescriptorMap) where
  -- A scored symbol that was there before or has been collected.
  Collected : List SymbolPair → ScoredSymbol → Type 0
  Collected symbols x =
      In x.pair symbols × (ltb_ℤ (pos 0) (score base parse_url q wanted x.pair) ≡ true)

  collect_cases :
      (x : ScoredSymbol) (s : SymbolPair) (results : List ScoredSymbol)
      → In x (collect base parse_url q wanted results s)
      → In x results ⊎ (x.pair ≡ s) × (ltb_ℤ (pos 0) (score base parse_url q wanted s) ≡ true)
  unfolding collect
  collect_cases x s results i =
      elim (Bool-cases (ltb_ℤ (pos 0) (score base parse_url q wanted s))) [
        | inl e ↦ elim (In-append_cases x results _ (rw e at i)) [
          | inl j ↦ inl j
          | inr (inl p) ↦ inr (ap (λ (y : ScoredSymbol). y.pair) p, e)
          | inr (inr j) ↦ absurd j
        ]
        | inr e ↦ inl (rw e at i)
      ]

  collect_all_cases :
      (x : ScoredSymbol) (symbols : List SymbolPair) (results : List ScoredSymbol)
      → In x (collect_all base parse_url q wanted results symbols)
      → In x results ⊎ Collected symbols x
  unfolding collect_all Collected
  collect_all_cases x [] results i = inl i
  collect_all_cases x (s ∷ symbols) results i =
      elim (collect_all_cases x symbols (collect base parse_url q wanted results s) i) [
        | inl j ↦ elim (collect_cases x s results j) [
          | inl k ↦ inl k
          | inr (e, h) ↦
              inr (inl e, ap (λ y. ltb_ℤ (pos 0) (score base parse_url q wanted y)) e ∙ h)
        ]
        | inr (j, h) ↦ inr (inr j, h)
      ]

  module _ (os : Os) (c : SearchPaths) (cached : Bytes → Option (List SymbolPair)) where
    -- A symbol of a package of the list that the query admits, exported where the query wants that,
    -- with a positive score.
    abbrev pub IsHit : List (Bytes × Bool) → SymbolPair → Type 0
    IsHit pkgs s =
        (pkg : Bytes) × (symbols : List SymbolPair) × In (pkg, false) pkgs
        × (is_searched os c q pkg ≡ true)
        × (cached pkg ≡ some symbols)
        × In s symbols
        × (is_kept q.filter s ≡ true)
        × (ltb_ℤ (pos 0) (score base parse_url q wanted s) ≡ true)

    from_pkg_cases :
        (x : ScoredSymbol) (pkg : Bytes) (results : List ScoredSymbol)
        → In x (collect_from_pkg base parse_url os c cached q wanted pkg results)
        → In x results
          ⊎ ((symbols : List SymbolPair) × (cached pkg ≡ some symbols)
              × In x.pair symbols
              × (is_kept q.filter x.pair ≡ true)
              × (ltb_ℤ (pos 0) (score base parse_url q wanted x.pair) ≡ true))
    unfolding collect_from_pkg Collected
    from_pkg_cases x pkg results i = elim (Option-cases (cached pkg)) [
      | inl e ↦ inl (rw (e, collect_from_pkg) at i)
      | inr (symbols, e) ↦
          elim (collect_all_cases x (filter (is_kept q.filter) symbols) results
            (rw (e, collect_from_pkg) at i)) [
              | inl j ↦ inl j
              | inr (j, h) ↦
                  let (k, m) = In-filter (is_kept q.filter) x.pair symbols j in
                  inr (symbols, e, k, m, h)
            ]
    ]

    search_cases :
        (x : ScoredSymbol) (pkgs : List (Bytes × Bool)) (results : List ScoredSymbol)
        → In x (search_packages base parse_url os c cached q wanted pkgs results)
        → In x results ⊎ IsHit pkgs x.pair
    unfolding search_packages
    search_cases x [] results i = inl i
    search_cases x ((pkg, true) ∷ pkgs) results i = elim (Bool-cases (is_searched os c q pkg)) [
      | inl e ↦ inl (rw e at i)
      | inr e ↦ elim (search_cases x pkgs results (rw e at i)) [
        | inl j ↦ inl j
        | inr (p, symbols, j, h0, h1, h2, h3, h4) ↦ inr (p, symbols, inr j, h0, h1, h2, h3, h4)
      ]
    ]
    search_cases x ((pkg, false) ∷ pkgs) results i = elim (Bool-cases (is_searched os c q pkg)) [
      | inl e ↦ elim (search_cases x pkgs _ (rw e at i)) [
        | inl j ↦ elim (from_pkg_cases x pkg results j) [
          | inl k ↦ inl k
          | inr (symbols, f, k, m, h) ↦ inr (pkg, symbols, inl refl, e, f, k, m, h)
        ]
        | inr (p, symbols, j, h0, h1, h2, h3, h4) ↦ inr (p, symbols, inr j, h0, h1, h2, h3, h4)
      ]
      | inr e ↦ elim (search_cases x pkgs results (rw e at i)) [
        | inl j ↦ inl j
        | inr (p, symbols, j, h0, h1, h2, h3, h4) ↦ inr (p, symbols, inr j, h0, h1, h2, h3, h4)
      ]
    ]

    -- If sort.Sort makes up no element, every result of handleSymbol is a symbol of a package under the
    -- root that was looked at before the context was canceled, with a path that the file and the
    -- directory of the query admit; it is exported if the query asks for that, and has a positive score.
    pub handle_symbol-IsHit :
        (sort : List ScoredSymbol → List ScoredSymbol)
        → ((l : List ScoredSymbol) (x : ScoredSymbol) → In x (sort l) → In x l)
        → (limit : ℤ) (pkgs : List (Bytes × Bool)) (s : SymbolPair)
        → In s (handle_symbol base parse_url os c cached q wanted sort limit pkgs)
        → IsHit pkgs s
    unfolding handle_symbol
    handle_symbol-IsHit sort keeps limit pkgs s i =
        let (x, j, e) = In-map_pair s _ i in
        elim (search_cases x pkgs [] (keeps _ x (In-cut_off limit x _ j))) [
          | inl k ↦ absurd k
          | inr h ↦ subst (IsHit pkgs) (sym e) h
        ]
