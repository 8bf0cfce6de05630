-- ===== src/Symbol/Results/Best.antt =====
-- langserver/symbol.go: the results of a search are the best ones.
use go_langserver.Common.{
  All, All-In, Bool-cases, Bytes, In, In-append_left, In-append_right, List, Option, [], ap, arith,
  false, inl, inr, length, refl, suc, sym, take, true, zero, ℕ, ◌&&◌, ◌∙◌, ◌∷◌, ◌≡◌, ◌⊎◌,
}
use go_langserver.Common.Int.{ℤ, pos, ltb_ℤ, pos_part, negsuc}
use go_langserver.Symbol.Query.{Query}
use go_langserver.Symbol.Descriptor.{DescriptorMap}
use go_langserver.Symbol.Score.{SymbolPair, score}
use go_langserver.Symbol.Results.{ScoredSymbol, less, collect, collect_all, cut_off, search_results}

-- sort.Sort leaves no element behind one that it is less than.
abbrev pub Ordered : List ScoredSymbol → Type 0
Ordered [] = Unit
Ordered (y ∷ l) = All (λ z. less z y ≡ false) l × Ordered l

take_best :
    (n : ℕ) (x : ScoredSymbol) (l : List ScoredSymbol)
    → Ordered l
    → In x l
    → In x (take n l) ⊎ (length (take n l) ≡ n) × All (λ r. less x r ≡ false) (take n l)
take_best zero x l o i = inr (refl, tt)
take_best (suc n) x [] o i = absurd i
take_best (suc n) x (y ∷ l) (a, o) (inl e) = inl (inl e)
take_best (suc n) x (y ∷ l) (a, o) (inr i) = elim (take_best n x l o i) [
  | inl p ↦ inl (inr p)
  | inr (e, h) ↦ inr (ap suc e, (All-In (λ z. less z y ≡ false) x l a i, h))
]

cut_off_best :
    (limit : ℤ) (x : ScoredSymbol) (l : List ScoredSymbol)
    → Ordered l
    → In x l
    → In x (cut_off limit l)
      ⊎ (pos (length (cut_off limit l)) ≡ limit) × All (λ r. less x r ≡ false) (cut_off limit l)
unfolding cut_off
cut_off_best limit x l o i =
    elim (Bool-cases (ltb_ℤ limit (pos (length l)) && ltb_ℤ (pos 0) limit)) [
      | inl e ↦ rw e (elim (take_best (pos_part limit) x l o i) [
        | inl p ↦ inl p
        | inr (q, h) ↦ inr (ap pos q ∙ positive limit (length l) e, h)
      ])
      | inr e ↦ rw e (inl i)
    ]
  where
    positive : (n : ℤ) (k : ℕ) → (ltb_ℤ n (pos k) && ltb_ℤ (pos 0) n) ≡ true → pos (pos_part n) ≡ n
    positive (pos m) k h = refl
    positive (negsuc m) k h = ground arith

module _ (base : Bytes → Bytes) (parse_url : Bytes → Option Bytes) where
  abbrev pub scored : Query → Option DescriptorMap → SymbolPair → ScoredSymbol
  scored q wanted s = record { score = score base parse_url q wanted s; pair = s }

  In-collect_all :
      (q : Query) (wanted : Option DescriptorMap) (x : ScoredSymbol) (symbols : List SymbolPair)
      (results : List ScoredSymbol)
      → In x results
      → In x (collect_all base parse_url q wanted results symbols)
  unfolding collect_all collect
  In-collect_all q wanted x [] results i = i
  In-collect_all q wanted x (s ∷ symbols) results i =
      In-collect_all q wanted x symbols _
        (elim (Bool-cases (ltb_ℤ (pos 0) (score base parse_url q wanted s))) [
          | inl e ↦ rw (e, collect) (In-append_left x results _ i)
          | inr e ↦ rw (e, collect) i
        ])

  collected :
      (q : Query) (wanted : Option DescriptorMap) (s : SymbolPair) (symbols : List SymbolPair)
      (results : List ScoredSymbol)
      → In s symbols
      → ltb_ℤ (pos 0) (score base parse_url q wanted s) ≡ true
      → In (scored q wanted s) (collect_all base parse_url q wanted results symbols)
  unfolding collect_all collect
  collected q wanted s [] results i h = absurd i
  collected q wanted s (t ∷ symbols) results (inl e) h =
      In-collect_all q wanted (scored q wanted s) symbols _
        (rw (sym e) (rw (h, collect) (In-append_right (scored q wanted s) results _ (inl refl))))
  collected q wanted s (t ∷ symbols) results (inr i) h = collected q wanted s symbols _ i h

  -- A symbol with a positive score is among the results of a search, or the results are as many as
  -- the limit and the symbol is less than none of them, if sort.Sort keeps the elements of a list
  -- and leaves none behind one that it is less than.
  pub search_results_best :
      (sort : List ScoredSymbol → List ScoredSymbol)
      → ((l : List ScoredSymbol) → Ordered (sort l))
      → ((l : List ScoredSymbol) (x : ScoredSymbol) → In x l → In x (sort l))
      → (q : Query) (wanted : Option DescriptorMap) (limit : ℤ) (symbols : List SymbolPair)
        (s : SymbolPair)
      → In s symbols
      → ltb_ℤ (pos 0) (score base parse_url q wanted s) ≡ true
      → In (scored q wanted s) (search_results base parse_url sort q wanted limit symbols)
        ⊎ (pos (length (search_results base parse_url sort q wanted limit symbols)) ≡ limit)
          × All
              (λ r. less (scored q wanted s) r ≡ false)
              (search_results base parse_url sort q wanted limit symbols)
  unfolding search_results
  search_results_best sort ordered keeps q wanted limit symbols s i h =
      cut_off_best limit (scored q wanted s) _ (ordered _)
        (keeps _ _ (collected q wanted s symbols [] i h))
