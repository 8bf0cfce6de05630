-- ===== src/Symbol/Results/Order.antt =====
-- langserver/symbol.go: resultSorter.Less orders the results.
use go_langserver.Common.{
  Bool, Bytes, [], arith, beq, beq_iff, beq_self, false, if◌then◌else◌, refl, true, ◌∷◌, ◌≡◌,
}
use go_langserver.Common.Int.{ℤ, eqb_ℤ, ltb_ℤ}
use go_langserver.Symbol.Results.{ScoredSymbol, before, less}

before_trans : (s t u : Bytes) → before s t ≡ true → before t u ≡ true → before s u ≡ true
unfolding before
before_trans s [] u h k = ground arith
before_trans s (b ∷ t) [] h k = ground arith
before_trans [] (b ∷ t) (c ∷ u) h k = refl
before_trans (a ∷ s) (b ∷ t) (c ∷ u) h k = ground (arith, before_trans s t u)

before_irrefl : (s : Bytes) → before s s ≡ false
unfolding before
before_irrefl [] = refl
before_irrefl (a ∷ s) = ground (arith, before_irrefl s)

before_total : (s t : Bytes) → before s t ≡ false → before t s ≡ false → s ≡ t
unfolding before
before_total [] [] h k = refl
before_total [] (b ∷ t) h k = ground arith
before_total (a ∷ s) [] h k = ground arith
before_total (a ∷ s) (b ∷ t) h k = ground (arith, before_total s t)

-- One key after another: the first decides unless it is the same.
lex : Bytes → Bytes → Bool → Bool
lex s t rest = if beq s t then rest else before s t

lex_trans :
    (s t u : Bytes) (b c d : Bool)
    → (b ≡ true → c ≡ true → d ≡ true)
    → lex s t b ≡ true
    → lex t u c ≡ true
    → lex s u d ≡ true
unfolding lex
lex_trans s t u b c d f h k = ground (
  arith,
  f,
  beq_iff s t,
  beq_iff t u,
  beq_iff s u,
  before_trans s t u,
  before_irrefl s,
  before_irrefl t,
  before_irrefl u,
)

by_score : ℤ → ℤ → Bool → Bool
by_score x y rest = if eqb_ℤ x y then rest else ltb_ℤ y x

by_score_trans :
    (x y z : ℤ) (b c d : Bool)
    → (b ≡ true → c ≡ true → d ≡ true)
    → by_score x y b ≡ true
    → by_score y z c ≡ true
    → by_score x z d ≡ true
unfolding by_score
by_score_trans x y z b c d f h k = ground (arith, f)

-- Less is transitive.
pub less_trans : (i j k : ScoredSymbol) → less i j ≡ true → less j k ≡ true → less i k ≡ true
unfolding less lex by_score
less_trans i j k = by_score_trans i.score j.score k.score _ _ _ (
    lex_trans i.pair.container_name j.pair.container_name k.pair.container_name _ _ _ (
      lex_trans i.pair.name j.pair.name k.pair.name _ _ _
        (before_trans i.pair.location.uri j.pair.location.uri k.pair.location.uri)))

-- Two results of which neither is less than the other have the same score, container, name and URI.
pub less_total :
    (i j : ScoredSymbol)
    → less i j ≡ false
    → less j i ≡ false
    → (eqb_ℤ i.score j.score ≡ true)
      × (i.pair.container_name ≡ j.pair.container_name)
      × (i.pair.name ≡ j.pair.name)
      × (i.pair.location.uri ≡ j.pair.location.uri)
unfolding less
less_total i j h k = ground (
  arith,
  beq_iff i.pair.container_name j.pair.container_name,
  beq_iff j.pair.container_name i.pair.container_name,
  beq_iff i.pair.name j.pair.name,
  beq_iff j.pair.name i.pair.name,
  before_total i.pair.container_name j.pair.container_name,
  before_total i.pair.name j.pair.name,
  before_total i.pair.location.uri j.pair.location.uri,
)

pub less_irrefl : (i : ScoredSymbol) → less i i ≡ false
unfolding less
less_irrefl i =
    ground (
      arith,
      beq_self i.pair.container_name,
      beq_self i.pair.name,
      before_irrefl i.pair.location.uri,
    )
