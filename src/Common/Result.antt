-- ===== src/Common/Result.antt =====
-- The outcome of a Go function that returns an error or panics.
use mathlib.Core.Path.{◌≡◌, refl}
use go_langserver.Common.{inl, inr, ◌⊎◌}

pub data Result {ℓ κ} (E : Type κ) (A : Type ℓ) : Type (ℓ ⊔ κ) where
  ok : A → Result E A
  err : E → Result E A
  panics : Result E A

infixl 5 ◌>>=◌
abbrev pub ◌>>=◌ {ℓ κ} :
    {E : Type κ} {A : Type ℓ} {B : Type ℓ} → Result E A → (A → Result E B) → Result E B
ok a >>= f = f a
err e >>= f = err e
panics >>= f = panics

-- A chain that succeeds has succeeded at each step.
pub >>=-ok {ℓ κ} :
    {E : Type κ} {A B : Type ℓ} {r : B} (x : Result E A) (next : A → Result E B)
    → (x >>= next) ≡ ok r
    → (v : A) × (x ≡ ok v) × (next v ≡ ok r)
>>=-ok panics next e = cc
>>=-ok (err why) next e = cc
>>=-ok (ok v) next e = (v, refl, e)

pub Result-cases {ℓ κ} :
    {E : Type κ} {A : Type ℓ} (r : Result E A)
    → ((a : A) × (r ≡ ok a)) ⊎ ((e : E) × (r ≡ err e)) ⊎ (r ≡ panics)
Result-cases (ok a) = inl (a, refl)
Result-cases (err e) = inr (inl (e, refl))
Result-cases panics = inr (inr refl)
