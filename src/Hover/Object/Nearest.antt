-- ===== src/Hover/Object/Nearest.antt =====
-- langserver/hover.go: which of the specs of a var or const block is shown.
use go_langserver.Hover.Target.{TokenPosition}
use go_langserver.Hover.Object.{ValueSpec, fmt_value, fmt_spec, distance, nearer, first_spec}
use mathlib.Core.Path.{subst}
use go_langserver.Common.{
  All, All-In, Bool, Bytes, In, List, [], arith, false, inl, refl, some, sym, ◌↔◌, ◌∷◌, ◌≡◌, ◌≤◌,
}

-- sort.Sort puts nothing in front of what is less than it.
abbrev pub FirstIsLeast : (ValueSpec → ValueSpec → Bool) → List ValueSpec → Type 0
FirstIsLeast less [] = Unit
FirstIsLeast less (x ∷ xs) = All (λ y. less y x ≡ false) xs

module _ (to_markdown : Bytes → Bytes) (target : TokenPosition) where
  near_itself : (x : ValueSpec) → nearer target x x ≡ false
  unfolding nearer
  near_itself x = ground arith

  near : (x y : ValueSpec) → nearer target y x ≡ false → distance target x ≤ distance target y
  unfolding nearer
  near x y h = ground arith

  -- Where sort.Sort by the distance leaves a nearest element in front and neither loses nor makes up an element, a
  -- declaration of values with some spec is shown by one of its own specs, and none of the others is
  -- nearer to the position than that one.
  fmt_value-nearest :
      (sort : (ValueSpec → ValueSpec → Bool) → List ValueSpec → List ValueSpec) (tok doc : Bytes)
      (spec : ValueSpec) (specs : List ValueSpec)
      → ((l : List ValueSpec) → FirstIsLeast (nearer target) (sort (nearer target) l))
      → ((l : List ValueSpec) (s : ValueSpec) → In s l ↔ In s (sort (nearer target) l))
      → (s : ValueSpec) × In s (spec ∷ specs)
        × (fmt_value to_markdown target sort tok doc (spec ∷ specs)
            ≡ some (fmt_spec to_markdown target tok doc s))
        × ((s' : ValueSpec) → In s' (spec ∷ specs) → distance target s ≤ distance target s')
  unfolding fmt_value
  fmt_value-nearest sort tok doc spec specs least same =
      from (sort (nearer target) (spec ∷ specs)) refl (least (spec ∷ specs))
    where
      from :
          (sorted : List ValueSpec)
          → sort (nearer target) (spec ∷ specs) ≡ sorted
          → FirstIsLeast (nearer target) sorted
          → (s : ValueSpec) × In s (spec ∷ specs)
            × (first_spec to_markdown target tok doc (sort (nearer target) (spec ∷ specs))
                ≡ some (fmt_spec to_markdown target tok doc s))
            × ((s' : ValueSpec) → In s' (spec ∷ specs) → distance target s ≤ distance target s')
      from [] e h = absurd (subst (In spec) e ((same (spec ∷ specs) spec).0 (inl refl)))
      from (x ∷ xs) e h = (
        x,
        (same (spec ∷ specs) x).1 (subst (In x) (sym e) (inl refl)),
        rw e,
        λ s' i. near x s' (
            All-In (λ y. nearer target y x ≡ false) s' (x ∷ xs) (near_itself x, h)
              (subst (In s') e ((same (spec ∷ specs) s').0 i))),
      )
