-- ===== src/WorkspaceRefs/Chosen.antt =====
-- langserver/workspace_refs.go: the packages whose references count.
use go_langserver.Util.{Os, path_equal}
use go_langserver.WorkspaceRefs.{DefPackage, is_hinted, choose_packages}
use mathlib.Core.Path.{subst}
use go_langserver.Common.{
  Bool, Bool-cases, Bytes, In, List, Option, [], any, arith, beq, beq_self, beq→eq, codes, false,
  if◌then◌else◌, inl, inr, none, refl, some, sym, true, ◌++◌, ◌↔◌, ◌∷◌, ◌≡◌, ◌≢◌, ◌⊎◌,
}

any_iff :
    {A : Type 0} (p : A → Bool) (l : List A) → (any p l ≡ true) ↔ ((x : A) × In x l × (p x ≡ true))
any_iff p [] = (λ e. cc, λ (x, i, e). absurd i)
any_iff {A = A} p (y ∷ l) = (there (any_iff p l), back (any_iff p l))
  where
    there :
        ((any p l ≡ true) ↔ ((x : A) × In x l × (p x ≡ true)))
        → any p (y ∷ l) ≡ true
        → ((x : A) × In x (y ∷ l) × (p x ≡ true))
    there (to, from) h = elim (Bool-cases (p y)) [
      | inl e ↦ (y, inl refl, e)
      | inr e ↦ let (x, i, q) = to (ground (arith, h, e)) in (x, inr i, q)
    ]

    back :
        ((any p l ≡ true) ↔ ((x : A) × In x l × (p x ≡ true)))
        → ((x : A) × In x (y ∷ l) × (p x ≡ true))
        → any p (y ∷ l) ≡ true
    back f (x, inl e, q) = let q' = subst (λ z. p z ≡ true) e q in rw q' refl
    back (to, from) (x, inr i, q) = let q' = from (x, i, q) in ground (arith, q')

pub member_iff : (s : Bytes) (l : List Bytes) → (any (beq s) l ≡ true) ↔ In s l
member_iff s l = (
  λ h. let (x, i, e) = (any_iff (beq s) l).0 h in subst (λ z. In z l) (sym (beq→eq s x e)) i,
  λ i. (any_iff (beq s) l).1 (s, i, beq_self s),
)

pub Option-cases : {A : Type 0} (o : Option A) → (o ≡ none) ⊎ ((x : A) × (o ≡ some x))
Option-cases none = inl refl
Option-cases (some x) = inr (x, refl)

-- A hint, if there is one, names the directory.
abbrev pub IsHinted : Os → Option (List Bytes) → Bytes → Type 0
IsHinted os none dir = Unit
IsHinted os (some dirs) dir = (d : Bytes) × In d dirs × (path_equal os dir d ≡ true)

is_hinted-IsHinted :
    (os : Os) (dirs : Option (List Bytes)) (dir : Bytes)
    → (is_hinted os dirs dir ≡ true) ↔ IsHinted os dirs dir
is_hinted-IsHinted os none dir = (λ e. tt, λ u. refl)
is_hinted-IsHinted os (some dirs) dir = any_iff (path_equal os dir) dirs

module _ (os : Os) (find : Bytes → Option DefPackage) (dirs : Option (List Bytes)) where
  -- The import path of a package that is found and hinted, or of its external tests.
  abbrev pub IsOfInterest : List Bytes → Bytes → Type 0
  IsOfInterest pkgs path =
      (pkg : Bytes) × (bpkg : DefPackage) × In pkg pkgs
      × (find pkg ≡ some bpkg)
      × IsHinted os dirs bpkg.dir
      × ((path ≡ bpkg.import_path) ⊎ (path ≡ bpkg.import_path ++ codes "_test"))

  abbrev chosen : List Bytes → List Bytes × List Bytes
  chosen pkgs = choose_packages os find dirs pkgs

  chosen_not :
      (pkg : Bytes) (pkgs : List Bytes) → find pkg ≡ none → chosen (pkg ∷ pkgs) ≡ chosen pkgs
  unfolding choose_packages
  chosen_not pkg pkgs e = rw (e, choose_packages)

  chosen_by_hint :
      (pkg : Bytes) (pkgs : List Bytes) (b : DefPackage)
      → find pkg ≡ some b
      → chosen (pkg ∷ pkgs) ≡ (
          if is_hinted os dirs b.dir
          then (
            pkg ∷ (chosen pkgs).0,
            b.import_path ∷ (b.import_path ++ codes "_test") ∷ (chosen pkgs).1,
          )
          else chosen pkgs)
  unfolding choose_packages
  chosen_by_hint pkg pkgs b e = rw (e, choose_packages)

  IsOfInterest-back :
      (pkg : Bytes) (pkgs : List Bytes) (path : Bytes)
      → IsOfInterest pkgs path
      → IsOfInterest (pkg ∷ pkgs) path
  IsOfInterest-back pkg pkgs path (q, b, i, e, h, n) = (q, b, inr i, e, h, n)

  -- The second part of what choose_packages returns lists the paths of interest.
  pub chosen-IsOfInterest :
      (pkgs : List Bytes) (path : Bytes) → In path (chosen pkgs).1 → IsOfInterest pkgs path
  unfolding choose_packages
  chosen-IsOfInterest [] path i = absurd i
  chosen-IsOfInterest (pkg ∷ pkgs) path i = elim (Option-cases (find pkg)) [
    | inl e ↦
        IsOfInterest-back pkg pkgs path
          (chosen-IsOfInterest pkgs path (subst (λ c. In path c.1) (chosen_not pkg pkgs e) i))
    | inr (b, e) ↦
        at_package (chosen-IsOfInterest pkgs path) b e (is_hinted os dirs b.dir) refl
          (subst (λ c. In path c.1) (chosen_by_hint pkg pkgs b e) i)
  ]
    where
      at_package :
          (In path (chosen pkgs).1 → IsOfInterest pkgs path)
          → (b : DefPackage) → find pkg ≡ some b
          → (hinted : Bool) → is_hinted os dirs b.dir ≡ hinted
          → In path
              (if hinted
                then (
                  pkg ∷ (chosen pkgs).0,
                  b.import_path ∷ (b.import_path ++ codes "_test") ∷ (chosen pkgs).1,
                )
                else chosen pkgs).1
          → IsOfInterest (pkg ∷ pkgs) path
      at_package rest b e true h (inl q) =
          (pkg, b, inl refl, e, (is_hinted-IsHinted os dirs b.dir).0 h, inl q)
      at_package rest b e true h (inr (inl q)) =
          (pkg, b, inl refl, e, (is_hinted-IsHinted os dirs b.dir).0 h, inr q)
      at_package rest b e true h (inr (inr j)) = IsOfInterest-back pkg pkgs path (rest j)
      at_package rest b e false h j = IsOfInterest-back pkg pkgs path (rest j)

  pub IsOfInterest-chosen :
      (pkgs : List Bytes) (path : Bytes)
      → IsOfInterest pkgs path
      → In path (chosen pkgs).1 × ((chosen pkgs).0 ≢ [])
  IsOfInterest-chosen [] path (q, b, i, e, h, n) = absurd i
  IsOfInterest-chosen (pkg ∷ pkgs) path (q, b, inl p, e, h, n) =
      let b_is = subst (λ z. find z ≡ some b) p e in
      rw (chosen_by_hint pkg pkgs b b_is, (is_hinted-IsHinted os dirs b.dir).1 h)
        (elim n [ inl k ↦ inl k | inr k ↦ inr (inl k) ], λ k. cc)
  IsOfInterest-chosen (pkg ∷ pkgs) path (q, b, inr i, e, h, n) =
      let (member, some_chosen) = IsOfInterest-chosen pkgs path (q, b, i, e, h, n) in
      elim (Option-cases (find pkg)) [
        | inl u ↦ rw (chosen_not pkg pkgs u) (member, some_chosen)
        | inr (c, u) ↦ elim (Bool-cases (is_hinted os dirs c.dir)) [
          | inl v ↦ rw (chosen_by_hint pkg pkgs c u, v) (inr (inr member), λ k. cc)
          | inr v ↦ rw (chosen_by_hint pkg pkgs c u, v) (member, some_chosen)
        ]
      ]
