-- ===== src/DirectoryWalk/Pruned.antt =====
-- pkg/tools/buildutil.go: which directories the walk sends.
use mathlib.Core.Path.{subst}
use mathlib.Core.Bool.{true≢false}
use go_langserver.Common.{
  Bool, Bool-cases, Bytes, In, In-append_cases, In-append_left, In-append_right, List, [], ap, beq,
  beq_ne, codes, eq→beq, false, if◌then◌else◌, inl, inr, not, refl, sym, ◌||◌, ◌↔◌, ◌∙◌, ◌∷◌, ◌≡◌,
  ◌≢◌, ◌⊎◌,
}
use go_langserver.DirectoryWalk.{
  Dir, Dirs, dir, none_left, entry, is_avoided, pkg_of, walk_dir, walk_dirs, Os,
}

module _ (os : Os) (root : Bytes) where
  abbrev pub passed_over : Bytes → Bytes → Bool
  passed_over path base = is_avoided base || beq (pkg_of os root path) (codes "builtin")

  -- A directory of a tree is open if the walk passes over neither itself nor a directory on the way
  -- down to it.
  unfoldable mutual
    pub IsOpen : Bytes → Dir → Type 0
    IsOpen p (dir path base entries) =
        (passed_over path base ≡ false) × ((p ≡ path) ⊎ IsOpenIn p entries)

    pub IsOpenIn : Bytes → Dirs → Type 0
    IsOpenIn p none_left = ⊥
    IsOpenIn p (entry d ds) = IsOpen p d ⊎ IsOpenIn p ds

  -- The import path of an open directory other than the root.
  abbrev IsSent : Bytes → (Bytes → Type 0) → Type 0
  IsSent pkg Opened = (p : Bytes) × Opened p × (pkg_of os root p ≡ pkg) × (pkg ≢ [])

  own_name : Bytes → List Bytes
  own_name path = if not (beq (pkg_of os root path) []) then pkg_of os root path ∷ [] else []

  own_name-In :
      (path pkg : Bytes) → In pkg (own_name path) → (pkg_of os root path ≡ pkg) × (pkg ≢ [])
  unfolding own_name
  own_name-In path pkg i = elim (Bool-cases (beq (pkg_of os root path) [])) [
    | inl e ↦ absurd (rw e at i)
    | inr e ↦ elim (rw e at i) [
      | inl q ↦ (sym q, λ z. true≢false (sym (eq→beq (pkg_of os root path) [] (sym q ∙ z)) ∙ e))
      | inr j ↦ absurd j
    ]
  ]

  In-own_name : (path pkg : Bytes) → pkg_of os root path ≡ pkg → pkg ≢ [] → In pkg (own_name path)
  unfolding own_name
  In-own_name path pkg q n = rw (beq_ne (pkg_of os root path) [] (λ z. n (sym q ∙ z))) (inl (sym q))

  mutual
    unfolding walk_dir own_name IsOpen

    sent-IsOpen :
        (d : Dir) (pkg : Bytes) → In pkg (walk_dir os root d) → IsSent pkg (λ p. IsOpen p d)
    sent-IsOpen (dir path base entries) pkg i = elim (Bool-cases (passed_over path base)) [
      | inl e ↦ absurd (rw e at i)
      | inr e ↦ elim (In-append_cases pkg (own_name path) (walk_dirs os root entries) (rw e at i)) [
        | inl j ↦ let (q, n) = own_name-In path pkg j in (path, (e, inl refl), q, n)
        | inr j ↦ let (p, o, q, n) = sent-IsOpenIn entries pkg j in (p, (e, inr o), q, n)
      ]
    ]

    sent-IsOpenIn :
        (ds : Dirs) (pkg : Bytes) → In pkg (walk_dirs os root ds) → IsSent pkg (λ p. IsOpenIn p ds)
    sent-IsOpenIn none_left pkg i = absurd i
    sent-IsOpenIn (entry d ds) pkg i =
        elim (In-append_cases pkg (walk_dir os root d) (walk_dirs os root ds) i) [
          | inl j ↦ let (p, o, q, n) = sent-IsOpen d pkg j in (p, inl o, q, n)
          | inr j ↦ let (p, o, q, n) = sent-IsOpenIn ds pkg j in (p, inr o, q, n)
        ]

  mutual
    unfolding walk_dir own_name IsOpen

    IsOpen-sent :
        (d : Dir) (p : Bytes)
        → IsOpen p d
        → pkg_of os root p ≢ []
        → In (pkg_of os root p) (walk_dir os root d)
    IsOpen-sent (dir path base entries) p (e, inl q) n = rw e (
        In-append_left (pkg_of os root p) (own_name path) (walk_dirs os root entries)
          (In-own_name path (pkg_of os root p) (ap (pkg_of os root) (sym q)) n))
    IsOpen-sent (dir path base entries) p (e, inr o) n = rw e (
        In-append_right (pkg_of os root p) (own_name path) (walk_dirs os root entries)
          (IsOpenIn-sent entries p o n))

    IsOpenIn-sent :
        (ds : Dirs) (p : Bytes)
        → IsOpenIn p ds
        → pkg_of os root p ≢ []
        → In (pkg_of os root p) (walk_dirs os root ds)
    IsOpenIn-sent none_left p o n = absurd o
    IsOpenIn-sent (entry d ds) p (inl o) n =
        In-append_left (pkg_of os root p) (walk_dir os root d) (walk_dirs os root ds)
          (IsOpen-sent d p o n)
    IsOpenIn-sent (entry d ds) p (inr o) n =
        In-append_right (pkg_of os root p) (walk_dir os root d) (walk_dirs os root ds)
          (IsOpenIn-sent ds p o n)

  -- The walk from a directory sends an import path exactly if it is not empty and belongs to a
  -- directory of the tree that is neither avoided by its name, as .foo, _foo and testdata are, nor
  -- pruned as "builtin", nor lies below one that is.
  pub walk_dir-IsOpen :
      (d : Dir) (pkg : Bytes)
      → In pkg (walk_dir os root d)
        ↔ ((p : Bytes) × IsOpen p d × (pkg_of os root p ≡ pkg) × (pkg ≢ []))
  walk_dir-IsOpen d pkg = (
    sent-IsOpen d pkg,
    λ (p, o, q, n).
        subst (λ x. In x (walk_dir os root d)) q (IsOpen-sent d p o (λ z. n (sym q ∙ z))),
  )
