-- ===== src/References/PackageLevel/Walk.antt =====
-- langserver/references.go, findReferencesPkgLevel: which identifiers its walks over a syntax tree
-- send.
use go_langserver.References.PackageLevel.{imported_as, TokenPosition}
use go_langserver.References.Syntax.{
  Ident, Node, Children, ident, selector, other, childless, child, inspect, inspect_children,
}
use mathlib.Core.List.{map-append}
use go_langserver.References.PackageLevel.{
  visit_user, visit_definer, imported_as, is_none, same_object, same_position,
}
use go_langserver.Common.{
  Bool, Bool-cases, Bytes, List, [], ap, append-nil, beq, false, filter, filter-append, inl, inr,
  map, not, refl, sym, true, ℕ, ◌&&◌, ◌++◌, ◌∙◌, ◌∷◌, ◌≡◌,
}

-- The identifiers of a tree, and its selector expressions on an identifier, each in the order in which
-- they are met.
unfoldable mutual
  pub idents : Node → List Ident
  idents (ident i) = i ∷ []
  idents (selector x sel) = idents x ++ sel ∷ []
  idents (other ns) = idents_of ns

  pub idents_of : Children → List Ident
  idents_of childless = []
  idents_of (child n ns) = idents n ++ idents_of ns

unfoldable mutual
  pub selections : Node → List (Ident × Ident)
  selections (ident i) = []
  selections (selector (ident x) sel) = (x, sel) ∷ []
  selections (selector (selector y s) sel) = selections (selector y s)
  selections (selector (other ns) sel) = selections_of ns
  selections (other ns) = selections_of ns

  pub selections_of : Children → List (Ident × Ident)
  selections_of childless = []
  selections_of (child n ns) = selections n ++ selections_of ns

abbrev selects : Bytes → List Bytes → Ident × Ident → Bool
selects name pkgnames (x, sel) = beq sel.name name && imported_as pkgnames x.name

abbrev pub selected : Bytes → List Bytes → List (Ident × Ident) → List Ident
selected name pkgnames xs = map (λ (s : Ident × Ident). s.1) (filter (selects name pkgnames) xs)

selected-append :
    (name : Bytes) (pkgnames : List Bytes) (xs ys : List (Ident × Ident))
    → selected name pkgnames (xs ++ ys) ≡ selected name pkgnames xs ++ selected name pkgnames ys
selected-append name pkgnames xs ys =
    ap (map (λ (s : Ident × Ident). s.1)) (filter-append (selects name pkgnames) xs ys)
    ∙ map-append _ (filter (selects name pkgnames) xs) (filter (selects name pkgnames) ys)

mutual
  unfolding inspect visit_user selections

  inspect-selected :
      (name : Bytes) (pkgnames : List Bytes) (n : Node)
      → inspect (visit_user name pkgnames false) n ≡ selected name pkgnames (selections n)
  inspect-selected name pkgnames (ident i) = refl
  inspect-selected name pkgnames (selector (ident x) sel) =
      elim (Bool-cases (selects name pkgnames (x, sel))) [ inl e ↦ rw e | inr e ↦ rw e ]
  inspect-selected name pkgnames (selector (selector y s) sel) =
      append-nil _ ∙ inspect-selected name pkgnames (selector y s)
  inspect-selected name pkgnames (selector (other ns) sel) =
      append-nil _ ∙ inspect_children-selected name pkgnames ns
  inspect-selected name pkgnames (other ns) = inspect_children-selected name pkgnames ns

  inspect_children-selected :
      (name : Bytes) (pkgnames : List Bytes) (ns : Children)
      → inspect_children (visit_user name pkgnames false) ns
        ≡ selected name pkgnames (selections_of ns)
  inspect_children-selected name pkgnames childless = refl
  inspect_children-selected name pkgnames (child n ns) =
      rw (inspect-selected name pkgnames n, inspect_children-selected name pkgnames ns)
        (sym (selected-append name pkgnames (selections n) (selections_of ns)))

module _ (visit : Node → List Ident × Bool) (p : Ident → Bool) where
  -- Only identifiers are sent, and nothing else stops the walk.
  abbrev SendsOnly : Type 0
  SendsOnly =
      ((i : Ident) → (visit (ident i)).0 ≡ filter p (i ∷ []))
      × ((x : Node) (sel : Ident) → visit (selector x sel) ≡ ([], true))
      × ((ns : Children) → visit (other ns) ≡ ([], true))

  mutual
    unfolding inspect idents

    inspect_filtered : SendsOnly → (n : Node) → inspect visit n ≡ filter p (idents n)
    inspect_filtered h (ident i) = h.0 i
    inspect_filtered h (selector x sel) =
        rw (h.1 x sel, h.0 sel, inspect_filtered h x) (sym (filter-append p (idents x) (sel ∷ [])))
    inspect_filtered h (other ns) = rw (h.2 ns) (inspect_filtered_of h ns)

    inspect_filtered_of :
        SendsOnly → (ns : Children) → inspect_children visit ns ≡ filter p (idents_of ns)
    inspect_filtered_of h childless = refl
    inspect_filtered_of h (child n ns) =
        rw (inspect_filtered h n, inspect_filtered_of h ns)
          (sym (filter-append p (idents n) (idents_of ns)))

abbrev pub unresolved : Bytes → Ident → Bool
unresolved name i = is_none i.obj && beq i.name name

abbrev pub another_use : ℕ → TokenPosition → Ident → Bool
another_use pkgobj objpos i = same_object i.obj pkgobj && not (same_position objpos i.pos)

visit_user_dot : (name : Bytes) → SendsOnly (visit_user name [] true) (unresolved name)
unfolding visit_user
visit_user_dot name = (each, through, λ ns. refl)
  where
    each : (i : Ident) → (visit_user name [] true (ident i)).0 ≡ filter (unresolved name) (i ∷ [])
    each i = elim (Bool-cases (unresolved name i)) [ inl e ↦ rw e | inr e ↦ rw e ]

    through : (x : Node) (sel : Ident) → visit_user name [] true (selector x sel) ≡ ([], true)
    through (ident x) sel = elim (Bool-cases (beq sel.name name)) [ inl e ↦ rw e | inr e ↦ rw e ]
    through (selector y s) sel = refl
    through (other ns) sel = refl

visit_definer_only :
    (pkgobj : ℕ) (objpos : TokenPosition)
    → SendsOnly (visit_definer pkgobj objpos) (another_use pkgobj objpos)
unfolding visit_definer
visit_definer_only pkgobj objpos = (each, λ x sel. refl, λ ns. refl)
  where
    each :
        (i : Ident)
        → (visit_definer pkgobj objpos (ident i)).0 ≡ filter (another_use pkgobj objpos) (i ∷ [])
    each i = elim (Bool-cases (another_use pkgobj objpos i)) [ inl e ↦ rw e | inr e ↦ rw e ]

-- What the walks of findReferencesPkgLevel send for a tree, each in the order of the tree. Where the
-- package is imported under names only: the names selected from one of them that are the object's.
-- Where it is imported by a dot only: every identifier of the object's name that the parser has not
-- resolved, the name behind the dot of a selector expression included. In the query package: every
-- identifier that resolves to the object, save the one at the object's own position.
pub inspect-visit :
    (name : Bytes) (pkgnames : List Bytes) (pkgobj : ℕ) (objpos : TokenPosition) (n : Node)
    → (inspect (visit_user name pkgnames false) n ≡ selected name pkgnames (selections n))
      × (inspect (visit_user name [] true) n ≡ filter (unresolved name) (idents n))
      × (inspect (visit_definer pkgobj objpos) n ≡ filter (another_use pkgobj objpos) (idents n))
inspect-visit name pkgnames pkgobj objpos n = (
  inspect-selected name pkgnames n,
  inspect_filtered _ _ (visit_user_dot name) n,
  inspect_filtered _ _ (visit_definer_only pkgobj objpos) n,
)
