-- ===== src/Implementation/Listed.antt =====
-- langserver/implementation.go: which methods implements lists.
use mathlib.Core.Path.{subst}
use go_langserver.Implementation.{
  TypeTheory, was_seen, put_first, shown_object, shown_objects, shown_in_order,
}
use go_langserver.Common.{
  Bool-cases, Distinct, In, List, Option, Option-cases, [], ap, arith, false, inl, inr, map, none,
  refl, some, sym, true, ℕ, ◌++◌, ◌==◌, ◌↔◌, ◌∙◌, ◌∷◌, ◌≡◌, ◌⊎◌,
}

module _ {T O M : Type 0} (w : TypeTheory T O M) where
  abbrev pub identities : List O → List ℕ
  identities os = map (λ (o : O). w.identity o) os

  was_seen-In : (seen : List ℕ) (o : O) → was_seen w seen o ≡ true → In (w.identity o) seen
  was_seen-In [] o h = cc
  was_seen-In (i ∷ is) o h = elim (Bool-cases (i == w.identity o)) [
    | inl e ↦ inl (ground arith)
    | inr e ↦ inr (was_seen-In is o (rw e at h))
  ]

  not_was_seen : (seen : List ℕ) (o : O) → was_seen w seen o ≡ false → In (w.identity o) seen → ⊥
  not_was_seen [] o h i = i
  not_was_seen (j ∷ is) o h (inl e) = ground arith
  not_was_seen (j ∷ is) o h (inr i) = not_was_seen is o (ground arith) i

  -- A method with this identity is in the method set of one of the types.
  abbrev pub FoundIn : M → List T → ℕ → Type 0
  FoundIn m ts i = (t : T) × In t ts × ((o : O) × (w.find_method m t ≡ some o) × (w.identity o ≡ i))

  -- What a loop shows and how `seen` grows.
  abbrev Shows : M → List T → List ℕ → List O × List ℕ → Type 0
  Shows m ts seen (os, seen') =
      Distinct (identities os)
      × ((i : ℕ) → In i (identities os) → In i seen → ⊥)
      × ((i : ℕ) → In i (identities os) → FoundIn m ts i)
      × ((i : ℕ) → FoundIn m ts i → In i (identities os) ⊎ In i seen)

  abbrev put_shown : Option O → List O × List ℕ → List O × List ℕ
  put_shown shown (os, seen) = (put_first w shown os, seen)

  shown_missing :
      (m : M) (t : T) (ts : List T) (seen : List ℕ)
      → w.find_method m t ≡ none
      → shown_objects w (some m) seen (t ∷ ts) ≡ shown_objects w (some m) seen ts
  unfolding shown_objects shown_object
  shown_missing m t ts seen e = simp (shown_objects, shown_object, e)

  shown_again :
      (m : M) (t : T) (ts : List T) (seen : List ℕ) (o : O)
      → w.find_method m t ≡ some o
      → was_seen w seen o ≡ true
      → shown_objects w (some m) seen (t ∷ ts) ≡ shown_objects w (some m) seen ts
  unfolding shown_objects shown_object
  shown_again m t ts seen o e h = simp (shown_objects, shown_object, e, h)

  shown_new :
      (m : M) (t : T) (ts : List T) (seen : List ℕ) (o : O)
      → w.find_method m t ≡ some o
      → was_seen w seen o ≡ false
      → shown_objects w (some m) seen (t ∷ ts)
        ≡ put_shown (some o) (shown_objects w (some m) (w.identity o ∷ seen) ts)
  unfolding shown_objects shown_object
  shown_new m t ts seen o e h = simp (shown_objects, shown_object, e, h)

  found_cases :
      (m : M) (t : T) (ts : List T) (i : ℕ)
      → FoundIn m (t ∷ ts) i
      → ((o : O) × (w.find_method m t ≡ some o) × (w.identity o ≡ i)) ⊎ FoundIn m ts i
  found_cases m t ts i (u, inl q, (o, e, h)) = inl (o, ap (w.find_method m) (sym q) ∙ e, h)
  found_cases m t ts i (u, inr j, o) = inr (u, j, o)

  found_later : (m : M) (t : T) (ts : List T) (i : ℕ) → FoundIn m ts i → FoundIn m (t ∷ ts) i
  found_later m t ts i (u, j, o) = (u, inr j, o)

  same_identity :
      (m : M) (t : T) (o o' : O)
      → w.find_method m t ≡ some o
      → w.find_method m t ≡ some o'
      → w.identity o ≡ w.identity o'
  same_identity m t o o' e e' = cc

  -- A round that shows nothing.
  round_skipped :
      (m : M) (t : T) (ts : List T) (seen : List ℕ) (r : List O × List ℕ)
      → ((o : O) → w.find_method m t ≡ some o → In (w.identity o) seen)
      → Shows m ts seen r
      → Shows m (t ∷ ts) seen r
  round_skipped m t ts seen (os, seen') h (d, n, f, c) = (
    d,
    n,
    λ i j. found_later m t ts i (f i j),
    λ i j. elim (found_cases m t ts i j) [
      | inl (o, e, q) ↦ inr (subst (λ x. In x seen) q (h o e))
      | inr k ↦ c i k
    ],
  )

  -- A round that shows an object.
  round_taken :
      (m : M) (t : T) (ts : List T) (seen : List ℕ) (o : O) (r : List O × List ℕ)
      → w.find_method m t ≡ some o
      → (In (w.identity o) seen → ⊥)
      → Shows m ts (w.identity o ∷ seen) r
      → Shows m (t ∷ ts) seen (put_shown (some o) r)
  round_taken m t ts seen o (os, seen') e fresh (d, n, f, c) = (
    (λ j. n (w.identity o) j (inl refl), d),
    λ i j s. elim j [ inl q ↦ fresh (subst (λ x. In x seen) q s) | inr k ↦ n i k (inr s) ],
    λ i j. elim j [ inl q ↦ (t, inl refl, (o, e, sym q)) | inr k ↦ found_later m t ts i (f i k) ],
    λ i j. elim (found_cases m t ts i j) [
      | inl (o', e', q) ↦ inl (inl (sym q ∙ same_identity m t o' o e' e))
      | inr k ↦ elim (c i k) [
        | inl l ↦ inl (inr l)
        | inr (inl q) ↦ inl (inl q)
        | inr (inr l) ↦ inr l
      ]
    ],
  )

  shown_objects-Shows :
      (m : M) (ts : List T) (seen : List ℕ) → Shows m ts seen (shown_objects w (some m) seen ts)
  unfolding shown_objects
  shown_objects-Shows m [] seen = (tt, λ i j. absurd j, λ i j. absurd j, λ i (t, j, o). absurd j)
  shown_objects-Shows m (t ∷ ts) seen = elim (Option-cases (w.find_method m t)) [
    | inl e ↦ subst (Shows m (t ∷ ts) seen) (sym (shown_missing m t ts seen e)) (
        round_skipped m t ts seen (shown_objects w (some m) seen ts) (λ o h. cc)
          (shown_objects-Shows m ts seen))
    | inr (o, e) ↦ elim (Bool-cases (was_seen w seen o)) [
      | inl h ↦ subst (Shows m (t ∷ ts) seen) (sym (shown_again m t ts seen o e h)) (
          round_skipped m t ts seen (shown_objects w (some m) seen ts)
            (λ o' e'. subst (λ x. In x seen) (same_identity m t o o' e e') (was_seen-In seen o h))
            (shown_objects-Shows m ts seen))
      | inr h ↦ subst (Shows m (t ∷ ts) seen) (sym (shown_new m t ts seen o e h)) (
          round_taken m t ts seen o (shown_objects w (some m) (w.identity o ∷ seen) ts) e
            (not_was_seen seen o h) (shown_objects-Shows m ts (w.identity o ∷ seen)))
    ]
  ]

  -- One list behind another continues with what has been seen.
  abbrev and_shown : List O → List O × List ℕ → List O × List ℕ
  and_shown os (os', seen) = (os ++ os', seen)

  put_shown-and_shown :
      (shown : Option O) (os : List O) (r : List O × List ℕ)
      → put_shown shown (and_shown os r) ≡ and_shown (put_first w shown os) r
  put_shown-and_shown none os r = refl
  put_shown-and_shown (some o) os r = refl

  shown_objects-append :
      (m : Option M) (seen : List ℕ) (ts us : List T)
      → shown_objects w m seen (ts ++ us)
        ≡ and_shown
            (shown_objects w m seen ts).0
            (shown_objects w m (shown_objects w m seen ts).1 us)
  unfolding shown_objects
  shown_objects-append m seen [] us = refl
  shown_objects-append m seen (t ∷ ts) us =
      let (shown, seen') = shown_object w m seen t in
      ap (λ (r : List O × List ℕ). put_shown shown r) (shown_objects-append m seen' ts us)
      ∙ put_shown-and_shown shown (shown_objects w m seen' ts).0
          (shown_objects w m (shown_objects w m seen' ts).1 us)

  abbrev pub all_shown : List O × List O × List O → List O
  all_shown (a, b, c) = a ++ (b ++ c)

  all_shown_lem :
      (m : Option M) (ts us vs : List T)
      → all_shown (shown_in_order w m ts us vs) ≡ (shown_objects w m [] (ts ++ (us ++ vs))).0
  unfolding shown_in_order
  all_shown_lem m ts us vs = rw (
    shown_objects-append m [] ts (us ++ vs),
    shown_objects-append m (shown_objects w m [] ts).1 us vs,
  )

  -- For a method, the three loops together show no method twice, and exactly those methods of its name
  -- that are in the method set of some type of the three lists.
  pub shown_in_order-Distinct :
      (m : M) (to from from_ptr : List T)
      → Distinct (identities (all_shown (shown_in_order w (some m) to from from_ptr)))
        × ((i : ℕ)
            → In i (identities (all_shown (shown_in_order w (some m) to from from_ptr)))
              ↔ FoundIn m (to ++ (from ++ from_ptr)) i)
  shown_in_order-Distinct m to from from_ptr =
      let (d, n, f, c) = shown_objects-Shows m (to ++ (from ++ from_ptr)) [] in
      rw (all_shown_lem (some m) to from from_ptr)
        (d, λ i. (f i, λ h. elim (c i h) [ inl j ↦ j | inr j ↦ absurd j ]))
