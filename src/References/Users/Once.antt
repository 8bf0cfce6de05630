-- ===== src/References/Users/Once.antt =====
-- langserver/references.go: each package is searched once.
use go_langserver.References.Users.{Graphs, Round, users_of, references_loop, mem, take_unseen}
use mathlib.Core.Bool.{true≢false, false≢true}
use mathlib.Core.Path.{subst}
use go_langserver.Common.{
  All, Bool, Bool-cases, Bytes, Distinct, Distinct-append, In, In-append_cases, In-append_left,
  In-append_right, List, Option, [], append-nil, arith, beq, beq→eq, eq→beq, false, inl, inr,
  length, none, refl, sym, true, ◌++◌, ◌==◌, ◌↔◌, ◌∙◌, ◌∷◌, ◌≡◌, ◌⊎◌,
}

abbrev pub concat : {A : Type 0} → List (List A) → List A
concat [] = []
concat (xs ∷ xss) = xs ++ concat xss

mem-In : (u : Bytes) (seen : List Bytes) → mem u seen ≡ true → In u seen
mem-In u [] h = absurd (false≢true h)
mem-In u (s ∷ seen) h = elim (Bool-cases (beq s u)) [
  | inl e ↦ inl (sym (beq→eq s u e))
  | inr e ↦ inr (mem-In u seen (rw e at h))
]

mem-not_In : (u : Bytes) (seen : List Bytes) → mem u seen ≡ false → In u seen → ⊥
mem-not_In u [] h i = i
mem-not_In u (s ∷ seen) h (inl e) = true≢false (sym (eq→beq s u (sym e)) ∙ first)
  where
    first : beq s u ≡ false
    first = ground arith
mem-not_In u (s ∷ seen) h (inr i) = mem-not_In u seen rest i
  where
    rest : mem u seen ≡ false
    rest = ground arith

-- What one round takes from the users, and what it marks.
abbrev Takes : List Bytes → List Bytes → List Bytes × List Bytes → Type 0
Takes users seen (unseen, seen') =
    Distinct unseen
    × ((x : Bytes) → In x unseen → (In x seen → ⊥) × In x users)
    × ((x : Bytes) → In x users → In x unseen ⊎ In x seen)
    × ((x : Bytes) → In x seen' ↔ (In x unseen ⊎ In x seen))

take_unseen-Takes : (users seen : List Bytes) → Takes users seen (take_unseen users seen)
unfolding take_unseen
take_unseen-Takes [] seen =
    (tt, λ x i. absurd i, λ x i. absurd i, λ x. (inr, λ e. elim e [ inl i ↦ absurd i | inr i ↦ i ]))
take_unseen-Takes (u ∷ us) seen = elim (Bool-cases (mem u seen)) [
  | inl e ↦ rw e (known e (take_unseen us seen) (take_unseen-Takes us seen))
  | inr e ↦ rw e (fresh e (take_unseen us (u ∷ seen)) (take_unseen-Takes us (u ∷ seen)))
]
  where
    known :
        mem u seen ≡ true → (r : List Bytes × List Bytes) → Takes us seen r → Takes (u ∷ us) seen r
    known e (unseen, seen') (d, k, l, m) = (
      d,
      λ x i. ((k x i).0, inr ((k x i).1)),
      λ x i. elim i [
        | inl q ↦ inr (subst (λ z. In z seen) (sym q) (mem-In u seen e))
        | inr j ↦ l x j
      ],
      m,
    )

    fresh :
        mem u seen ≡ false
        → (r : List Bytes × List Bytes) → Takes us (u ∷ seen) r
        → Takes (u ∷ us) seen (u ∷ r.0, r.1)
    fresh e (unseen, seen') (d, k, l, m) = (
      (λ i. (k u i).0 (inl refl), d),
      λ x i. elim i [
        | inl q ↦ (λ j. mem-not_In u seen e (subst (λ z. In z seen) q j), inl q)
        | inr j ↦ (λ s. (k x j).0 (inr s), inr ((k x j).1))
      ],
      λ x i. elim i [
        | inl q ↦ inl (inl q)
        | inr j ↦ elim (l x j) [
          | inl a ↦ inl (inr a)
          | inr b ↦ elim b [ inl q ↦ inl (inl q) | inr s ↦ inr s ]
        ]
      ],
      λ x. (
        λ i. elim ((m x).0 i) [
          | inl a ↦ inl (inr a)
          | inr b ↦ elim b [ inl q ↦ inl (inl q) | inr s ↦ inr s ]
        ],
        λ i. (m x).1 (elim i [
          | inl a ↦ elim a [ inl q ↦ inr (inl q) | inr b ↦ inl b ]
          | inr s ↦ inr (inr s)
        ]),
      ),
    )

length_none : (xs : List Bytes) → (length xs == 0) ≡ true → xs ≡ []
length_none [] h = refl
length_none (x ∷ xs) h = absurd (ground arith)

module _ (G : Graphs) (pkg_level : Bool) (defpkg : Bytes) {E : Type 0} where
  abbrev users : Round G E → List Bytes
  users r = users_of G pkg_level defpkg r.graph

  -- What a run of the loop searches, from what has been seen before it.
  Searches : List Bytes → List (Round G E) → List (List Bytes) → Type 0
  Searches seen rs batches =
      Distinct (concat batches)
      × ((x : Bytes)
          → In x (concat batches)
          → (In x seen → ⊥) × ((r : Round G E) × In r rs × In x (users r)))
      × (All (λ (r : Round G E). r.canceled ≡ false) rs
          → (r : Round G E) → In r rs
          → (x : Bytes) → In x (users r)
          → In x (concat batches) ⊎ In x seen)

  -- A round that finds nothing new.
  skipped_round :
      (seen : List Bytes) (r : Round G E) (rs : List (Round G E)) (t : List Bytes × List Bytes)
      (batches : List (List Bytes))
      → Takes (users r) seen t
      → t.0 ≡ []
      → Searches t.1 rs batches
      → Searches seen (r ∷ rs) batches
  unfolding Searches
  skipped_round seen r rs (unseen, seen') batches (d, k, l, m) none_left (a, b, c) = (
    a,
    λ x i.
        let (new, found) = b x i in
        let (q, j, u) = found in (λ s. new ((m x).1 (inr s)), (q, inr j, u)),
    λ all q j x u. elim j [
      | inl e ↦ elim (l x (subst (λ z. In x (users z)) e u)) [
        | inl i ↦ absurd (subst (In x) none_left i)
        | inr s ↦ inr s
      ]
      | inr j' ↦ elim (c (all.1) q j' x u) [
        | inl i ↦ inl i
        | inr s ↦ elim ((m x).0 s) [ inl i ↦ absurd (subst (In x) none_left i) | inr s' ↦ inr s' ]
      ]
    ],
  )

  canceled_round :
      (seen : List Bytes) (r : Round G E) (rs : List (Round G E)) (t : List Bytes × List Bytes)
      → Takes (users r) seen t
      → r.canceled ≡ true
      → Searches seen (r ∷ rs) (t.0 ∷ [])
  unfolding Searches
  canceled_round seen r rs (unseen, seen') (d, k, l, m) stop = (
    subst Distinct (sym (append-nil unseen)) d,
    λ x i.
        let i' : In x unseen = subst (In x) (append-nil unseen) i in
        ((k x i').0, (r, inl refl, (k x i').1)),
    λ all q j x u. absurd (true≢false (sym stop ∙ all.0)),
  )

  searched_round :
      (seen : List Bytes) (r : Round G E) (rs : List (Round G E)) (t : List Bytes × List Bytes)
      (batches : List (List Bytes))
      → Takes (users r) seen t
      → Searches t.1 rs batches
      → Searches seen (r ∷ rs) (t.0 ∷ batches)
  unfolding Searches
  searched_round seen r rs (unseen, seen') batches (d, k, l, m) (a, b, c) = (
    Distinct-append unseen (concat batches) d a (λ x i j. (b x j).0 ((m x).1 (inl i))),
    λ x i. elim (In-append_cases x unseen (concat batches) i) [
      | inl j ↦ ((k x j).0, (r, inl refl, (k x j).1))
      | inr j ↦
          let (new, found) = b x j in
          let (q, j', u) = found in (λ s. new ((m x).1 (inr s)), (q, inr j', u))
    ],
    λ all q j x u. elim j [
      | inl e ↦ elim (l x (subst (λ z. In x (users z)) e u)) [
        | inl i ↦ inl (In-append_left x unseen (concat batches) i)
        | inr s ↦ inr s
      ]
      | inr j' ↦ elim (c (all.1) q j' x u) [
        | inl i ↦ inl (In-append_right x unseen (concat batches) i)
        | inr s ↦ elim ((m x).0 s) [
          | inl i ↦ inl (In-append_left x unseen (concat batches) i)
          | inr s' ↦ inr s'
        ]
      ]
    ],
  )

  stopped :
      (seen : List Bytes) (e : Option E) (r : Round G E) (rs : List (Round G E))
      → (length (take_unseen (users r) seen).0 == 0) ≡ false
      → r.canceled ≡ true
      → (references_loop G pkg_level defpkg seen e (r ∷ rs)).0 ≡ (take_unseen (users r) seen).0 ∷ []
  unfolding references_loop
  stopped seen e r rs n c = simp (n, c)

  goes_on :
      (seen : List Bytes) (e : Option E) (r : Round G E) (rs : List (Round G E))
      → (length (take_unseen (users r) seen).0 == 0) ≡ false
      → r.canceled ≡ false
      → (references_loop G pkg_level defpkg seen e (r ∷ rs)).0
        ≡ (take_unseen (users r) seen).0
          ∷ (references_loop G pkg_level defpkg (take_unseen (users r) seen).1 r.error rs).0
  unfolding references_loop
  goes_on seen e r rs n c = simp (n, c)

  references_loop-Searches :
      (rs : List (Round G E)) (seen : List Bytes) (e : Option E)
      → Searches seen rs (references_loop G pkg_level defpkg seen e rs).0
  unfolding references_loop
  references_loop-Searches [] seen e = unfold Searches in (tt, λ x i. absurd i, λ all r i. absurd i)
  references_loop-Searches (r ∷ rs) seen e =
      let t = take_unseen (users r) seen in
      elim (Bool-cases (length t.0 == 0)) [
        | inl none_left ↦ rw none_left (
            skipped_round seen r rs t _ (take_unseen-Takes (users r) seen)
              (length_none t.0 none_left) (references_loop-Searches rs t.1 e))
        | inr some_left ↦ elim (Bool-cases r.canceled) [
          | inl stop ↦
              subst (Searches seen (r ∷ rs)) (sym (stopped seen e r rs some_left stop))
                (canceled_round seen r rs t (take_unseen-Takes (users r) seen) stop)
          | inr go ↦ subst (Searches seen (r ∷ rs)) (sym (goes_on seen e r rs some_left go)) (
              searched_round seen r rs t _ (take_unseen-Takes (users r) seen)
                (references_loop-Searches rs t.1 r.error))
        ]
      ]

  -- Over the import graphs that it receives, the search takes no package twice, takes none that is not
  -- a user of the object's package in one of the graphs, and, where the context is not canceled, takes
  -- every such user.
  pub references_loop_once :
      (rs : List (Round G E))
      → Distinct (concat (references_loop G pkg_level defpkg [] none rs).0)
        × ((x : Bytes)
            → In x (concat (references_loop G pkg_level defpkg [] none rs).0)
            → (r : Round G E) × In r rs × In x (users_of G pkg_level defpkg r.graph))
        × (All (λ (r : Round G E). r.canceled ≡ false) rs
            → (r : Round G E) → In r rs
            → (x : Bytes) → In x (users_of G pkg_level defpkg r.graph)
            → In x (concat (references_loop G pkg_level defpkg [] none rs).0))
  unfolding Searches
  references_loop_once rs =
      let (a, b, c) = references_loop-Searches rs [] none in
      (a, λ x i. (b x i).1, λ all r i x u. elim (c all r i x u) [ inl j ↦ j | inr s ↦ absurd s ])
