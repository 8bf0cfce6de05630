-- ===== src/Implementation/Related.antt =====
-- langserver/implementation.go: which types implements finds.
use go_langserver.Implementation.{TypeTheory, RelatedTypes, relate, relate_all, nothing_related}
use mathlib.Core.Path.{subst}
use go_langserver.Common.{
  Bool, In, In-append_cases, In-append_left, In-append_right, List, [], append-nil, append_assoc,
  arith, false, inl, inr, not, refl, true, ◌&&◌, ◌++◌, ◌==◌, ◌↔◌, ◌∙◌, ◌∷◌, ◌≡◌, ◌⊎◌,
}

-- What one round adds to a list, from the tests on the two types.
abbrev to_added : {T : Type 0} → Bool → Bool → Bool → Bool → Bool → Bool → T → T → List T
to_added false iface wide same up pup u pu = []
to_added true true false same up pup u pu = []
to_added true true true true up pup u pu = []
to_added true true true false true pup u pu = u ∷ []
to_added true true true false false pup u pu = []
to_added true false wide same true pup u pu = u ∷ []
to_added true false wide same false true u pu = pu ∷ []
to_added true false wide same false false u pu = []

abbrev from_added : {T : Type 0} → Bool → Bool → Bool → Bool → Bool → T → List T
from_added iface_t wide_t false same down u = []
from_added iface_t wide_t true same false u = []
from_added false wide_t true same true u = u ∷ []
from_added true false true same true u = []
from_added true true true true true u = []
from_added true true true false true u = u ∷ []

abbrev ptr_added : {T : Type 0} → Bool → Bool → Bool → Bool → T → List T
ptr_added true wide_u down pdown u = []
ptr_added false false down pdown u = []
ptr_added false true true pdown u = []
ptr_added false true false true u = u ∷ []
ptr_added false true false false u = []

-- The same, as a predicate on a type x.
abbrev ToAdded : {T : Type 0} → Bool → Bool → Bool → Bool → Bool → Bool → T → T → T → Type 0
ToAdded wide_t iface_u wide_u same up pup u pu x =
    (wide_t ≡ true)
    × ((x ≡ u) × (up ≡ true) × ((iface_u ≡ false) ⊎ (wide_u ≡ true) × (same ≡ false))
        ⊎ (x ≡ pu) × (iface_u ≡ false) × (up ≡ false) × (pup ≡ true))

abbrev FromAdded : {T : Type 0} → Bool → Bool → Bool → Bool → Bool → T → T → Type 0
FromAdded iface_t wide_t wide_u same down u x =
    (x ≡ u)
    × (wide_u ≡ true)
    × (down ≡ true)
    × ((iface_t ≡ false) ⊎ (wide_t ≡ true) × (same ≡ false))

abbrev PtrAdded : {T : Type 0} → Bool → Bool → Bool → Bool → T → T → Type 0
PtrAdded iface_t wide_u down pdown u x =
    (x ≡ u) × (iface_t ≡ false) × (wide_u ≡ true) × (down ≡ false) × (pdown ≡ true)

module _ {T : Type 0} (u pu x : T) where
  to_added_iff :
      (a b c d e f : Bool) → In x (to_added a b c d e f u pu) ↔ ToAdded a b c d e f u pu x
  to_added_iff false b c d e f = (λ i. absurd i, λ (h, k). cc)
  to_added_iff true true false d e f = (
    λ i. absurd i,
    λ (h, k). elim k [
      | inl (q, y, z) ↦ elim z [ inl n ↦ cc | inr (n, m) ↦ cc ]
      | inr (q, y, z, v) ↦ cc
    ],
  )
  to_added_iff true true true true e f = (
    λ i. absurd i,
    λ (h, k). elim k [
      | inl (q, y, z) ↦ elim z [ inl n ↦ cc | inr (n, m) ↦ cc ]
      | inr (q, y, z, v) ↦ cc
    ],
  )
  to_added_iff true true true false true f = (
    λ i. elim i [ inl q ↦ (refl, inl (q, refl, inr (refl, refl))) | inr j ↦ absurd j ],
    λ (h, k). elim k [ inl (q, y, z) ↦ inl q | inr (q, y, z, v) ↦ cc ],
  )
  to_added_iff true true true false false f =
      (λ i. absurd i, λ (h, k). elim k [ inl (q, y, z) ↦ cc | inr (q, y, z, v) ↦ cc ])
  to_added_iff true false c d true f = (
    λ i. elim i [ inl q ↦ (refl, inl (q, refl, inl refl)) | inr j ↦ absurd j ],
    λ (h, k). elim k [ inl (q, y, z) ↦ inl q | inr (q, y, z, v) ↦ cc ],
  )
  to_added_iff true false c d false true = (
    λ i. elim i [ inl q ↦ (refl, inr (q, refl, refl, refl)) | inr j ↦ absurd j ],
    λ (h, k). elim k [ inl (q, y, z) ↦ cc | inr (q, y, z, v) ↦ inl q ],
  )
  to_added_iff true false c d false false =
      (λ i. absurd i, λ (h, k). elim k [ inl (q, y, z) ↦ cc | inr (q, y, z, v) ↦ cc ])

  from_added_iff : (a b c d e : Bool) → In x (from_added a b c d e u) ↔ FromAdded a b c d e u x
  from_added_iff a b false d e = (λ i. absurd i, λ (q, y, z, v). cc)
  from_added_iff a b true d false = (λ i. absurd i, λ (q, y, z, v). cc)
  from_added_iff false b true d true =
      (λ i. elim i [ inl q ↦ (q, refl, refl, inl refl) | inr j ↦ absurd j ], λ (q, y, z, v). inl q)
  from_added_iff true false true d true =
      (λ i. absurd i, λ (q, y, z, v). elim v [ inl n ↦ cc | inr (n, m) ↦ cc ])
  from_added_iff true true true true true =
      (λ i. absurd i, λ (q, y, z, v). elim v [ inl n ↦ cc | inr (n, m) ↦ cc ])
  from_added_iff true true true false true = (
    λ i. elim i [ inl q ↦ (q, refl, refl, inr (refl, refl)) | inr j ↦ absurd j ],
    λ (q, y, z, v). inl q,
  )

  ptr_added_iff : (a b c d : Bool) → In x (ptr_added a b c d u) ↔ PtrAdded a b c d u x
  ptr_added_iff true b c d = (λ i. absurd i, λ (q, y, z, v, n). cc)
  ptr_added_iff false false c d = (λ i. absurd i, λ (q, y, z, v, n). cc)
  ptr_added_iff false true true d = (λ i. absurd i, λ (q, y, z, v, n). cc)
  ptr_added_iff false true false true = (
    λ i. elim i [ inl q ↦ (q, refl, refl, refl, refl) | inr j ↦ absurd j ],
    λ (q, y, z, v, n). inl q,
  )
  ptr_added_iff false true false false = (λ i. absurd i, λ (q, y, z, v, n). cc)

module _ {T O M : Type 0} (w : TypeTheory T O M) where
  -- An interface with a method.
  abbrev pub is_wide : T → Bool
  is_wide t = w.is_interface t && not (w.method_count t == 0)

  abbrev to_new : T → T → List T
  to_new t u =
      to_added (is_wide t) (w.is_interface u) (is_wide u) (w.identical t u) (w.assignable u t)
        (w.assignable (w.new_pointer u) t) u (w.new_pointer u)

  abbrev from_new : T → T → List T
  from_new t u =
      from_added (w.is_interface t) (is_wide t) (is_wide u) (w.identical t u) (w.assignable t u) u

  abbrev ptr_new : T → T → List T
  ptr_new t u =
      ptr_added (w.is_interface t) (is_wide u) (w.assignable t u) (w.assignable (w.new_pointer t) u)
        u

  relate_lem :
      (t u : T) (r : RelatedTypes T)
      → relate w t r u ≡ record {
        to = r.to ++ to_new t u;
        from = r.from ++ from_new t u;
        from_ptr = r.from_ptr ++ ptr_new t u;
      }
  unfolding relate
  relate_lem t u r = ground (arith, append-nil r.to, append-nil r.from, append-nil r.from_ptr)

  -- The types that all rounds add.
  abbrev all_new : (T → List T) → List T → List T
  all_new new [] = []
  all_new new (u ∷ us) = new u ++ all_new new us

  In-all_new :
      (new : T → List T) (P : T → T → Type 0) (x : T)
      → ((u : T) → In x (new u) ↔ P u x)
      → (us : List T) → In x (all_new new us) ↔ ((u : T) × In u us × P u x)
  In-all_new new P x h [] = (λ i. absurd i, λ (u, i, p). absurd i)
  In-all_new new P x h (v ∷ us) = (
    λ i. elim (In-append_cases x (new v) (all_new new us) i) [
      | inl j ↦ (v, inl refl, (h v).0 j)
      | inr j ↦ let (u, k, p) = (In-all_new new P x h us).0 j in (u, inr k, p)
    ],
    λ (u, i, p). elim i [
      | inl e ↦ In-append_left x (new v) (all_new new us) ((h v).1 (subst (λ y. P y x) e p))
      | inr j ↦ In-append_right x (new v) (all_new new us) ((In-all_new new P x h us).1 (u, j, p))
    ],
  )

  relate_all_lem :
      (t : T) (us : List T) (r : RelatedTypes T)
      → relate_all w t r us ≡ record {
        to = r.to ++ all_new (to_new t) us;
        from = r.from ++ all_new (from_new t) us;
        from_ptr = r.from_ptr ++ all_new (ptr_new t) us;
      }
  unfolding relate_all
  relate_all_lem t [] r = simp (append-nil)
  relate_all_lem t (u ∷ us) r =
      relate_all_lem t us (relate w t r u) ∙ simp (relate_lem t u r, append_assoc)

  -- Another type that x stands for: T is an interface with a method and x is assignable to it, where x
  -- is a named type, and if that is an interface, one with a method that is not identical to T; or x is
  -- the pointer to a named type that is no interface and that is not assignable itself.
  abbrev pub IsTo : T → T → T → Type 0
  IsTo t u x =
      (is_wide t ≡ true)
      × ((x ≡ u)
            × (w.assignable u t ≡ true)
            × ((w.is_interface u ≡ false) ⊎ (is_wide u ≡ true) × (w.identical t u ≡ false))
          ⊎ (x ≡ w.new_pointer u)
            × (w.is_interface u ≡ false)
            × (w.assignable u t ≡ false)
            × (w.assignable (w.new_pointer u) t ≡ true))

  -- An interface with a method that T is assignable to, and if T is an interface, T has a method and is
  -- not identical to it.
  abbrev pub IsFrom : T → T → T → Type 0
  IsFrom t u x =
      (x ≡ u)
      × (is_wide u ≡ true)
      × (w.assignable t u ≡ true)
      × ((w.is_interface t ≡ false) ⊎ (is_wide t ≡ true) × (w.identical t u ≡ false))

  -- An interface with a method that only the pointer to T is assignable to, where T is no interface.
  abbrev pub IsFromPtr : T → T → T → Type 0
  IsFromPtr t u x =
      (x ≡ u)
      × (w.is_interface t ≡ false)
      × (is_wide u ≡ true)
      × (w.assignable t u ≡ false)
      × (w.assignable (w.new_pointer t) u ≡ true)

  -- The loop over the named types finds, of the types that T may stand for and that may stand for T,
  -- exactly these: in `to` the types x with IsTo, in `from` those with IsFrom and in `fromPtr` those with
  -- IsFromPtr, for some named type.
  pub relate_all_iff :
      (t x : T) (us : List T)
      → (In x (relate_all w t (nothing_related w) us).to ↔ ((u : T) × In u us × IsTo t u x))
        × (In x (relate_all w t (nothing_related w) us).from ↔ ((u : T) × In u us × IsFrom t u x))
        × (In x (relate_all w t (nothing_related w) us).from_ptr
            ↔ ((u : T) × In u us × IsFromPtr t u x))
  relate_all_iff t x us = rw (relate_all_lem t us (nothing_related w)) (
    In-all_new (to_new t) (IsTo t) x (λ u. to_added_iff u (w.new_pointer u) x _ _ _ _ _ _) us,
    In-all_new (from_new t) (IsFrom t) x (λ u. from_added_iff u u x _ _ _ _ _) us,
    In-all_new (ptr_new t) (IsFromPtr t) x (λ u. ptr_added_iff u u x _ _ _ _) us,
  )
