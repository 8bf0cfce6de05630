-- ===== src/Implementation/Examples.antt =====
-- langserver/implementation.go: the theorems on an interface, a struct and its pointer.
use go_langserver.Implementation.Related.{relate_all_iff, IsTo, IsFrom, IsFromPtr}
use go_langserver.Implementation.Listed.{shown_in_order-Distinct, identities, all_shown, FoundIn}
use go_langserver.Implementation.{TypeTheory, relate_all, nothing_related, shown_in_order}
use go_langserver.Common.{
  Distinct, In, [], codes, if◌then◌else◌, ltb, none, some, ℕ, ◌&&◌, ◌++◌, ◌+◌, ◌-◌, ◌==◌, ◌↔◌, ◌∷◌,
}

-- 0 is an interface, 1 a struct, and every other type its pointer, which implements the interface by the
-- one method 9.
abbrev small_theory : TypeTheory ℕ ℕ ℕ
small_theory = record {
  is_interface = λ t. t == 0;
  method_count = λ t. if t == 1 then 0 else 1;
  identical = λ t u. t == u;
  assignable = λ t u. u == 0 && ltb 1 t;
  new_pointer = λ t. t + 1;
  deref = λ t. t - 1;
  named_object = λ t. some t;
  find_method = λ m t. if ltb 1 t then some 9 else none;
  identity = λ o. o;
  obj_pos = λ o. o;
  obj_name = λ o. codes "M";
}

relate_all_iff_example :
    (In 2 (relate_all small_theory 0 (nothing_related small_theory) (0 ∷ 1 ∷ [])).to
      ↔ ((u : ℕ) × In u (0 ∷ 1 ∷ []) × IsTo small_theory 0 u 2))
    × (In 2 (relate_all small_theory 0 (nothing_related small_theory) (0 ∷ 1 ∷ [])).from
        ↔ ((u : ℕ) × In u (0 ∷ 1 ∷ []) × IsFrom small_theory 0 u 2))
    × (In 2 (relate_all small_theory 0 (nothing_related small_theory) (0 ∷ 1 ∷ [])).from_ptr
        ↔ ((u : ℕ) × In u (0 ∷ 1 ∷ []) × IsFromPtr small_theory 0 u 2))
relate_all_iff_example = relate_all_iff small_theory 0 2 (0 ∷ 1 ∷ [])

shown_in_order-Distinct_example :
    Distinct (
      identities small_theory
        (all_shown small_theory (shown_in_order small_theory (some 0) (2 ∷ 3 ∷ []) [] (2 ∷ []))))
    × ((i : ℕ)
        → In i (
            identities small_theory (
              all_shown small_theory
                (shown_in_order small_theory (some 0) (2 ∷ 3 ∷ []) [] (2 ∷ []))))
          ↔ FoundIn small_theory 0 ((2 ∷ 3 ∷ []) ++ ([] ++ 2 ∷ [])) i)
shown_in_order-Distinct_example = shown_in_order-Distinct small_theory 0 (2 ∷ 3 ∷ []) [] (2 ∷ [])
