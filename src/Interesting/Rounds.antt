-- ===== src/Interesting/Rounds.antt =====
-- langserver/ast.go: which rounds of findInterestingNode end its loop.
use go_langserver.Common.{
  Bool, List, [], false, if◌then◌else◌, inl, inr, not, refl, true, ◌∷◌, ◌≡◌, ◌≢◌, ◌⊎◌,
}
use go_langserver.Interesting.{
  import_spec, value_spec, type_spec, Node, gen_decl, func_decl, spec, field, selector_expr, ident,
  stmt, type_expr, struct_type, uninteresting, file, ellipsis, field_list, basic_lit, star_expr,
  expr, other, Object, builtin, no_object, Round, returns, continues, panicked, object_round,
  pkg_name, constant, label, type_name, variable, function, nil_object, variable_round,
  no_object_round, basic_lit_round, struct_round, is_field, is_field_list, is_struct_type,
  is_import_spec, action_expr, action_package,
}

-- A round that ends the loop.
abbrev pub IsLast : Round → Type 0
IsLast (returns path action) = Unit
IsLast panicked = Unit
IsLast (continues path) = ⊥

pick-IsLast : (b : Bool) (x y : Round) → IsLast x → IsLast y → IsLast (if b then x else y)
pick-IsLast true x y p q = p
pick-IsLast false x y p q = q

struct_round-IsLast : (n f : Node) (rest : List Node) → IsLast (struct_round n f rest)
struct_round-IsLast n f [] = tt
struct_round-IsLast n f (l ∷ []) = tt
struct_round-IsLast n f (l ∷ p ∷ rest) =
    pick-IsLast (not (is_field_list l)) panicked _ tt (pick-IsLast (is_struct_type p) _ _ tt tt)

variable_round-IsLast : (n : Node) (rest : List Node) → IsLast (variable_round n rest)
variable_round-IsLast n [] = tt
variable_round-IsLast n (p ∷ rest) =
    pick-IsLast (is_field p) _ (returns (n ∷ p ∷ rest) action_expr) (struct_round-IsLast n p rest)
      tt

pub basic_lit_round-IsLast : (n : Node) (rest : List Node) → IsLast (basic_lit_round n rest)
basic_lit_round-IsLast n [] = tt
basic_lit_round-IsLast n (p ∷ rest) =
    pick-IsLast (is_import_spec p) (returns (p ∷ rest) action_package)
      (returns (n ∷ p ∷ rest) action_expr) tt tt

pub object_round-IsLast :
    (o : Object) (n : Node) (rest : List Node)
    → o ≢ builtin
    → o ≢ no_object
    → IsLast (object_round o n rest)
object_round-IsLast pkg_name n rest h k = tt
object_round-IsLast constant n rest h k = tt
object_round-IsLast label n rest h k = tt
object_round-IsLast type_name n rest h k = tt
object_round-IsLast variable n rest h k = variable_round-IsLast n rest
object_round-IsLast function n rest h k = tt
object_round-IsLast builtin n rest h k = absurd (h refl)
object_round-IsLast nil_object n rest h k = tt
object_round-IsLast no_object n rest h k = absurd (k refl)

no_object_cases :
    (n : Node) (rest : List Node)
    → IsLast (no_object_round n rest) ⊎ (no_object_round n rest ≡ continues rest)
no_object_cases n [] = inl tt
no_object_cases n (field names ∷ rest) = inr refl
no_object_cases n (selector_expr id ∷ rest) = inl tt
no_object_cases n (file f ∷ rest) = inl tt
no_object_cases n (spec (import_spec s) ∷ rest) = inl tt
no_object_cases n (gen_decl specs ∷ rest) = inl tt
no_object_cases n (func_decl id ∷ rest) = inl tt
no_object_cases n (spec (value_spec ids) ∷ rest) = inl tt
no_object_cases n (spec (type_spec id) ∷ rest) = inl tt
no_object_cases n (stmt m ∷ rest) = inl tt
no_object_cases n (type_expr m ∷ rest) = inl tt
no_object_cases n (struct_type m ∷ rest) = inl tt
no_object_cases n (uninteresting m ∷ rest) = inl tt
no_object_cases n (ellipsis m ∷ rest) = inl tt
no_object_cases n (field_list m ∷ rest) = inl tt
no_object_cases n (basic_lit m ∷ rest) = inl tt
no_object_cases n (star_expr m ∷ rest) = inl tt
no_object_cases n (expr m ∷ rest) = inl tt
no_object_cases n (other m ∷ rest) = inl tt
no_object_cases n (ident id ∷ rest) = inl tt

pub object_cases :
    (o : Object) (n : Node) (rest : List Node)
    → IsLast (object_round o n rest) ⊎ (object_round o n rest ≡ continues rest)
object_cases builtin n rest = inr refl
object_cases no_object n rest = no_object_cases n rest
object_cases pkg_name n rest = inl tt
object_cases constant n rest = inl tt
object_cases label n rest = inl tt
object_cases type_name n rest = inl tt
object_cases variable n rest = inl (variable_round-IsLast n rest)
object_cases function n rest = inl tt
object_cases nil_object n rest = inl tt
