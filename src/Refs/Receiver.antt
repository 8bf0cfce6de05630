-- ===== src/Refs/Receiver.antt =====
-- langserver/internal/refs/refs.go: deepRecvType and getMethod. An index out of range panics, as does
-- the type of a missing receiver.
use go_langserver.Refs.{
  TypesObject, GoType, pointer, named, basic, struct_type, interface_type, func_type, another_type,
}
use go_langserver.Common.Result.{Result, ok, err, panics}
use go_langserver.Common.{
  Bool, List, Option, [], false, get_elem?, if◌then◌else◌, none, some, true, ℕ, ◌&&◌, ◌==◌, ◌∷◌,
}

-- types.SelectionKind
pub data SelectionKind : Type 0 where
  field_val method_val method_expr : SelectionKind

-- types.Selection, with the key of the type of its receiver
pub record Selection : Type 0 where
  pub kind : SelectionKind
  pub recv : ℕ
  pub index : List ℕ

-- An element of a slice by its index.
abbrev pub element_at : List TypesObject → ℕ → Result (Unit {0}) (Option TypesObject)
element_at l i = elim (get_elem? l i) [ none ↦ panics | some o ↦ ok (some o) ]

-- The interface case under a named type: the named type itself, if the method's receiver has the
-- underlying type of it, and else that receiver.
unfoldable pub interface_receiver :
    TypesObject → ℕ → List TypesObject → ℕ → Result (Unit {0}) (Option TypesObject)
interface_receiver obj key receivers idx = elim (get_elem? receivers idx) [
  | none ↦ panics
  | some r ↦ ok (some (if r.type_key == key then obj else r))
]

-- A method of a named type, with the underlying type dereferenced. A pointer to an interface has another
-- type than its receivers.
unfoldable pub named_receiver :
    TypesObject → GoType → List TypesObject → ℕ → Result (Unit {0}) (Option TypesObject)
unfolding interface_receiver
named_receiver obj (interface_type key receivers) methods idx =
    interface_receiver obj key receivers idx
named_receiver obj (pointer (interface_type key receivers)) methods idx = element_at receivers idx
named_receiver obj _ methods idx = element_at methods idx

unfoldable pub get_method : GoType → ℕ → Bool → Bool → Result (Unit {0}) (Option TypesObject)
unfolding named_receiver
get_method (pointer t) idx final method = get_method t idx final method
get_method (named obj t methods) idx final method =
    let inside = get_method t idx final method in
    if final && method then named_receiver obj t methods idx else inside
get_method (struct_type fields) idx final method = element_at fields idx
get_method (interface_type key receivers) idx final method = element_at receivers idx
get_method (basic n) idx final method = ok none
get_method (func_type r) idx final method = ok none
get_method another_type idx final method = ok none

-- `sel.Kind() != types.FieldVal`
abbrev pub is_method : SelectionKind → Bool
is_method field_val = false
is_method method_val = true
is_method method_expr = true

abbrev pub is_last : List ℕ → Bool
is_last [] = true
is_last (i ∷ is) = false

-- `idx[:len(idx)-1]`; it panics on an empty slice.
abbrev pub all_but_last : List ℕ → Result (Unit {0}) (List ℕ)
all_but_last [] = panics
all_but_last (i ∷ []) = ok []
all_but_last (i ∷ j ∷ is) = elim (all_but_last (j ∷ is)) [
  | ok l ↦ ok (i ∷ l)
  | err e ↦ err e
  | panics ↦ panics
]

module _ (type_of : ℕ → GoType) where
  -- The loop over the indices; `none` is a nil type.
  unfoldable pub follow_index : Bool → List ℕ → GoType → Result (Unit {0}) (Option GoType)
  unfolding get_method
  follow_index method [] typ = ok (some typ)
  follow_index method (i ∷ is) typ = elim (get_method typ i (is_last is) method) [
    | ok none ↦ ok none
    | ok (some o) ↦ follow_index method is (type_of o.type_key)
    | err e ↦ err e
    | panics ↦ panics
  ]

  unfoldable pub deep_recv_type : Selection → Result (Unit {0}) (Option GoType)
  unfolding follow_index
  deep_recv_type sel =
      if is_method sel.kind
      then follow_index true sel.index (type_of sel.recv)
      else elim (all_but_last sel.index) [
        | ok idx ↦ follow_index false idx (type_of sel.recv)
        | err e ↦ err e
        | panics ↦ panics
      ]
