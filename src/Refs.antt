-- ===== src/Refs.antt =====
-- langserver/internal/refs/refs.go: DefInfo, which names the definition that an identifier stands for,
-- and Config.Refs, which finds the references of a package to exported definitions. What go/types knows
-- is in the arguments.
pub mod Examples
pub mod Receiver
pub mod DefInfo
pub mod Inspect
pub mod Agree
pub mod Emitted
use go_langserver.Common.{Bool, Bytes, List, Option, [], codes, none, some, ℕ, ◌++◌}

-- refs.Def
pub record Def : Type 0 where
  pub import_path : Bytes
  pub package_name : Bytes
  pub path : Bytes

-- types.Package
pub record TypesPackage : Type 0 where
  pub path : Bytes
  pub name : Bytes

-- What types.Object is beside its common part: an imported package, a variable that may be a field, or
-- another object.
pub data ObjectSort : Type 0 where
  a_package : TypesPackage → ObjectSort
  a_variable : Bool → ObjectSort
  another_object : ObjectSort

-- types.Object; `identity` stands for the pointer, `parent` for the scope, `type_key` for the type, and
-- `obj_id` for Id().
pub record TypesObject : Type 0 where
  pub identity : ℕ
  pub name : Bytes
  pub pkg : Option TypesPackage
  pub parent : Option ℕ
  pub type_key : ℕ
  pub obj_id : Bytes
  pub sort : ObjectSort

-- types.Type. A named type has its object, its underlying type and the receivers of its methods, a
-- struct its fields, an interface its key and the receivers of its methods, and a function its receiver.
-- The types of objects are looked up by their keys, so a type may be recursive through these; a named
-- type that is a pointer to itself is not modelled.
pub data GoType : Type 0 where
  pointer : GoType → GoType
  named : TypesObject → GoType → List TypesObject → GoType
  basic : Bytes → GoType
  struct_type : List TypesObject → GoType
  interface_type : ℕ → List TypesObject → GoType
  func_type : Option TypesObject → GoType
  another_type : GoType

unfoldable pub dereference_type : GoType → GoType
dereference_type (pointer t) = t
dereference_type (named o t ms) = named o t ms
dereference_type (basic n) = basic n
dereference_type (struct_type fs) = struct_type fs
dereference_type (interface_type k ms) = interface_type k ms
dereference_type (func_type r) = func_type r
dereference_type another_type = another_type

-- typeName, as the Def that its callers make of it
unfoldable pub type_name : GoType → Option Def
type_name (named o t ms) = elim o.pkg [
  | none ↦ none
  | some p ↦ some (record { import_path = p.path; package_name = p.name; path = o.name })
]
type_name (basic n) =
    some (record { import_path = codes "builtin"; package_name = codes "builtin"; path = n })
type_name (pointer t) = none
type_name (struct_type fs) = none
type_name (interface_type k ms) = none
type_name (func_type r) = none
type_name another_type = none

unfoldable pub object_string : TypesObject → Def
object_string obj = elim obj.pkg [
  | some p ↦ record { import_path = p.path; package_name = p.name; path = obj.name }
  | none ↦ record { import_path = []; package_name = []; path = obj.name }
]

-- `fmt.Sprintf("%v %v", a, b)`
abbrev pub two_words : Bytes → Bytes → Bytes
two_words a b = a ++ (codes " " ++ b)

-- A Def with a path, in the package of an object; without a package the code panics.
unfoldable pub def_in : TypesObject → Bytes → Option Def
def_in obj path = elim obj.pkg [
  | some p ↦ some (record { import_path = p.path; package_name = p.name; path = path })
  | none ↦ none
]
