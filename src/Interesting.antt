-- ===== src/Interesting.antt =====
-- langserver/ast.go: findInterestingNode, from the path of syntax nodes around a position to the node
-- to describe. A node keeps what the switch looks at; identifiers and the other nodes are numbers, and
-- what go/types knows of them is the parameter `PackageInfo`.
pub mod Rounds
pub mod Ending
pub mod Examples
use go_langserver.Common.{
  Bool, List, Option, [], false, if◌then◌else◌, none, not, some, suc, true, zero, ℕ, ◌∷◌,
}

-- What a node denotes.
pub data Action : Type 0 where
  action_unknown action_expr action_type action_stmt action_package : Action

pub data Spec : Type 0 where
  import_spec : ℕ → Spec
  value_spec : List ℕ → Spec
  type_spec : ℕ → Spec

-- The nodes by the cases of the switch: `type_expr` is an array, function, interface, map or channel
-- type, `uninteresting` a comment, a comment group or a KeyValueExpr, `expr` an expression of no other
-- case and `other` a node of no case.
pub data Node : Type 0 where
  gen_decl : List Spec → Node
  func_decl : ℕ → Node
  spec : Spec → Node
  stmt type_expr struct_type uninteresting file ellipsis field_list basic_lit star_expr expr other :
      ℕ → Node
  field : List ℕ → Node
  selector_expr : ℕ → Node
  ident : ℕ → Node

-- The type of types.Object that ObjectOf gives; `no_object` is nil.
pub data Object : Type 0 where
  pkg_name constant label type_name variable function builtin nil_object no_object : Object

pub record PackageInfo : Type 0 where
  -- pkginfo.Uses[id] != nil
  pub uses : ℕ → Bool
  pub object_of : ℕ → Object
  -- pkginfo.Types[n].IsType() of a StarExpr
  pub is_type : ℕ → Bool

-- What one round of the loop does: return, go on with another path, or panic by an index out of range
-- or the failed assertion that path[2] is a field list.
pub data Round : Type 0 where
  returns : List Node → Action → Round
  continues : List Node → Round
  panicked : Round

-- `_, ok := p.(*ast.Field)`, and so on.
abbrev pub is_field : Node → Bool
is_field (field names) = true
is_field n = false

abbrev pub is_field_list : Node → Bool
is_field_list (field_list f) = true
is_field_list n = false

abbrev pub is_struct_type : Node → Bool
is_struct_type (struct_type s) = true
is_struct_type n = false

abbrev pub is_import_spec : Node → Bool
is_import_spec (spec (import_spec s)) = true
is_import_spec n = false

-- A variable `n` behind whose field `f` the path is `rest`: path[3:] in a struct.
abbrev pub struct_round : Node → Node → List Node → Round
struct_round n f [] = panicked
struct_round n f (l ∷ []) = panicked
struct_round n f (l ∷ p ∷ rest) =
    if not (is_field_list l)
    then panicked
    else if is_struct_type p
    then returns (p ∷ rest) action_type
    else returns (n ∷ f ∷ l ∷ p ∷ rest) action_expr

abbrev pub variable_round : Node → List Node → Round
variable_round n [] = panicked
variable_round n (p ∷ rest) =
    if is_field p then struct_round n p rest else returns (n ∷ p ∷ rest) action_expr

-- An identifier without object; the path behind it is `rest`.
abbrev pub no_object_round : Node → List Node → Round
no_object_round n [] = panicked
no_object_round n (selector_expr id ∷ rest) = returns (selector_expr id ∷ rest) action_expr
no_object_round n (field names ∷ rest) = continues (field names ∷ rest)
no_object_round n (file f ∷ rest) = returns (n ∷ file f ∷ rest) action_package
no_object_round n (spec (import_spec s) ∷ rest) =
    returns (spec (import_spec s) ∷ rest) action_package
no_object_round n (p ∷ rest) = returns (n ∷ p ∷ rest) action_unknown

-- A BasicLit before `rest`.
abbrev pub basic_lit_round : Node → List Node → Round
basic_lit_round n [] = panicked
basic_lit_round n (p ∷ rest) =
    if is_import_spec p
    then returns (p ∷ rest) action_package
    else returns (n ∷ p ∷ rest) action_expr

-- The inner switch, over the object of an identifier.
abbrev pub object_round : Object → Node → List Node → Round
object_round pkg_name n rest = returns (n ∷ rest) action_package
object_round constant n rest = returns (n ∷ rest) action_expr
object_round label n rest = returns (n ∷ rest) action_stmt
object_round type_name n rest = returns (n ∷ rest) action_type
object_round variable n rest = variable_round n rest
object_round function n rest = returns (n ∷ rest) action_expr
object_round builtin n rest = continues rest
object_round nil_object n rest = returns (n ∷ rest) action_expr
object_round no_object n rest = no_object_round n rest

module _ (info : PackageInfo) where
  -- One round of the loop, on the path of `n` before `rest`.
  unfoldable pub round : Node → List Node → Round
  round (gen_decl (s ∷ [])) rest = continues (spec s ∷ gen_decl (s ∷ []) ∷ rest)
  round (gen_decl []) rest = returns (gen_decl [] ∷ rest) action_unknown
  round (gen_decl (s ∷ t ∷ specs)) rest = returns (gen_decl (s ∷ t ∷ specs) ∷ rest) action_unknown
  round (func_decl id) rest = continues (ident id ∷ func_decl id ∷ rest)
  round (spec (import_spec s)) rest = returns (spec (import_spec s) ∷ rest) action_package
  round (spec (value_spec (id ∷ []))) rest =
      continues (ident id ∷ spec (value_spec (id ∷ [])) ∷ rest)
  round (spec (value_spec ids)) rest = returns (spec (value_spec ids) ∷ rest) action_unknown
  round (spec (type_spec id)) rest = continues (ident id ∷ spec (type_spec id) ∷ rest)
  round (stmt n) rest = returns (stmt n ∷ rest) action_stmt
  round (type_expr n) rest = returns (type_expr n ∷ rest) action_type
  round (struct_type n) rest = returns (struct_type n ∷ rest) action_type
  round (uninteresting n) rest = returns (uninteresting n ∷ rest) action_unknown
  round (file n) rest = returns (file n ∷ rest) action_unknown
  round (ellipsis n) rest = continues rest
  round (field (id ∷ [])) rest = continues (ident id ∷ field (id ∷ []) ∷ rest)
  round (field ids) rest = continues rest
  round (field_list n) rest = continues rest
  round (basic_lit n) rest = basic_lit_round (basic_lit n) rest
  round (selector_expr id) rest =
      if info.uses id
      then continues (ident id ∷ selector_expr id ∷ rest)
      else returns (selector_expr id ∷ rest) action_unknown
  round (ident id) rest = object_round (info.object_of id) (ident id) rest
  round (star_expr n) rest =
      returns (star_expr n ∷ rest) (if info.is_type n then action_type else action_expr)
  round (expr n) rest = returns (expr n ∷ rest) action_expr
  round (other n) rest = continues rest

  -- The loop, for as many rounds as `fuel`; `none` if it has not ended by then. An empty path, which
  -- the source returns as nil, ends it.
  unfoldable pub find_interesting_node : ℕ → List Node → Option Round
  unfolding round
  find_interesting_node zero path = none
  find_interesting_node (suc fuel) [] = some (returns [] action_unknown)
  find_interesting_node (suc fuel) (n ∷ rest) = elim (round n rest) [
    | returns path action ↦ some (returns path action)
    | panicked ↦ some panicked
    | continues path ↦ find_interesting_node fuel path
  ]
