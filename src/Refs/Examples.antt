-- ===== src/Refs/Examples.antt =====
-- langserver/internal/refs/refs.go: the theorems on a function F and a variable v.
use go_langserver.Refs.{
  TypesPackage, TypesObject, GoType, func_type, another_type, object_string, another_object,
  a_variable, dereference_type, type_name,
}
use go_langserver.Refs.DefInfo.{
  AstIdent, AstSelector, EnclosingNode, ident_node, selector_node, plain_node, Known, def_info,
}
use go_langserver.Refs.Agree.{def_info_agree}
use go_langserver.Refs.Inspect.{
  RefNode, selector_expr, composite_lit, no_nodes, node, refs_of_files,
}
use go_langserver.Refs.Emitted.{NamedIn, NamedInFiles, exported_in, refs_of_files-exported_in}
use go_langserver.Common.Result.{ok}
use go_langserver.Common.{
  List, Option, [], codes, false, if◌then◌else◌, inl, none, refl, some, suc, zero, ℕ, ◌==◌, ◌∷◌,
  ◌≡◌,
}

abbrev pkg_p : TypesPackage
pkg_p = record { path = codes "m/p"; name = codes "p" }

abbrev f_object : TypesObject
f_object = record {
  identity = 7;
  name = codes "F";
  pkg = some pkg_p;
  parent = some 0;
  type_key = 0;
  obj_id = codes "F";
  sort = another_object;
}

abbrev v_object : TypesObject
v_object = record {
  identity = 8;
  name = codes "v";
  pkg = some pkg_p;
  parent = some 1;
  type_key = 1;
  obj_id = codes "v";
  sort = a_variable false;
}

-- 0 defines F, 1 uses it, and 2 uses v.
abbrev define_f : ℕ → Option TypesObject
define_f zero = some f_object
define_f (suc n) = none

abbrev use_both : ℕ → Option TypesObject
use_both zero = none
use_both (suc zero) = some f_object
use_both (suc (suc n)) = some v_object

abbrev both_types : ℕ → GoType
both_types zero = func_type none
both_types (suc n) = another_type

abbrev known_f : Known
known_f = record {
  defs = define_f;
  uses = use_both;
  selections = λ n. none;
  type_of = both_types;
  imports = [];
  scope = 0;
  scope_lookup = λ n. some 7;
  lookup_in = λ p n. some 7;
  universe_lookup = λ n. none;
  has_field = λ t n. false;
}

abbrev ident_f : ℕ → AstIdent
ident_f key = record { key = key; name = codes "F" }

abbrev select_f : AstSelector
select_f = record { key = 5; sel = ident_f 1 }

def_info_agree_example :
    (def_info known_f (ident_node (ident_f 0) ∷ plain_node ∷ []) 3 ≡ ok (object_string f_object))
    × (def_info known_f (ident_node (ident_f 1) ∷ plain_node ∷ []) 9 ≡ ok (object_string f_object))
    × (def_info known_f (ident_node select_f.sel ∷ selector_node select_f ∷ plain_node ∷ []) 12
        ≡ ok (object_string f_object))
def_info_agree_example =
    def_info_agree known_f known_f known_f f_object (ident_f 0) (ident_f 1) select_f
      (plain_node ∷ []) (plain_node ∷ []) (plain_node ∷ []) 3 9 12 (inl refl) refl refl refl refl
      refl refl refl refl refl refl

-- A selector at 10 and the key of a literal at 20.
abbrev path_to_both : ℕ → List EnclosingNode
path_to_both p =
    if p == 10
    then ident_node (ident_f 1) ∷ selector_node select_f ∷ plain_node ∷ []
    else ident_node (record { key = 2; name = codes "v" }) ∷ plain_node ∷ plain_node ∷ []

abbrev small_file : RefNode
small_file =
    composite_lit (some (20, 21) ∷ none ∷ []) (node (selector_expr (10, 11) no_nodes) no_nodes)

small_file_named : NamedInFiles known_f ((path_to_both, small_file) ∷ [])
unfolding NamedIn def_info object_string type_name dereference_type
small_file_named = (((refl, tt), ((tt, tt), tt)), tt)

refs_of_files-exported_in_example :
    refs_of_files known_f ((path_to_both, small_file) ∷ [])
    ≡ some (record { refs = exported_in known_f ((path_to_both, small_file) ∷ []); errs = [] })
refs_of_files-exported_in_example =
    refs_of_files-exported_in known_f ((path_to_both, small_file) ∷ []) small_file_named
