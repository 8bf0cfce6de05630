-- ===== src/Refs/Agree.antt =====
-- langserver/internal/refs/refs.go: DefInfo gives a package-level object one name.
use go_langserver.Refs.{
  TypesObject, GoType, ObjectSort, a_package, a_variable, another_object, pointer, named, basic,
  struct_type, interface_type, func_type, another_type, object_string,
}
use go_langserver.Refs.DefInfo.{
  AstIdent, AstSelector, EnclosingNode, ident_node, selector_node, import_node, field_node,
  type_spec_node, literal_node, plain_node, Known, is_object, is_scope, def_info, node_info,
  ident_info, defined_info, variable_info, used_info, literal_info, plain_info, selected_info,
}
use go_langserver.Common.Result.{ok}
use go_langserver.Common.{
  Bool, List, [], false, inl, inr, none, not, refl, some, true, ℕ, ◌∙◌, ◌∷◌, ◌≡◌, ◌⊎◌,
}

abbrev pub is_func : GoType → Bool
is_func (func_type r) = true
is_func _ = false

-- A function without a receiver, or another object whose scope is that of the package.
abbrev pub IsPackageLevel : Known → TypesObject → Type 0
IsPackageLevel k obj =
    (k.type_of obj.type_key ≡ func_type none)
    ⊎ (is_func (k.type_of obj.type_key) ≡ false) × (is_scope obj.parent k.scope ≡ true)

-- Neither an imported package nor a field.
abbrev pub is_ordinary : ObjectSort → Bool
is_ordinary (a_package p) = false
is_ordinary (a_variable is_field) = not is_field
is_ordinary another_object = true

-- The node above the identifier is neither an import nor a selector.
abbrev pub is_alone : List EnclosingNode → Bool
is_alone [] = true
is_alone (import_node p ∷ nodes) = false
is_alone (selector_node s ∷ nodes) = false
is_alone (n ∷ nodes) = true

variable_info_top :
    (k : Known) (nodes : List EnclosingNode) (i : AstIdent) (obj : TypesObject)
    → is_scope obj.parent k.scope ≡ true
    → variable_info k nodes i obj ≡ ok (object_string obj)
unfolding variable_info
variable_info_top k nodes i obj h = rw h

defined_info_other :
    (k : Known) (nodes : List EnclosingNode) (i : AstIdent) (obj : TypesObject) (t : GoType)
    → k.type_of obj.type_key ≡ t
    → is_func t ≡ false
    → is_scope obj.parent k.scope ≡ true
    → defined_info k nodes i obj ≡ ok (object_string obj)
unfolding defined_info
defined_info_other k nodes i obj (func_type r) e f h = cc
defined_info_other k nodes i obj (pointer t) e f h =
    simp (defined_info, e, variable_info_top k nodes i obj h)
defined_info_other k nodes i obj (named o t ms) e f h =
    simp (defined_info, e, variable_info_top k nodes i obj h)
defined_info_other k nodes i obj (basic n) e f h =
    simp (defined_info, e, variable_info_top k nodes i obj h)
defined_info_other k nodes i obj (struct_type fs) e f h =
    simp (defined_info, e, variable_info_top k nodes i obj h)
defined_info_other k nodes i obj (interface_type q ms) e f h =
    simp (defined_info, e, variable_info_top k nodes i obj h)
defined_info_other k nodes i obj another_type e f h =
    simp (defined_info, e, variable_info_top k nodes i obj h)

defined_info_top :
    (k : Known) (nodes : List EnclosingNode) (i : AstIdent) (obj : TypesObject)
    → IsPackageLevel k obj
    → defined_info k nodes i obj ≡ ok (object_string obj)
unfolding defined_info
defined_info_top k nodes i obj (inl e) = simp (defined_info, e)
defined_info_top k nodes i obj (inr (f, h)) =
    defined_info_other k nodes i obj (k.type_of obj.type_key) refl f h

node_info_alone :
    (k : Known) (i : AstIdent) (nodes : List EnclosingNode) (pos : ℕ)
    → is_alone nodes ≡ true
    → def_info k (ident_node i ∷ nodes) pos ≡ ident_info k (ident_node i ∷ nodes) i none pos
unfolding def_info node_info
node_info_alone k i [] pos h = refl
node_info_alone k i (import_node p ∷ nodes) pos h = cc
node_info_alone k i (selector_node s ∷ nodes) pos h = cc
node_info_alone k i (ident_node j ∷ []) pos h = refl
node_info_alone k i (ident_node j ∷ n ∷ nodes) pos h = refl
node_info_alone k i (field_node ∷ []) pos h = refl
node_info_alone k i (field_node ∷ n ∷ nodes) pos h = refl
node_info_alone k i (type_spec_node t ∷ []) pos h = refl
node_info_alone k i (type_spec_node t ∷ n ∷ nodes) pos h = refl
node_info_alone k i (literal_node t ∷ []) pos h = refl
node_info_alone k i (literal_node t ∷ n ∷ nodes) pos h = refl
node_info_alone k i (plain_node ∷ []) pos h = refl
node_info_alone k i (plain_node ∷ n ∷ nodes) pos h = refl

node_info_selected :
    (k : Known) (s : AstSelector) (nodes : List EnclosingNode) (pos : ℕ)
    → def_info k (ident_node s.sel ∷ selector_node s ∷ nodes) pos
      ≡ ident_info k (ident_node s.sel ∷ selector_node s ∷ nodes) s.sel (some s) pos
unfolding def_info node_info
node_info_selected k s [] pos = refl
node_info_selected k s (n ∷ nodes) pos = refl

literal_info_ordinary :
    (k : Known) (nodes : List EnclosingNode) (obj : TypesObject) (sort : ObjectSort)
    → obj.sort ≡ sort
    → is_ordinary sort ≡ true
    → literal_info k nodes obj ≡ ok none
unfolding literal_info
literal_info_ordinary k nodes obj (a_package p) e h = cc
literal_info_ordinary k nodes obj (a_variable true) e h = cc
literal_info_ordinary k nodes obj (a_variable false) e h = simp (literal_info, e)
literal_info_ordinary k nodes obj another_object e h = simp (literal_info, e)

used_info_plain :
    (k : Known) (nodes : List EnclosingNode) (i : AstIdent) (obj : TypesObject) (sort : ObjectSort)
    → obj.sort ≡ sort
    → is_ordinary sort ≡ true
    → is_object (k.scope_lookup i.name) obj ≡ true
    → used_info k nodes i none obj ≡ ok (object_string obj)
unfolding used_info plain_info
used_info_plain k nodes i obj (a_package p) e h l = cc
used_info_plain k nodes i obj (a_variable f) e h l =
    simp (used_info, literal_info_ordinary k nodes obj (a_variable f) e h, e, l)
used_info_plain k nodes i obj another_object e h l =
    simp (used_info, literal_info_ordinary k nodes obj another_object e h, e, l)

used_info_selected :
    (k : Known) (nodes : List EnclosingNode) (s : AstSelector) (obj : TypesObject)
    (sort : ObjectSort)
    → obj.sort ≡ sort
    → is_ordinary sort ≡ true
    → k.selections s.key ≡ none
    → k.uses s.sel.key ≡ some obj
    → used_info k nodes s.sel (some s) obj ≡ ok (object_string obj)
unfolding used_info selected_info
used_info_selected k nodes s obj (a_package p) e h l u = cc
used_info_selected k nodes s obj (a_variable f) e h l u =
    simp (used_info, literal_info_ordinary k nodes obj (a_variable f) e h, e, selected_info, l, u)
used_info_selected k nodes s obj another_object e h l u =
    simp (used_info, literal_info_ordinary k nodes obj another_object e h, e, selected_info, l, u)

pub def_info_plain :
    (k : Known) (obj : TypesObject) (i : AstIdent) (nodes : List EnclosingNode) (pos : ℕ)
    → is_ordinary obj.sort ≡ true
    → is_alone nodes ≡ true
    → k.defs i.key ≡ none
    → k.uses i.key ≡ some obj
    → is_object (k.scope_lookup i.name) obj ≡ true
    → def_info k (ident_node i ∷ nodes) pos ≡ ok (object_string obj)
unfolding ident_info
def_info_plain k obj i nodes pos o a d u l =
    node_info_alone k i nodes pos a
    ∙ simp (ident_info, d, u, used_info_plain k (ident_node i ∷ nodes) i obj obj.sort refl o l)

-- DefInfo names an object of a package the same where it is defined, where its package uses it by its
-- name alone, and where a package that imports it selects it: by its name and its package.
pub def_info_agree :
    (k k' k'' : Known) (obj : TypesObject) (i i' : AstIdent) (s : AstSelector)
    (nodes nodes' nodes'' : List EnclosingNode) (pos pos' pos'' : ℕ)
    → IsPackageLevel k obj
    → is_ordinary obj.sort ≡ true
    → is_alone nodes ≡ true
    → k.defs i.key ≡ some obj
    → is_alone nodes' ≡ true
    → k'.defs i'.key ≡ none
    → k'.uses i'.key ≡ some obj
    → is_object (k'.scope_lookup i'.name) obj ≡ true
    → k''.defs s.sel.key ≡ none
    → k''.uses s.sel.key ≡ some obj
    → k''.selections s.key ≡ none
    → (def_info k (ident_node i ∷ nodes) pos ≡ ok (object_string obj))
      × (def_info k' (ident_node i' ∷ nodes') pos' ≡ ok (object_string obj))
      × (def_info k'' (ident_node s.sel ∷ selector_node s ∷ nodes'') pos'' ≡ ok (object_string obj))
unfolding ident_info
def_info_agree k k' k'' obj i i' s nodes nodes' nodes'' pos pos' pos'' p o a d a' d' u' l' d'' u''
      n'' =
    (
      node_info_alone k i nodes pos a
          ∙ simp (ident_info, d, defined_info_top k (ident_node i ∷ nodes) i obj p),
      def_info_plain k' obj i' nodes' pos' o a' d' u' l',
      node_info_selected k'' s nodes'' pos''
          ∙ simp (
            ident_info,
            d'',
            u'',
            used_info_selected k'' (ident_node s.sel ∷ selector_node s ∷ nodes'') s obj obj.sort
                refl o n'' u'',
          ),
    )
