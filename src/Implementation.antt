-- ===== src/Implementation.antt =====
-- langserver/implementation.go: textDocument/implementation. What go/types and the loader give is in
-- the arguments; sort.Sort is a parameter.
pub mod Examples
pub mod Related
pub mod Listed
use go_langserver.Hover.Handle.{TypecheckError, invalid_node, no_go, other_error}
use go_langserver.Interesting.{
  Action, action_expr, action_type, action_unknown, action_stmt, action_package,
}
use go_langserver.Lsp.{Location}
use go_langserver.Position.Ranges.{LinePosition, go_range_to_lsp_location}
use go_langserver.Util.{Os, is_uri}
use go_langserver.Common.Result.{Result, ok, err, panics}
use go_langserver.Common.{
  Bool, Bytes, List, Option, [], false, if◌then◌else◌, length, map, none, not, some, true, ℕ, ◌&&◌,
  ◌++◌, ◌+◌, ◌==◌, ◌||◌, ◌∷◌,
}

-- go/types, over its types T, objects O and methods M. `method_count` is the length of a type's method
-- set, `named_object` the object of a named type, `find_method` the method of that name in the method
-- set of a type, and `identity` stands for the pointer to an object.
pub record TypeTheory (T O M : Type 0) : Type 0 where
  pub is_interface : T → Bool
  pub method_count : T → ℕ
  pub identical : T → T → Bool
  pub assignable : T → T → Bool
  pub new_pointer : T → T
  pub deref : T → T
  pub named_object : T → Option O
  pub find_method : M → T → Option O
  pub identity : O → ℕ
  pub obj_pos : O → ℕ
  pub obj_name : O → Bytes

-- An object of info.Defs: whether it is a type name, an alias, and its named type if it has one.
pub record DefinedObject (T : Type 0) : Type 0 where
  pub is_type_name : Bool
  pub is_alias : Bool
  pub named_type : Option T

-- path[0]: an identifier of a function, with the method and the type of its receiver if it has one, or
-- another expression; with the type of the expression, which may be nil.
pub data SelectedNode (T M : Type 0) : Type 0 where
  a_function : Option (M × T) → Option T → SelectedNode T M
  an_expression : Option T → SelectedNode T M

pub data ImplementationError : Type 0 where
  uri_not_supported : Bytes → ImplementationError
  first_check_failed : TypecheckError → ImplementationError
  program_not_loaded : ℕ → ImplementationError
  not_a_method not_a_type : ImplementationError

-- lspext.ImplementationLocation; `is_to` says that its Type is "to", and else it is "from".
pub record ImplementationLocation : Type 0 where
  pub location : Location
  pub is_to : Bool
  pub ptr : Bool
  pub method : Bool

-- The variables `to`, `from` and `fromPtr`.
pub record RelatedTypes (T : Type 0) : Type 0 where
  pub to : List T
  pub from : List T
  pub from_ptr : List T

-- The switch on the action, with `method` and `T`.
unfoldable pub selected_type :
    {T M : Type 0} → Action → SelectedNode T M → Result ImplementationError (Option M × T)
selected_type action_expr (a_function none t) = err not_a_method
selected_type action_expr (a_function (some (m, recv)) t) = ok (some m, recv)
selected_type action_expr (an_expression none) = err not_a_type
selected_type action_expr (an_expression (some t)) = ok (none, t)
selected_type action_type (a_function f none) = err not_a_type
selected_type action_type (a_function f (some t)) = ok (none, t)
selected_type action_type (an_expression none) = err not_a_type
selected_type action_type (an_expression (some t)) = ok (none, t)
selected_type action_unknown node = err not_a_type
selected_type action_stmt node = err not_a_type
selected_type action_package node = err not_a_type

-- The named types of the packages; `error_type` is the universe's.
unfoldable pub all_named : {T : Type 0} → List (DefinedObject T) → T → List T
all_named [] error_type = error_type ∷ []
all_named (d ∷ ds) error_type =
    let rest = all_named ds error_type in
    elim d.named_type [
      | none ↦ rest
      | some u ↦ if d.is_type_name && not d.is_alias then u ∷ rest else rest
    ]

module _ {T O M : Type 0} (w : TypeTheory T O M) where
  -- One round of the loop over the named types.
  unfoldable pub relate : T → RelatedTypes T → T → RelatedTypes T
  relate t r u =
      if w.is_interface t
      then if w.method_count t == 0
        then r
        else if w.is_interface u
        then if w.method_count u == 0 || w.identical t u then r else record r {
          to = if w.assignable u t then r.to ++ u ∷ [] else r.to;
          from = if w.assignable t u then r.from ++ u ∷ [] else r.from;
        }
        else if w.assignable u t
        then record r { to = r.to ++ u ∷ [] }
        else if w.assignable (w.new_pointer u) t
        then record r { to = r.to ++ w.new_pointer u ∷ [] }
        else r
      else if w.is_interface u
      then if w.method_count u == 0
        then r
        else if w.assignable t u
        then record r { from = r.from ++ u ∷ [] }
        else if w.assignable (w.new_pointer t) u
        then record r { from_ptr = r.from_ptr ++ u ∷ [] }
        else r
      else r

  unfoldable pub relate_all : T → RelatedTypes T → List T → RelatedTypes T
  unfolding relate
  relate_all t r [] = r
  relate_all t r (u ∷ us) = relate_all t (relate t r u) us

  abbrev pub nothing_related : RelatedTypes T
  nothing_related = record { to = []; from = []; from_ptr = [] }

  -- `_, seen := seen[obj]`
  abbrev pub was_seen : List ℕ → O → Bool
  was_seen [] o = false
  was_seen (i ∷ is) o = i == w.identity o || was_seen is o

  -- The object that toLocation shows, and `seen` behind it.
  unfoldable pub shown_object : Option M → List ℕ → T → Option O × List ℕ
  shown_object none seen t = (w.named_object (w.deref t), seen)
  shown_object (some m) seen t = elim (w.find_method m t) [
    | none ↦ (none, seen)
    | some o ↦ if was_seen seen o then (none, seen) else (some o, w.identity o ∷ seen)
  ]

  abbrev pub put_first : Option O → List O → List O
  put_first none os = os
  put_first (some o) os = o ∷ os

  -- One of the three loops over related types, which gives the objects to show.
  unfoldable pub shown_objects : Option M → List ℕ → List T → List O × List ℕ
  unfolding shown_object
  shown_objects m seen [] = ([], seen)
  shown_objects m seen (t ∷ ts) =
      let (shown, seen') = shown_object m seen t in
      let (rest, seen'') = shown_objects m seen' ts in (put_first shown rest, seen'')

  -- The three loops, which share `seen`.
  unfoldable pub shown_in_order : Option M → List T → List T → List T → List O × List O × List O
  unfolding shown_objects
  shown_in_order m to from from_ptr =
      let (a, seen) = shown_objects m [] to in
      let (b, seen') = shown_objects m seen from in
      let (c, seen'') = shown_objects m seen' from_ptr in (a, b, c)

  abbrev pub has_method : Option M → Bool
  has_method none = false
  has_method (some m) = true

  module _ (os : Os) (fset : ℕ → LinePosition) (sort : List T → List T) where
    unfoldable pub to_location : Option M → Bool → Bool → O → ImplementationLocation
    unfolding go_range_to_lsp_location
    to_location m is_to ptr o = record {
      location =
          go_range_to_lsp_location fset os (w.obj_pos o) (w.obj_pos o + length (w.obj_name o));
      is_to = is_to;
      ptr = ptr;
      method = has_method m;
    }

    -- From the three lists of types to the locations.
    unfoldable pub locations : Option M → RelatedTypes T → List ImplementationLocation
    unfolding shown_in_order to_location
    locations m r =
        let (to, from, from_ptr) = shown_in_order m (sort r.to) (sort r.from) (sort r.from_ptr) in
        map (to_location m true false) to
        ++ (map (to_location m false false) from ++ map (to_location m false true) from_ptr)

    unfoldable pub implements :
        T
        → List (DefinedObject T)
        → Action
        → SelectedNode T M
        → Result ImplementationError (List ImplementationLocation)
    unfolding selected_type all_named relate_all locations
    implements error_type defs action selected = elim (selected_type action selected) [
      | err e ↦ err e
      | panics ↦ panics
      | ok (m, t) ↦ ok (locations m (relate_all t nothing_related (all_named defs error_type)))
    ]

    -- What is loaded: the definitions of all packages, and the node with its action.
    unfoldable pub handle_text_document_implementation :
        T
        → Bytes
        → Result TypecheckError (Unit {0})
        → Result ℕ (List (DefinedObject T) × Action × SelectedNode T M)
        → Result ImplementationError (List ImplementationLocation)
    unfolding is_uri implements
    handle_text_document_implementation error_type uri checked loaded =
        if not (is_uri uri) then err (uri_not_supported uri) else elim checked [
          | panics ↦ panics
          | err invalid_node ↦ ok []
          | err no_go ↦ err (first_check_failed no_go)
          | err (other_error n) ↦ err (first_check_failed (other_error n))
          | ok u ↦ elim loaded [
            | panics ↦ panics
            | err e ↦ err (program_not_loaded e)
            | ok (defs, action, selected) ↦ implements error_type defs action selected
          ]
        ]
