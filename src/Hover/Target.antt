-- ===== src/Hover/Target.antt =====
-- langserver/hover.go: findDocTarget, which looks for the declaration at a position in a package's
-- documentation.
use go_langserver.Util.{Os, path_equal}
use go_langserver.Common.Int.{ℤ, ltb_ℤ}
use go_langserver.Common.{
  Bool, Bool-cases, Bytes, List, Option, [], false, if◌then◌else◌, inl, inr, map, none, not, refl,
  some, sym, ℕ, ◌&&◌, ◌++◌, ◌||◌, ◌∷◌, ◌≡◌,
}

-- token.Position, as far as the code reads it.
pub record TokenPosition : Type 0 where
  pub filename : Bytes
  pub offset : ℤ

-- v.Decl of a documented object: where it starts and ends, and which it is.
pub record Decl : Type 0 where
  pub from_pos : TokenPosition
  pub to_pos : TokenPosition
  pub number : ℕ

-- doc.Type: its own declaration with those of its constants, variables, functions and methods.
pub record DocType : Type 0 where
  pub decl : Decl
  pub consts : List Decl
  pub vars : List Decl
  pub funcs : List Decl
  pub methods : List Decl

pub record DocPackage : Type 0 where
  pub consts : List Decl
  pub types : List DocType
  pub vars : List Decl
  pub funcs : List Decl

-- The three types that findDocTarget returns a pointer to.
pub data DocObject : Type 0 where
  doc_value : Decl → DocObject
  doc_type : Decl → DocObject
  doc_func : Decl → DocObject

abbrev pub object_decl : DocObject → Decl
object_decl (doc_value d) = d
object_decl (doc_type d) = d
object_decl (doc_func d) = d

infixr 20 ◌or_else◌
abbrev pub ◌or_else◌ {ℓ} : {A : Type ℓ} → Option A → Option A → Option A
none or_else y = y
some a or_else y = some a

or_else_assoc {ℓ} :
    {A : Type ℓ} (x y z : Option A) → ((x or_else y) or_else z) ≡ (x or_else y or_else z)
or_else_assoc none y z = refl
or_else_assoc (some a) y z = refl

module _ (os : Os) (target : TokenPosition) where
  unfoldable pub in_range : TokenPosition → TokenPosition → Bool
  in_range a b =
      if not (path_equal os target.filename a.filename)
        || not (path_equal os target.filename b.filename)
      then false
      else not (ltb_ℤ target.offset a.offset) && not (ltb_ℤ b.offset target.offset)

  abbrev pub holds : Decl → Bool
  holds d = in_range d.from_pos d.to_pos

  -- The case of a value or a function.
  unfoldable pub find_decl : (Decl → DocObject) → Decl → Option DocObject
  find_decl make d = if holds d then some (make d) else none

  -- A loop over declarations.
  unfoldable pub find_decls : (Decl → DocObject) → List Decl → Option DocObject
  unfolding find_decl
  find_decls make [] = none
  find_decls make (d ∷ ds) = find_decl make d or_else find_decls make ds

  unfoldable pub find_doc_type : DocType → Option DocObject
  unfolding find_decls
  find_doc_type t =
      if holds t.decl
      then some (doc_type t.decl)
      else (find_decls doc_value t.consts
          or_else find_decls doc_value t.vars
          or_else find_decls doc_func t.funcs
          or_else find_decls doc_func t.methods)

  unfoldable pub find_doc_types : List DocType → Option DocObject
  unfolding find_doc_type
  find_doc_types [] = none
  find_doc_types (t ∷ ts) = find_doc_type t or_else find_doc_types ts

  -- findDocTarget of a package.
  unfoldable pub find_doc_target : DocPackage → Option DocObject
  unfolding find_decls find_doc_types
  find_doc_target p =
      find_decls doc_value p.consts
      or_else find_doc_types p.types
      or_else find_decls doc_value p.vars
      or_else find_decls doc_func p.funcs

  -- The documented objects of a package in the order in which they are searched.
  unfoldable pub type_objects : DocType → List DocObject
  type_objects t =
      doc_type t.decl ∷ map doc_value t.consts
      ++ map doc_value t.vars
      ++ map doc_func t.funcs
      ++ map doc_func t.methods

  unfoldable pub types_objects : List DocType → List DocObject
  unfolding type_objects
  types_objects [] = []
  types_objects (t ∷ ts) = type_objects t ++ types_objects ts

  unfoldable pub package_objects : DocPackage → List DocObject
  unfolding types_objects
  package_objects p =
      map doc_value p.consts
      ++ types_objects p.types
      ++ map doc_value p.vars
      ++ map doc_func p.funcs

  unfoldable pub first_holding : List DocObject → Option DocObject
  first_holding [] = none
  first_holding (x ∷ xs) = if holds (object_decl x) then some x else first_holding xs

  first_holding-append :
      (xs ys : List DocObject)
      → first_holding (xs ++ ys) ≡ (first_holding xs or_else first_holding ys)
  unfolding first_holding
  first_holding-append [] ys = refl
  first_holding-append (x ∷ xs) ys = elim (Bool-cases (holds (object_decl x))) [
    | inl e ↦ rw e
    | inr e ↦ rw (e, first_holding-append xs ys)
  ]

  first_holding_four :
      (a b c d : List DocObject)
      → first_holding (a ++ b ++ c ++ d)
        ≡ (first_holding a or_else first_holding b or_else first_holding c or_else first_holding d)
  first_holding_four a b c d = rw (
    first_holding-append (a ++ b ++ c) d,
    first_holding-append (a ++ b) c,
    first_holding-append a b,
    or_else_assoc (first_holding a or_else first_holding b) (first_holding c) (first_holding d),
    or_else_assoc (first_holding a) (first_holding b) (first_holding c or_else first_holding d),
  )

  find_decls-first :
      (make : Decl → DocObject)
      → ((d : Decl) → object_decl (make d) ≡ d)
      → (ds : List Decl) → find_decls make ds ≡ first_holding (map make ds)
  unfolding find_decls find_decl first_holding
  find_decls-first make h [] = refl
  find_decls-first make h (d ∷ ds) = elim (Bool-cases (holds d)) [
    | inl e ↦ rw (h d, e)
    | inr e ↦ rw (h d, e, find_decls-first make h ds)
  ]

  find_doc_type-first : (t : DocType) → find_doc_type t ≡ first_holding (type_objects t)
  unfolding find_doc_type first_holding type_objects
  find_doc_type-first t = elim (Bool-cases (holds t.decl)) [
    | inl e ↦ rw e
    | inr e ↦
        rw
          (
            e,
            find_decls-first doc_value (λ d. refl) t.consts,
            find_decls-first doc_value (λ d. refl) t.vars,
            find_decls-first doc_func (λ d. refl) t.funcs,
            find_decls-first doc_func (λ d. refl) t.methods,
          )
          (sym (
            first_holding_four (map doc_value t.consts) (map doc_value t.vars)
              (map doc_func t.funcs) (map doc_func t.methods)))
  ]

  find_doc_types-first : (ts : List DocType) → find_doc_types ts ≡ first_holding (types_objects ts)
  unfolding find_doc_types types_objects
  find_doc_types-first [] = unfold first_holding in refl
  find_doc_types-first (t ∷ ts) = rw (
    find_doc_type-first t,
    find_doc_types-first ts,
    first_holding-append (type_objects t) (types_objects ts),
  )

  -- The declaration that a hover finds is the first one that contains the position, of the constants,
  -- the types, each followed by its own constants, variables, functions and methods, the variables
  -- and the functions of the package; there is none only if none of them contains it.
  find_doc_target-first : (p : DocPackage) → find_doc_target p ≡ first_holding (package_objects p)
  unfolding find_doc_target package_objects
  find_doc_target-first p =
      rw
        (
          find_decls-first doc_value (λ d. refl) p.consts,
          find_doc_types-first p.types,
          find_decls-first doc_value (λ d. refl) p.vars,
          find_decls-first doc_func (λ d. refl) p.funcs,
        )
        (sym (
          first_holding_four (map doc_value p.consts) (types_objects p.types) (map doc_value p.vars)
            (map doc_func p.funcs)))
