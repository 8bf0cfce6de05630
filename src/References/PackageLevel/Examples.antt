-- ===== src/References/PackageLevel/Examples.antt =====
-- langserver/references.go: the theorem on a file that uses p.Q.
use go_langserver.References.PackageLevel.Walk.{
  selected, selections, unresolved, idents, another_use, inspect-visit,
}
use go_langserver.References.PackageLevel.{visit_user, visit_definer}
use go_langserver.Hover.Target.{TokenPosition}
use go_langserver.Common.{Option, [], codes, false, filter, none, some, true, ℕ, ◌∷◌, ◌≡◌}
use go_langserver.Common.Int.{pos}
use go_langserver.References.Syntax.{Ident, Node, ident, selector, other, child, childless, inspect}

abbrev at : ℕ → TokenPosition
at n = record { filename = codes "/a.go"; offset = pos n }

abbrev p_name : Ident
p_name = record { name = codes "p"; obj = none; pos = at 10 }

abbrev q_name : Option ℕ → ℕ → Ident
q_name obj n = record { name = codes "Q"; obj = obj; pos = at n }

abbrev user_file : Node
user_file = other (
    child (selector (ident p_name) (q_name none 12)) (child (ident (q_name (some 7) 20)) childless))

inspect-visit_example :
    (inspect (visit_user (codes "Q") (codes "p" ∷ []) false) user_file
      ≡ selected (codes "Q") (codes "p" ∷ []) (selections user_file))
    × (inspect (visit_user (codes "Q") [] true) user_file
        ≡ filter (unresolved (codes "Q")) (idents user_file))
    × (inspect (visit_definer 7 (at 5)) user_file
        ≡ filter (another_use 7 (at 5)) (idents user_file))
inspect-visit_example = inspect-visit (codes "Q") (codes "p" ∷ []) 7 (at 5) user_file
