-- ===== src/References/Syntax.antt =====
-- The part of go/ast that langserver/references.go looks at: identifiers and selector expressions among
-- other nodes, and ast.Inspect.
use go_langserver.Common.{Bool, Bytes, List, Option, [], if◌then◌else◌, ℕ, ◌++◌}
use go_langserver.Hover.Target.{TokenPosition}

-- An identifier with the object that the parser has resolved it to, if any.
pub record Ident : Type 0 where
  pub name : Bytes
  pub obj : Option ℕ
  pub pos : TokenPosition

mutual
  pub data Node : Type 0 where
    ident : Ident → Node
    selector : Node → Ident → Node
    other : Children → Node

  pub data Children : Type 0 where
    childless : Children
    child : Node → Children → Children

-- ast.Inspect with a function that sends some identifiers and says whether to go into the children.
unfoldable mutual
  pub inspect : (Node → List Ident × Bool) → Node → List Ident
  inspect visit (ident i) = (visit (ident i)).0
  inspect visit (selector x sel) =
      let inside = inspect visit x ++ (visit (ident sel)).0 in
      let (sent, go_on) = visit (selector x sel) in sent ++ (if go_on then inside else [])
  inspect visit (other ns) =
      let inside = inspect_children visit ns in
      let (sent, go_on) = visit (other ns) in sent ++ (if go_on then inside else [])

  pub inspect_children : (Node → List Ident × Bool) → Children → List Ident
  inspect_children visit childless = []
  inspect_children visit (child n ns) = inspect visit n ++ inspect_children visit ns
