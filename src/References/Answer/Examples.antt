-- ===== src/References/Answer/Examples.antt =====
-- langserver/references.go: the theorem on an exported function with one use in each package.
use go_langserver.References.Answer.{Referenced, ReferenceParams, Input, package_scope}
use go_langserver.Lsp.{Location}
use go_langserver.Common.{Bytes, List, [], codes, false, some, true, ◌∷◌}
use go_langserver.References.{Input, reference, tick}
use go_langserver.Common.Int.{pos}

abbrev spot : Bytes → Location
spot uri = record {
  uri = uri;
  range = record {
    start = record { line = pos 0; character = pos 0 };
    end = record { line = pos 0; character = pos 1 };
  };
}

-- A tick in front of everything.
abbrev after_tick : List Location → List Input
after_tick [] = tick ∷ []
after_tick (l ∷ ls) = reference l ∷ after_tick ls

abbrev one_each : List Bytes → List Location
one_each [] = []
one_each (b ∷ bs) = spot b ∷ one_each bs

abbrev a_function : Referenced
a_function = record {
  pkg = some (codes "p");
  builtin = false;
  exported = true;
  parent = package_scope;
  declaration = spot (codes "file:///p.go");
}

abbrev with_limit : ReferenceParams
with_limit = record { uri = codes "file:///p.go"; include_declaration = true; xlimit = pos 2 }
