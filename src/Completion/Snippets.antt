-- ===== src/Completion/Snippets.antt =====
-- langserver/completion.go: the snippet of a function as a client shows it.
use go_langserver.Common.{Bytes, List, Option, [], none, some, ℕ, ◌+◌, ◌∷◌}

-- The tab stops of the arguments, from the number `n`.
abbrev pub numbered : (ℕ → Bytes) → ℕ → List Bytes → List Bytes
numbered decimal n [] = []
numbered decimal n (a ∷ args) = decimal n ∷ numbered decimal (n + 1) args

-- The text that funcArgsRegexp has found, if it has found one.
abbrev pub found_args : Option Bytes → Bytes
found_args none = []
found_args (some m) = m
