-- ===== src/Completion/Examples.antt =====
-- langserver/completion.go: the completion of f, with an argument of a struct type.
use go_langserver.Common.{
  ◌/◌, Bytes, Option, [], codes, if◌then◌else◌, ltb, some, suc, zero, ℕ, ◌%◌, ◌++◌, ◌+◌, ◌∷◌,
}

-- The digits of a number, the fuel of which is the number.
abbrev digits_of : ℕ → ℕ → Bytes
digits_of zero n = (b'0' + n % 10) ∷ []
digits_of (suc fuel) n =
    let front = digits_of fuel (n / 10) in
    if ltb n 10 then (b'0' + n % 10) ∷ [] else front ++ (b'0' + n % 10) ∷ []

abbrev decimal : ℕ → Bytes
decimal n = digits_of n n

abbrev struct_args : Bytes → Option Bytes
struct_args detail = some (codes "a T{}")
