-- ===== src/Interesting/Ending.antt =====
-- langserver/ast.go: when the loop of findInterestingNode ends.
use mathlib.Core.Path.{subst}
use go_langserver.Common.{
  All, Bool-cases, List, [], ap, inl, inr, none, refl, some, suc, true, zero, ℕ, ◌∙◌, ◌∷◌, ◌≡◌, ◌≢◌,
  ◌⊎◌,
}
use go_langserver.Interesting.{
  Spec, import_spec, value_spec, type_spec, Node, gen_decl, func_decl, spec, field, selector_expr,
  ident, stmt, type_expr, struct_type, uninteresting, file, ellipsis, field_list, basic_lit,
  star_expr, expr, other, builtin, no_object, PackageInfo, Round, returns, continues, panicked,
  round, find_interesting_node, action_unknown,
}
use go_langserver.Interesting.Rounds.{
  IsLast, basic_lit_round-IsLast, object_round-IsLast, object_cases,
}

-- Rounds enough for a path: three for a node, since a round that adds a node comes twice at most, and
-- `k` more.
unfoldable pub fuel_for : List Node → ℕ → ℕ
fuel_for [] k = suc k
fuel_for (n ∷ path) k = suc (suc (suc (fuel_for path k)))

fuel_for-suc : (path : List Node) (k : ℕ) → fuel_for path (suc k) ≡ suc (fuel_for path k)
unfolding fuel_for
fuel_for-suc [] k = refl
fuel_for-suc (n ∷ path) k = rw (fuel_for-suc path k)

module _ (info : PackageInfo) where
  abbrev pub Ended : ℕ → List Node → Type 0
  Ended fuel path = (r : Round) × (find_interesting_node info fuel path ≡ some r)

  goes_on :
      (fuel : ℕ) (n : Node) (rest path : List Node)
      → round info n rest ≡ continues path
      → find_interesting_node info (suc fuel) (n ∷ rest) ≡ find_interesting_node info fuel path
  unfolding find_interesting_node
  goes_on fuel n rest path e = rw (e, find_interesting_node)

  last-Ended :
      (fuel : ℕ) (n : Node) (rest : List Node)
      → IsLast (round info n rest)
      → Ended (suc fuel) (n ∷ rest)
  unfolding find_interesting_node
  last-Ended fuel n rest h = from (round info n rest) refl h
    where
      from : (r : Round) → round info n rest ≡ r → IsLast r → Ended (suc fuel) (n ∷ rest)
      from (returns path action) e k = (returns path action, rw (e, find_interesting_node))
      from panicked e k = (panicked, rw (e, find_interesting_node))
      from (continues path) e k = absurd k

  then-Ended :
      (fuel : ℕ) (n : Node) (rest path : List Node)
      → round info n rest ≡ continues path
      → Ended fuel path
      → Ended (suc fuel) (n ∷ rest)
  then-Ended fuel n rest path e (r, h) = (r, goes_on fuel n rest path e ∙ h)

  -- An identifier whose object ends the loop.
  abbrev pub IsResolved : ℕ → Type 0
  IsResolved id = (info.object_of id ≢ builtin) × (info.object_of id ≢ no_object)

  abbrev pub IsSpecSettled : Spec → Type 0
  IsSpecSettled (import_spec s) = Unit
  IsSpecSettled (value_spec []) = Unit
  IsSpecSettled (value_spec (id ∷ [])) = IsResolved id
  IsSpecSettled (value_spec (id ∷ id' ∷ ids)) = Unit
  IsSpecSettled (type_spec id) = IsResolved id

  -- The names that the loop descends to are resolved.
  abbrev pub IsSettled : Node → Type 0
  IsSettled (gen_decl (s ∷ [])) = IsSpecSettled s
  IsSettled (func_decl id) = IsResolved id
  IsSettled (spec s) = IsSpecSettled s
  IsSettled (field (id ∷ [])) = IsResolved id
  IsSettled (selector_expr id) = IsResolved id
  IsSettled n = Unit

  ident-Ended :
      (fuel id : ℕ) (rest : List Node) → IsResolved id → Ended (suc fuel) (ident id ∷ rest)
  unfolding round
  ident-Ended fuel id rest (h, k) =
      last-Ended fuel (ident id) rest (object_round-IsLast (info.object_of id) (ident id) rest h k)

  spec-Ended :
      (fuel : ℕ) (s : Spec) (rest : List Node)
      → IsSpecSettled s
      → Ended (suc (suc fuel)) (spec s ∷ rest)
  unfolding round
  spec-Ended fuel (import_spec s) rest h = last-Ended (suc fuel) (spec (import_spec s)) rest tt
  spec-Ended fuel (value_spec []) rest h = last-Ended (suc fuel) (spec (value_spec [])) rest tt
  spec-Ended fuel (value_spec (id ∷ [])) rest h =
      then-Ended (suc fuel) (spec (value_spec (id ∷ []))) rest _ refl (ident-Ended fuel id _ h)
  spec-Ended fuel (value_spec (id ∷ id' ∷ ids)) rest h =
      last-Ended (suc fuel) (spec (value_spec (id ∷ id' ∷ ids))) rest tt
  spec-Ended fuel (type_spec id) rest h =
      then-Ended (suc fuel) (spec (type_spec id)) rest _ refl (ident-Ended fuel id _ h)

  round_selector :
      (id : ℕ) (rest : List Node)
      → info.uses id ≡ true
      → round info (selector_expr id) rest ≡ continues (ident id ∷ selector_expr id ∷ rest)
  unfolding round
  round_selector id rest u = rw u

  round_builtin :
      (id : ℕ) (rest : List Node)
      → info.object_of id ≡ builtin
      → round info (ident id) rest ≡ continues rest
  unfolding round
  round_builtin id rest b = rw b

  selector-Ended :
      (fuel id : ℕ) (rest : List Node)
      → IsResolved id
      → Ended (suc (suc fuel)) (selector_expr id ∷ rest)
  unfolding round
  selector-Ended fuel id rest h = elim (Bool-cases (info.uses id)) [
    | inl e ↦
        then-Ended (suc fuel) (selector_expr id) rest _ (round_selector id rest e)
          (ident-Ended fuel id _ h)
    | inr e ↦ last-Ended (suc fuel) (selector_expr id) rest (rw (e, round) tt)
  ]

  -- A settled node ends the loop within three rounds or is left for the node behind it.
  node_cases :
      (fuel : ℕ) (n : Node) (rest : List Node)
      → IsSettled n
      → Ended (suc (suc (suc fuel))) (n ∷ rest) ⊎ (round info n rest ≡ continues rest)
  unfolding round
  node_cases fuel (gen_decl []) rest h = inl (last-Ended _ (gen_decl []) rest tt)
  node_cases fuel (gen_decl (s ∷ [])) rest h =
      inl (then-Ended _ (gen_decl (s ∷ [])) rest _ refl (spec-Ended fuel s _ h))
  node_cases fuel (gen_decl (s ∷ t ∷ specs)) rest h =
      inl (last-Ended _ (gen_decl (s ∷ t ∷ specs)) rest tt)
  node_cases fuel (func_decl id) rest h =
      inl (then-Ended _ (func_decl id) rest _ refl (ident-Ended (suc fuel) id _ h))
  node_cases fuel (spec s) rest h = inl (spec-Ended (suc fuel) s rest h)
  node_cases fuel (field []) rest h = inr refl
  node_cases fuel (field (id ∷ [])) rest h =
      inl (then-Ended _ (field (id ∷ [])) rest _ refl (ident-Ended (suc fuel) id _ h))
  node_cases fuel (field (id ∷ id' ∷ ids)) rest h = inr refl
  node_cases fuel (selector_expr id) rest h = inl (selector-Ended (suc fuel) id rest h)
  node_cases fuel (ident id) rest h = elim (object_cases (info.object_of id) (ident id) rest) [
    | inl l ↦ inl (last-Ended _ (ident id) rest l)
    | inr e ↦ inr e
  ]
  node_cases fuel (basic_lit m) rest h =
      inl (last-Ended _ (basic_lit m) rest (basic_lit_round-IsLast (basic_lit m) rest))
  node_cases fuel (ellipsis m) rest h = inr refl
  node_cases fuel (field_list m) rest h = inr refl
  node_cases fuel (other m) rest h = inr refl
  node_cases fuel (stmt m) rest h = inl (last-Ended _ (stmt m) rest tt)
  node_cases fuel (type_expr m) rest h = inl (last-Ended _ (type_expr m) rest tt)
  node_cases fuel (struct_type m) rest h = inl (last-Ended _ (struct_type m) rest tt)
  node_cases fuel (uninteresting m) rest h = inl (last-Ended _ (uninteresting m) rest tt)
  node_cases fuel (file m) rest h = inl (last-Ended _ (file m) rest tt)
  node_cases fuel (star_expr m) rest h = inl (last-Ended _ (star_expr m) rest tt)
  node_cases fuel (expr m) rest h = inl (last-Ended _ (expr m) rest tt)

  -- The loop ends, within three rounds for each node and one more, on every path whose declarations,
  -- fields and selectors name no builtin function and no identifier without object.
  pub find_interesting_node_ends :
      (path : List Node) (k : ℕ)
      → All IsSettled path
      → (r : Round) × (find_interesting_node info (fuel_for path k) path ≡ some r)
  unfolding fuel_for find_interesting_node
  find_interesting_node_ends [] k h = (returns [] action_unknown, refl)
  find_interesting_node_ends (n ∷ rest) k (p, h) = elim (node_cases (fuel_for rest k) n rest p) [
    | inl e ↦ e
    | inr e ↦ then-Ended (suc (suc (fuel_for rest k))) n rest rest e (
        subst (λ f. Ended f rest) (fuel_for-suc rest (suc k) ∙ ap suc (fuel_for-suc rest k))
          (find_interesting_node_ends rest (suc (suc k)) h))
  ]

  -- A selector of a builtin function, such as unsafe.Sizeof, never ends the loop: it descends to the
  -- name and ascends to the selector again.
  pub find_interesting_node_builtin :
      (fuel id : ℕ) (rest : List Node)
      → info.uses id ≡ true
      → info.object_of id ≡ builtin
      → find_interesting_node info fuel (selector_expr id ∷ rest) ≡ none
  unfolding find_interesting_node round
  find_interesting_node_builtin zero id rest u b = refl
  find_interesting_node_builtin (suc zero) id rest u b = rw (u, find_interesting_node)
  find_interesting_node_builtin (suc (suc fuel)) id rest u b =
      goes_on (suc fuel) (selector_expr id) rest _ (round_selector id rest u)
      ∙ (goes_on fuel (ident id) (selector_expr id ∷ rest) (selector_expr id ∷ rest)
            (round_builtin id (selector_expr id ∷ rest) b)
          ∙ find_interesting_node_builtin fuel id rest u b)
