-- ===== src/Symbol/Descriptor.antt =====
-- langserver/lsp.go and pkg/lspext/lspext.go: the two forms of a symbol descriptor, the struct that
-- the server keeps and the map of the extension's wire format, and what each contains.
use go_langserver.Common.{
  Bool, Bool-cases, Bytes, List, Option, [], beq, codes, false, if◌then◌else◌, inl, inr, none, not,
  refl, some, true, ℕ, ◌==◌, ◌∷◌, ◌≡◌,
}

-- A decoded JSON value; `compound` is an object or an array, which Go cannot compare.
pub data JsonValue : Type 0 where
  null compound : JsonValue
  flag : Bool → JsonValue
  number : ℕ → JsonValue
  text : Bytes → JsonValue

-- lspext.SymbolDescriptor: the entries of the map, in the order in which a loop visits them.
abbrev pub DescriptorMap : Type 0
DescriptorMap = List (Bytes × JsonValue)

pub record SymbolDescriptor : Type 0 where
  pub package_path : Bytes
  pub package_name : Bytes
  pub recv : Bytes
  pub name : Bytes
  pub id : Bytes
  pub vendor : Bool

abbrev eq_flag : Bool → Bool → Bool
eq_flag true b = b
eq_flag false b = not b

-- `s, ok := v.(string); !ok || s != a` is its negation.
abbrev is_text : JsonValue → Bytes → Bool
is_text (text s) a = beq s a
is_text null a = false
is_text compound a = false
is_text (flag b) a = false
is_text (number n) a = false

-- `s, ok := v.(bool); !ok || s != a` is its negation.
abbrev is_flag : JsonValue → Bool → Bool
is_flag (flag b) a = eq_flag b a
is_flag null a = false
is_flag compound a = false
is_flag (text s) a = false
is_flag (number n) a = false

-- The switch of symbolDescriptor.Contains: false where it returns false.
unfoldable pub field_matches : SymbolDescriptor → Bytes → JsonValue → Bool
field_matches a k v =
    if beq k (codes "package")
    then is_text v a.package_path
    else if beq k (codes "packageName")
    then is_text v a.package_name
    else if beq k (codes "recv")
    then is_text v a.recv
    else if beq k (codes "name")
    then is_text v a.name
    else if beq k (codes "id")
    then is_text v a.id
    else if beq k (codes "vendor")
    then is_flag v a.vendor
    else false

-- symbolDescriptor.Contains
unfoldable pub descriptor_contains : SymbolDescriptor → DescriptorMap → Bool
unfolding field_matches
descriptor_contains a [] = true
descriptor_contains a ((k, v) ∷ b) =
    let rest = descriptor_contains a b in if field_matches a k v then rest else false

-- `v == v2`; `none` is the panic of comparing two maps or two slices.
abbrev pub eq_value : JsonValue → JsonValue → Option Bool
eq_value null null = some true
eq_value null compound = some false
eq_value null (flag b) = some false
eq_value null (number n) = some false
eq_value null (text s) = some false
eq_value compound null = some false
eq_value compound compound = none
eq_value compound (flag b) = some false
eq_value compound (number n) = some false
eq_value compound (text s) = some false
eq_value (flag a) null = some false
eq_value (flag a) compound = some false
eq_value (flag a) (flag b) = some (eq_flag a b)
eq_value (flag a) (number n) = some false
eq_value (flag a) (text s) = some false
eq_value (number m) null = some false
eq_value (number m) compound = some false
eq_value (number m) (flag b) = some false
eq_value (number m) (number n) = some (m == n)
eq_value (number m) (text s) = some false
eq_value (text t) null = some false
eq_value (text t) compound = some false
eq_value (text t) (flag b) = some false
eq_value (text t) (number n) = some false
eq_value (text t) (text s) = some (beq t s)

-- `s[k]`
abbrev pub find_value : DescriptorMap → Bytes → Option JsonValue
find_value [] k = none
find_value ((key, v) ∷ s) k = if beq k key then some v else find_value s k

-- One round of the loop of SymbolDescriptor.Contains.
abbrev pub entry_matches : DescriptorMap → Bytes → JsonValue → Option Bool
entry_matches s k v = elim (find_value s k) [ none ↦ some false | some v2 ↦ eq_value v v2 ]

-- SymbolDescriptor.Contains
unfoldable pub map_contains : DescriptorMap → DescriptorMap → Option Bool
map_contains s [] = some true
map_contains s ((k, v) ∷ other) =
    let rest = map_contains s other in
    elim (entry_matches s k v) [ none ↦ none | some b ↦ if b then rest else some false ]

-- The wire form of a descriptor, by the field tags of the struct.
unfoldable pub wire : SymbolDescriptor → DescriptorMap
wire a =
    (codes "package", text a.package_path)
    ∷ (codes "packageName", text a.package_name)
    ∷ (codes "recv", text a.recv)
    ∷ (codes "name", text a.name)
    ∷ (codes "id", text a.id)
    ∷ (codes "vendor", flag a.vendor)
    ∷ []

eq_value-text : (v : JsonValue) (s : Bytes) → eq_value v (text s) ≡ some (is_text v s)
eq_value-text null s = refl
eq_value-text compound s = refl
eq_value-text (flag b) s = refl
eq_value-text (number n) s = refl
eq_value-text (text t) s = refl

eq_value-flag : (v : JsonValue) (b : Bool) → eq_value v (flag b) ≡ some (is_flag v b)
eq_value-flag null b = refl
eq_value-flag compound b = refl
eq_value-flag (flag a) b = refl
eq_value-flag (number n) b = refl
eq_value-flag (text t) b = refl

-- Whichever key an entry has, the two loops judge it alike.
entry_matches-wire :
    (a : SymbolDescriptor) (k : Bytes) (v : JsonValue)
    → entry_matches (wire a) k v ≡ some (field_matches a k v)
unfolding wire field_matches
entry_matches-wire a k v = elim (Bool-cases (beq k (codes "package"))) [
  | inl e ↦ simp (e, entry_matches) (eq_value-text v a.package_path)
  | inr e0 ↦ elim (Bool-cases (beq k (codes "packageName"))) [
    | inl e ↦ simp (e0, e, entry_matches) (eq_value-text v a.package_name)
    | inr e1 ↦ elim (Bool-cases (beq k (codes "recv"))) [
      | inl e ↦ simp (e0, e1, e, entry_matches) (eq_value-text v a.recv)
      | inr e2 ↦ elim (Bool-cases (beq k (codes "name"))) [
        | inl e ↦ simp (e0, e1, e2, e, entry_matches) (eq_value-text v a.name)
        | inr e3 ↦ elim (Bool-cases (beq k (codes "id"))) [
          | inl e ↦ simp (e0, e1, e2, e3, e, entry_matches) (eq_value-text v a.id)
          | inr e4 ↦ elim (Bool-cases (beq k (codes "vendor"))) [
            | inl e ↦ simp (e0, e1, e2, e3, e4, e, entry_matches) (eq_value-flag v a.vendor)
            | inr e5 ↦ simp (e0, e1, e2, e3, e4, e5, entry_matches)
          ]
        ]
      ]
    ]
  ]
]

-- A descriptor contains a query exactly if its wire form does, whatever entries the query has, and
-- comparing the wire form with the query never panics.
pub map_contains-wire :
    (a : SymbolDescriptor) (b : DescriptorMap)
    → map_contains (wire a) b ≡ some (descriptor_contains a b)
unfolding map_contains descriptor_contains
map_contains-wire a [] = refl
map_contains-wire a ((k, v) ∷ b) =
    rw (entry_matches-wire a k v, map_contains)
      (elim (Bool-cases (field_matches a k v)) [
        | inl e ↦ rw e (map_contains-wire a b)
        | inr e ↦ rw e
      ])
