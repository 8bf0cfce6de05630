-- ===== src/Util/Prefix.antt =====
-- langserver/util/util.go: what PathHasPrefix, PathTrimPrefix, PathEqual and PathToURI compute.
use go_langserver.Common.{
  Bool-cases, Bytes, [], append-nil, append_assoc, arith, beq, beq_iff, beq_self, codes, drop,
  eq→beq, has_prefix, has_prefix-append, has_prefix→eq, has_suffix, if◌then◌else◌, inl, inr, length,
  not, refl, suc, sym, trim_prefix, true, zero, ℕ, ◌++◌, ◌||◌, ◌↔◌, ◌∙◌, ◌∷◌, ◌≡◌, ◌⊎◌,
}
use go_langserver.Util.{
  Os, normal, with_slash, rooted, virtual_path, path_has_prefix, path_trim_prefix, path_equal,
  is_uri, path_to_uri,
}

drop_nil : (n : ℕ) → drop {A = ℕ} n [] ≡ []
drop_nil zero = refl
drop_nil (suc n) = refl

drop_self : (q : Bytes) → drop (length q) q ≡ []
drop_self [] = refl
drop_self (a ∷ q) = drop_self q

has_prefix_self : (q : Bytes) → has_prefix q q ≡ true
unfolding has_prefix
has_prefix_self [] = refl
has_prefix_self (a ∷ q) = ground (arith, has_prefix_self q)

trim_prefix_nil : (s p : Bytes) → (trim_prefix s p ≡ []) ↔ ((s ≡ p) ⊎ (s ≡ []))
unfolding trim_prefix
trim_prefix_nil s p =
    ground
      (arith, has_prefix→eq s p, drop_self p, drop_nil (length p), has_prefix_self p, append-nil p)

trimmed_iff :
    (s p w : Bytes)
    → (beq (if beq s p then [] else trim_prefix s w) [] ≡ true) ↔ ((s ≡ p) ⊎ (s ≡ w) ⊎ (s ≡ []))
trimmed_iff s p w =
    ground (arith, beq_iff s p, trim_prefix_nil s w, beq_iff (trim_prefix s w) [], beq_self [])

-- PathEqual holds exactly of two paths that are equal once normalised, of a path that is the
-- other one with a slash behind it, and of the empty path with any other.
path_equal_iff :
    (os : Os) (a b : Bytes)
    → (path_equal os a b ≡ true) ↔ (
        (normal os a ≡ normal os b) ⊎ (normal os a ≡ with_slash (normal os b)) ⊎ (normal os a ≡ []))
unfolding path_equal
path_equal_iff os a b = trimmed_iff (normal os a) (normal os b) (with_slash (normal os b))

prefixed_iff :
    (s p w : Bytes)
    → (if beq s p then true else beq s w || has_prefix s w) ≡ true ↔ (
        (s ≡ p) × ((if beq s p then [] else trim_prefix s w) ≡ [])
        ⊎ (s ≡ w ++ (if beq s p then [] else trim_prefix s w)))
unfolding trim_prefix
prefixed_iff s p w = ground (
  arith,
  beq_iff s p,
  beq_iff s w,
  has_prefix→eq s w,
  has_prefix_self w,
  has_prefix-append w (trim_prefix s w),
)

-- PathHasPrefix holds of a path equal to the prefix and of one that continues it behind a slash;
-- PathTrimPrefix then removes exactly the prefix with its slash.
path_has_prefix_iff :
    (os : Os) (s p : Bytes)
    → (path_has_prefix os s p ≡ true) ↔ (
        (normal os s ≡ normal os p) × (path_trim_prefix os s p ≡ [])
        ⊎ (normal os s ≡ with_slash (normal os p) ++ path_trim_prefix os s p))
unfolding path_has_prefix path_trim_prefix
path_has_prefix_iff os s p = prefixed_iff (normal os s) (normal os p) (with_slash (normal os p))

-- What a path continues behind a slash, once both are normalised.
Within : Os → Bytes → Bytes → Type 0
Within os s p =
    (normal os s ≡ normal os p)
    ⊎ ((rest : Bytes) × (normal os s ≡ with_slash (normal os p) ++ rest))

Within-has_prefix : (os : Os) (s p : Bytes) → path_has_prefix os s p ≡ true → Within os s p
unfolding Within
Within-has_prefix os s p h = elim ((path_has_prefix_iff os s p).0 h) [
  | inl (e, _) ↦ inl e
  | inr e ↦ inr (path_trim_prefix os s p, e)
]

has_prefix-Within : (os : Os) (s p : Bytes) → Within os s p → path_has_prefix os s p ≡ true
unfolding Within path_has_prefix
has_prefix-Within os s p (inl e) = ground (arith, eq→beq (normal os s) (normal os p) e)
has_prefix-Within os s p (inr (rest, e)) =
    ground (arith, has_prefix-append (with_slash (normal os p)) rest)

-- With a slash behind it a text either stays or gains one byte.
with_slash_split : (p : Bytes) → (end : Bytes) × (with_slash p ≡ p ++ end)
unfolding with_slash
with_slash_split p = elim (Bool-cases (has_suffix p (codes "/"))) [
  | inl e ↦ ([], rw e (sym (append-nil p)))
  | inr e ↦ (codes "/", rw e)
]

Within-trans : (os : Os) (a b c : Bytes) → Within os a b → Within os b c → Within os a c
unfolding Within
Within-trans os a b c (inl e) (inl f) = inl (e ∙ f)
Within-trans os a b c (inl e) (inr (r, f)) = inr (r, e ∙ f)
Within-trans os a b c (inr (q, e)) (inl f) = inr (q, rw f at e)
Within-trans os a b c (inr (q, e)) (inr (r, f)) =
    let (end, g) = with_slash_split (normal os b) in
    inr (r ++ (end ++ q), e ∙ rw (g, f) (simp append_assoc))

-- Being under a directory is transitive: a path under a directory that is under another one is
-- under that other one.
pub path_has_prefix_trans :
    (os : Os) (a b c : Bytes)
    → path_has_prefix os a b ≡ true
    → path_has_prefix os b c ≡ true
    → path_has_prefix os a c ≡ true
path_has_prefix_trans os a b c h k =
    has_prefix-Within os a c
      (Within-trans os a b c (Within-has_prefix os a b h) (Within-has_prefix os b c k))

has_slash-rooted : (s : Bytes) → has_prefix (rooted s) (codes "/") ≡ true
unfolding rooted
has_slash-rooted s = ground (arith, has_prefix-append (codes "/") s)

-- PathToURI gives a URI that IsURI accepts for every path but the empty one.
pub is_uri-path_to_uri : (os : Os) (path : Bytes) → is_uri (path_to_uri os path) ≡ not (beq path [])
unfolding is_uri path_to_uri beq has_prefix
is_uri-path_to_uri os [] = refl
is_uri-path_to_uri os (c ∷ path) = has_slash-rooted (virtual_path os (c ∷ path))
