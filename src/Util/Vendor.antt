-- ===== src/Util/Vendor.antt =====
-- langserver/util/util.go: VendorlessImportPath against IsVendorDir.
use go_langserver.Common.{
  Bool-cases, Bytes, Option-cases, [], after_last, arith, codes, contains, drop, false, has_prefix,
  has_prefix→eq, if◌then◌else◌, inl, inr, length, none, some, true, ℕ, ◌++◌, ◌||◌, ◌∙◌, ◌∷◌, ◌≡◌,
  ◌⊎◌,
}
use go_langserver.Util.{is_vendor_dir, vendorless_import_path}

abbrev vendor : Bytes
vendor = codes "vendor/"

abbrev slash_vendor : Bytes
slash_vendor = codes "/vendor/"

-- No last occurrence, no occurrence.
after_last-none : (s t : Bytes) → after_last s t ≡ none → contains s t ≡ false
unfolding after_last contains
after_last-none [] t h = ground arith
after_last-none (a ∷ s) t h = ground (arith, after_last-none s t)

after_last-some : (s t r : Bytes) → after_last s t ≡ some r → contains s t ≡ true
unfolding after_last contains
after_last-some [] t r h = ground arith
after_last-some (a ∷ s) t r h = elim (Option-cases (after_last s t)) [
  | inl n ↦ ground arith
  | inr (q, e) ↦ ground (arith, after_last-some s t q e)
]

-- What is left behind a vendor directory with no other one inside is in no vendor directory.
plain_rest : (r : Bytes) → contains (vendor ++ r) slash_vendor ≡ false → is_vendor_dir r ≡ false
unfolding is_vendor_dir contains has_prefix
plain_rest r h = ground arith

last_at_head :
    (a : ℕ) (s r : Bytes)
    → after_last s slash_vendor ≡ none
    → after_last (a ∷ s) slash_vendor ≡ some r
    → s ≡ vendor ++ r
unfolding after_last has_prefix
last_at_head a s r n h = ground (arith, has_prefix→eq s vendor)

after_last_plain : (s r : Bytes) → after_last s slash_vendor ≡ some r → is_vendor_dir r ≡ false
unfolding after_last
after_last_plain [] r h = unfold has_prefix in cc
after_last_plain (a ∷ s) r h = elim (Option-cases (after_last s slash_vendor)) [
  | inl n ↦ plain_rest r (rw (last_at_head a s r n h) at (after_last-none s slash_vendor n))
  | inr (q, later) ↦ after_last_plain s r (later ∙ (rw later at h))
]

kept_or_cut :
    (s : Bytes)
    → contains s slash_vendor ≡ false
    → is_vendor_dir (if has_prefix s vendor then drop (length vendor) s else s) ≡ false
kept_or_cut s h = elim (Bool-cases (has_prefix s vendor)) [
  | inl e ↦ rw e (plain_rest _ (rw (has_prefix→eq s vendor e) at h))
  | inr e ↦ rw e (unfold is_vendor_dir in rw (e, h))
]

kept :
    (s : Bytes)
    → ((has_prefix s vendor || contains s slash_vendor) ≡ true)
      ⊎ ((if has_prefix s vendor then drop (length vendor) s else s) ≡ s)
kept s = elim (Bool-cases (has_prefix s vendor)) [ inl e ↦ inl (rw e) | inr e ↦ inr (rw e) ]

-- The devendorised path names no vendor directory any more, and a path that names none is kept.
pub vendorless_import_path_plain :
    (ipath : Bytes)
    → (is_vendor_dir (vendorless_import_path ipath) ≡ false)
      × ((is_vendor_dir ipath ≡ true) ⊎ (vendorless_import_path ipath ≡ ipath))
unfolding vendorless_import_path
vendorless_import_path_plain ipath = elim (Option-cases (after_last ipath slash_vendor)) [
  | inl n ↦
      rw (n, vendorless_import_path)
        (
          kept_or_cut ipath (after_last-none ipath slash_vendor n),
          unfold is_vendor_dir in kept ipath,
        )
  | inr (q, later) ↦
      rw (later, vendorless_import_path)
        (
          after_last_plain ipath q later,
          inl (unfold is_vendor_dir in ground (arith, after_last-some ipath slash_vendor q later)),
        )
]
