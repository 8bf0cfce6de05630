-- ===== src/Loading/Named.antt =====
-- langserver/loader.go and build_context.go: which files are loaded.
use go_langserver.Loading.{
  BuildPackage, MultiplePackageError, file_to_pkg_name, files_in_package, test_names,
  build_package_for_named_file, munge_xtest, loaded_files,
}
use mathlib.Core.List.{reverse-append}
use mathlib.Core.Bool.{false≢true}
use mathlib.Core.Path.{subst}
use go_langserver.Common.{
  Bool-cases, Bytes, In, In-append_cases, In-append_left, In-append_right, List, [], any, ap, arith,
  beq, beq→eq, codes, eq→beq, false, has_prefix-append, has_suffix, if◌then◌else◌, inl, inr, none,
  refl, reverse, some, sym, true, ◌++◌, ◌↔◌, ◌∙◌, ◌∷◌, ◌≡◌, ◌⊎◌,
}

has_suffix-append : (s t : Bytes) → has_suffix (s ++ t) t ≡ true
unfolding has_suffix
has_suffix-append s t = rw (reverse-append s t) (has_prefix-append (reverse t) (reverse s))

any-In : (f : Bytes) (fs : List Bytes) → In f fs → any (λ g. beq g f) fs ≡ true
any-In f [] i = absurd i
any-In f (g ∷ fs) (inl e) = rw (eq→beq g f (sym e))
any-In f (g ∷ fs) (inr i) = let rest = any-In f fs i in ground arith

any→In : (f : Bytes) (fs : List Bytes) → any (λ g. beq g f) fs ≡ true → In f fs
any→In f [] h = absurd (false≢true h)
any→In f (g ∷ fs) h = elim (Bool-cases (beq g f)) [
  | inl e ↦ inl (sym (beq→eq g f e))
  | inr e ↦ inr (any→In f fs (rw e at h))
]

-- Where the name of the package that is imported does not end in "_test", the file for which
-- ContainingPackage imports it is among the files that are loaded, if the package has it as a Go file,
-- a test file or a test file of the external test package.
loaded_files-munge_xtest :
    (base : Bytes) (p : BuildPackage)
    → has_suffix p.name (codes "_test") ≡ false
    → In base (p.go_files ++ p.test_go_files) ⊎ In base p.xtest_go_files
    → In base (loaded_files (munge_xtest base p))
unfolding loaded_files munge_xtest
loaded_files-munge_xtest base p n (inr i) =
    rw (any-In base p.xtest_go_files i, n, has_suffix-append p.name (codes "_test")) i
loaded_files-munge_xtest base p n (inl i) =
    elim (Bool-cases (any (λ f. beq f base) p.xtest_go_files)) [
      | inl e ↦ rw (e, n, has_suffix-append p.name (codes "_test")) (any→In base p.xtest_go_files e)
      | inr e ↦ rw (e, n) (In-append_left base _ [] i)
    ]

-- files_in_package keeps exactly the files of the package.
In-files_in_package :
    (m : MultiplePackageError) (fs : List Bytes) (name f : Bytes)
    → In f (files_in_package m fs name) ↔ In f fs × (file_to_pkg_name m f ≡ name)
unfolding files_in_package
In-files_in_package m [] name f = (λ i. absurd i, λ (i, _). absurd i)
In-files_in_package m (g ∷ fs) name f = elim (Bool-cases (beq (file_to_pkg_name m g) name)) [
  | inl e ↦ rw e (
    λ i. elim i [
      | inl q ↦ (inl q, ap (file_to_pkg_name m) q ∙ beq→eq (file_to_pkg_name m g) name e)
      | inr j ↦ let (k, q) = (In-files_in_package m fs name f).0 j in (inr k, q)
    ],
    λ (i, q). elim i [ inl h ↦ inl h | inr j ↦ inr ((In-files_in_package m fs name f).1 (j, q)) ],
  )
  | inr e ↦ rw e (
    λ i. let (k, q) = (In-files_in_package m fs name f).0 i in (inr k, q),
    λ (i, q). elim i [
      | inl h ↦ absurd (
          false≢true
            (sym e ∙ eq→beq (file_to_pkg_name m g) name (ap (file_to_pkg_name m) (sym h) ∙ q)))
      | inr j ↦ (In-files_in_package m fs name f).1 (j, q)
    ],
  )
]

abbrev pub kind_of_file : BuildPackage → Bytes → List Bytes
kind_of_file bpkg pkg_name =
    if has_suffix pkg_name (codes "_test")
    then bpkg.xtest_go_files
    else bpkg.go_files ++ bpkg.test_go_files

module _ (bpkg : BuildPackage) (m : MultiplePackageError) where
  -- The package that is made for a name of a package.
  abbrev named_package : Bytes → BuildPackage
  named_package name = record bpkg {
    name = name;
    go_files = files_in_package m bpkg.go_files (test_names name).0;
    test_go_files = files_in_package m bpkg.test_go_files (test_names name).0;
    xtest_go_files = files_in_package m bpkg.xtest_go_files (test_names name).1;
  }

  named_file :
      (filename : Bytes) (p : BuildPackage)
      → build_package_for_named_file bpkg m filename ≡ some p
      → p ≡ named_package (file_to_pkg_name m filename)
  unfolding build_package_for_named_file
  named_file filename p h = elim (Bool-cases (beq (file_to_pkg_name m filename) [])) [
    | inl e ↦
        let q : build_package_for_named_file bpkg m filename ≡ none =
          rw (build_package_for_named_file, e) in
        cc (q, h)
    | inr e ↦
        let q : build_package_for_named_file bpkg m filename
            ≡ some (named_package (file_to_pkg_name m filename)) =
          rw (build_package_for_named_file, e) in
        cc (q, h)
  ]

  loaded_named :
      (name filename : Bytes)
      → file_to_pkg_name m filename ≡ name
      → In filename (kind_of_file bpkg name)
      → In filename (loaded_files (named_package name))
  unfolding loaded_files
  loaded_named name filename h i = elim (Bool-cases (has_suffix name (codes "_test"))) [
    | inl e ↦ rw e (
        In-append_right filename _ _
          ((In-files_in_package m bpkg.xtest_go_files name filename).1 (rw e at i, h)))
    | inr e ↦ rw e (
        In-append_left filename _ []
          (elim (In-append_cases filename bpkg.go_files bpkg.test_go_files (rw e at i)) [
            | inl j ↦
                In-append_left filename _ _
                  ((In-files_in_package m bpkg.go_files name filename).1 (j, h))
            | inr j ↦
                In-append_right filename _ _
                  ((In-files_in_package m bpkg.test_go_files name filename).1 (j, h))
          ]))
  ]

  loaded_belongs :
      (name file : Bytes)
      → In file (loaded_files (named_package name))
      → (file_to_pkg_name m file ≡ (test_names name).0)
        ⊎ (file_to_pkg_name m file ≡ (test_names name).1)
  unfolding loaded_files
  loaded_belongs name file i = elim (In-append_cases file _ _ i) [
    | inl j ↦ elim (In-append_cases file _ _ j) [
      | inl k ↦ inl (((In-files_in_package m bpkg.go_files (test_names name).0 file).0 k).1)
      | inr k ↦ inl (((In-files_in_package m bpkg.test_go_files (test_names name).0 file).0 k).1)
    ]
    | inr j ↦ elim (Bool-cases (has_suffix name (codes "_test"))) [
      | inl e ↦ rw e (inr (((In-files_in_package m bpkg.xtest_go_files name file).0 (rw e at j)).1))
      | inr e ↦ absurd (rw e at j)
    ]
  ]

  -- In a directory of several packages, the package that is made for a file has that file among the
  -- files that are loaded, if the directory's package has it as a file of that kind, and all files that
  -- are loaded belong to the file's package, or to the package that it tests or that tests it.
  build_package_for_named_file-loaded_files :
      (filename : Bytes) (p : BuildPackage)
      → build_package_for_named_file bpkg m filename ≡ some p
      → In filename (kind_of_file bpkg (file_to_pkg_name m filename))
      → In filename (loaded_files p)
        × ((file : Bytes)
            → In file (loaded_files p)
            → (file_to_pkg_name m file ≡ (test_names (file_to_pkg_name m filename)).0)
              ⊎ (file_to_pkg_name m file ≡ (test_names (file_to_pkg_name m filename)).1))
  build_package_for_named_file-loaded_files filename p h i =
      let q = named_file filename p h in
      (
        subst (λ x. In filename (loaded_files x)) (sym q)
            (loaded_named (file_to_pkg_name m filename) filename refl i),
        λ file j.
            loaded_belongs (file_to_pkg_name m filename) file
              (subst (λ x. In file (loaded_files x)) q j),
      )
