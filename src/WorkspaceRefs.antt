-- ===== src/WorkspaceRefs.antt =====
-- langserver/workspace_refs.go: workspace/xreferences. The type checking of the packages and the ticks
-- of the timer are a list of what the loop sees; findPackage and the walk over the directory
-- are parameters.
pub mod Patches
pub mod Handle
pub mod Chosen
pub mod Results
pub mod Wanted
pub mod Examples
use go_langserver.Refs.{Def}
use go_langserver.Util.{is_vendor_dir, path_equal, Os}
use go_langserver.Common.Result.{Result, ok, err, panics}
use go_langserver.Common.Int.{ℤ, pos, ltb_ℤ, pos_part}
use go_langserver.Common.Words.{fields}
use go_langserver.Symbol.Descriptor.{SymbolDescriptor, DescriptorMap, descriptor_contains}
use go_langserver.Common.{
  Bool, Bytes, List, Option, [], any, codes, drop, if◌then◌else◌, length, ltb, none, some, take,
  true, ℕ, ◌++◌, ◌==◌, ◌||◌, ◌∷◌,
}

-- `if limit <= 0 { limit = math.MaxInt32 }`
unfoldable pub xlimit : ℤ → ℕ
xlimit limit = if ltb_ℤ (pos 0) limit then pos_part limit else 2147483647

-- The variable streamPos and the patches that have been sent: the first replaces the value by an
-- empty list, each further one adds its references at the end.
pub record Stream (R : Type 0) : Type 0 where
  pub stream_pos : ℕ
  pub patches : List (List R)

-- What happens while the loop waits: a reference is found, the timer ticks, the type checking is done,
-- with an error or without, or the context is done.
pub data StreamEvent (R : Type 0) : Type 0 where
  found : R → StreamEvent R
  tick : StreamEvent R
  done : Option ℕ → StreamEvent R
  deadline : StreamEvent R

pub data WorkspaceError : Type 0 where
  load_failed : ℕ → WorkspaceError
  context_done : WorkspaceError

module _ {R : Type 0} (limit : ℕ) where
  -- streamUpdate, with whether more can be streamed.
  unfoldable pub stream_update : Stream R → List R → Stream R × Bool
  stream_update s results =
      if length results == s.stream_pos || s.stream_pos == limit
      then (s, ltb s.stream_pos limit)
      else let partial = if ltb limit (length results) then take limit results else results in
        (
          record {
            stream_pos = length partial;
            patches = s.patches ++ drop s.stream_pos partial ∷ [];
          },
          ltb (length partial) limit,
        )

  -- The end of the handler: the final update, and the results at the moment when they are read, which
  -- `late` ones may have joined since.
  unfoldable pub finish_stream :
      List R → Stream R → List R → Stream R × Result WorkspaceError (List R)
  unfolding stream_update
  finish_stream late s results =
      let r = results ++ late in
      ((stream_update s results).0, ok (if ltb limit (length r) then take limit r else r))

  -- The loop, with the results so far. An event list that ends stands for a loop that still waits,
  -- and gives no result.
  unfoldable pub stream_loop :
      List R
      → Stream R
      → List R
      → List (StreamEvent R)
      → Stream R × Option (Result WorkspaceError (List R))
  unfolding finish_stream stream_update
  stream_loop late s results [] = (s, none)
  stream_loop late s results (found r ∷ es) = stream_loop late s (results ++ r ∷ []) es
  stream_loop late s results (done (some e) ∷ es) = (s, some (err (load_failed e)))
  stream_loop late s results (done none ∷ es) =
      let (s', r) = finish_stream late s results in (s', some r)
  stream_loop late s results (deadline ∷ es) = (s, some (err context_done))
  stream_loop late s results (tick ∷ es) =
      let (s', can_send_more) = stream_update s results in
      let rest = stream_loop late s' results es in
      let (s'', r) = finish_stream late s' results in if can_send_more then rest else (s'', some r)

abbrev pub new_stream : {R : Type 0} → Stream R
new_stream = record { stream_pos = 0; patches = [] }

-- The patches behind the first one.
unfoldable pub stream_references :
    {R : Type 0}
    → ℤ
    → List R
    → List (StreamEvent R)
    → Stream R × Option (Result WorkspaceError (List R))
unfolding xlimit stream_loop
stream_references limit late es = stream_loop (xlimit limit) late new_stream [] es

-- build.Package
pub record DefPackage : Type 0 where
  pub dir : Bytes
  pub import_path : Bytes

abbrev with_recv : Bytes → List Bytes → Bytes × Bytes × Bytes
with_recv pkg [] = ([], [], pkg)
with_recv pkg (name ∷ []) = ([], name, pkg ++ codes "/-/" ++ name)
with_recv pkg (recv ∷ name ∷ more) = (recv, name, pkg ++ codes "/-/" ++ recv ++ codes "/" ++ name)

-- defSymbolDescriptor
unfoldable pub def_symbol_descriptor :
    (Bytes → Result ℕ DefPackage) → Def → Result ℕ SymbolDescriptor
unfolding fields is_vendor_dir
def_symbol_descriptor find_package def = elim (find_package def.import_path) [
  | err e ↦ err e
  | panics ↦ panics
  | ok def_pkg ↦
      let (recv, name, id) = with_recv def_pkg.import_path (fields def.path) in
      ok (record {
        package_path = def_pkg.import_path;
        package_name = def.package_name;
        recv = recv;
        name = name;
        id = id;
        vendor = is_vendor_dir def_pkg.dir;
      })
]

-- The `found` of the directory hint; without a hint every directory will do.
abbrev pub is_hinted : Os → Option (List Bytes) → Bytes → Bool
is_hinted os none dir = true
is_hinted os (some dirs) dir = any (path_equal os dir) dirs

-- The packages under the root that are loaded, with the import paths whose references count. `dirs` is
-- the hint; a package that cannot be found is skipped.
unfoldable pub choose_packages :
    Os → (Bytes → Option DefPackage) → Option (List Bytes) → List Bytes → List Bytes × List Bytes
unfolding path_equal
choose_packages os find dirs [] = ([], [])
choose_packages os find dirs (pkg ∷ pkgs) =
    let (chosen, unvendored) = choose_packages os find dirs pkgs in
    elim (find pkg) [
      | none ↦ (chosen, unvendored)
      | some bpkg ↦
          if is_hinted os dirs bpkg.dir
          then (pkg ∷ chosen, bpkg.import_path ∷ (bpkg.import_path ++ codes "_test") ∷ unvendored)
          else (chosen, unvendored)
    ]
