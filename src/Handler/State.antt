-- ===== src/Handler/State.antt =====
-- langserver/handler_common.go, handler_shared.go and the state of handler.go, with reset,
-- resetCaches, ShutDown and CheckReady. A cache and the import graph are opaque: the interface
-- `Caches` has what resetCaches does with them.
use go_langserver.Common.{
  Bool, Bytes, List, Option, [], if◌then◌else◌, none, not, some, true, ◌++◌, ◌∷◌,
}
use go_langserver.Common.Result.{Result, ok, err, ◌>>=◌}
use go_langserver.Lsp.{DocumentUri, InitializeParams, root}
use go_langserver.Util.{is_uri, uri_to_path}
use go_langserver.Overlay.{Overlay, new_overlay}
use go_langserver.Cancel.{Cancel, new_cancel}

pub data HandlerError : Type 0 where
  not_initialized already_initialized shutting_down : HandlerError
  reset_while_shutting_down : HandlerError
  invalid_root : DocumentUri → HandlerError

pub record HandlerCommon : Type 0 where
  pub root_fs_path : Bytes
  pub shutdown : Bool

-- The calls of Bind on a new name space, in their order.
pub data Mount : Type 0 where
  os_after overlay_before : Mount

pub record HandlerShared : Type 0 where
  pub shared : Bool
  pub fs : List Mount
  pub overlay : Overlay

-- newTypecheckCache, newSymbolCache and the Purge of both, and the type of import graphs.
pub record Caches : Type 1 where
  pub Cache : Type 0
  pub new_typecheck_cache : Cache
  pub new_symbol_cache : Cache
  pub purge : Cache → Cache
  pub Graph : Type 0

unfoldable pub common_reset :
    (Bytes → Option Bytes) → HandlerCommon → DocumentUri → Result HandlerError HandlerCommon
common_reset parse_url h root_uri =
    if h.shutdown
    then err reset_while_shutting_down
    else if not (is_uri root_uri)
    then err (invalid_root root_uri)
    else ok (record h { root_fs_path = uri_to_path parse_url root_uri })

unfoldable pub shut_down : HandlerCommon → HandlerCommon
shut_down h = record h { shutdown = true }

unfoldable pub check_ready : HandlerCommon → Result HandlerError (Unit {0})
check_ready h = if h.shutdown then err shutting_down else ok tt

unfoldable pub shared_reset : HandlerShared → Bool → HandlerShared
shared_reset h use_os_fs = record h {
  overlay = new_overlay;
  fs = (if use_os_fs then os_after ∷ [] else []) ++ overlay_before ∷ [];
}

module _ (C : Caches) where
  open C use {Cache, Graph}

  pub record LangHandler : Type 0 where
    pub common : HandlerCommon
    pub shared : HandlerShared
    pub init : Option InitializeParams
    pub typecheck_cache : Option Cache
    pub symbol_cache : Option Cache
    pub import_graph : Option Graph
    pub cancel : Option Cancel

  -- A cache is made at the first reset and purged at the others.
  abbrev pub renewed : Cache → Option Cache → Option Cache
  renewed new none = some new
  renewed new (some c) = some (C.purge c)

  unfoldable pub reset_caches : LangHandler → LangHandler
  reset_caches h = record h {
    import_graph = none;
    typecheck_cache = renewed C.new_typecheck_cache h.typecheck_cache;
    symbol_cache = renewed C.new_symbol_cache h.symbol_cache;
  }

  -- Its loop over the client's value set is `constant_supported` of Completion.
  unfoldable pub reset :
      (Bytes → Option Bytes) → LangHandler → InitializeParams → Result HandlerError LangHandler
  unfolding common_reset shared_reset reset_caches
  reset parse_url h params = do
    common ← common_reset parse_url h.common (root params)
    ok (
        reset_caches (record h {
          common = common;
          shared =
              if h.shared.shared
              then h.shared
              else shared_reset h.shared (not params.no_os_file_system_access);
          init = some params;
          cancel = some new_cancel;
        }))
