-- ===== src/Handler/Examples.antt =====
-- langserver/handler.go: the theorems on a server with one document and the parameters of requests
-- decoded already.
use go_langserver.Handler.Shutdown.{handle_all_after_shutdown}
use go_langserver.Handler.Dispatch.{ResponseError}
use go_langserver.Overlay.Request.Events.{Decodes, IsReadable}
use go_langserver.Handler.Documents.{handle_all, notification, handle_all-run}
use go_langserver.Common.{
  Bool, Bytes, List, Option, [], beq, codes, false, has_prefix, map, none, refl, some, true, ℕ,
  ◌++◌, ◌+◌, ◌↔◌, ◌∷◌, ◌≡◌, ◌⊎◌,
}
use go_langserver.Common.Result.{ok, err}
use go_langserver.Lsp.{InitializeParams}
use go_langserver.Util.{other, is_uri}
use go_langserver.Overlay.{new_overlay, Overlay}
use go_langserver.Overlay.Changes.{Event, opened, changed, run}
use go_langserver.Overlay.Request.{is_file_system_request, read_file}
use go_langserver.Overlay.Examples.{
  change_main, found_or, main_path, plain_url, only_overlay, plain_json, main_go, open_main,
  after_open, open_reply,
}
use go_langserver.Cancel.{new_cancel}
use go_langserver.Cancel.Examples.{first_id}
use go_langserver.Handler.State.{Caches}
use go_langserver.Handler.Dispatch.{Environment, Session, Request, handle, null}
use go_langserver.Handler.Lifecycle.{Next, phase, handle-Next}
use go_langserver.Handler.Ordering.{Reader, lsp_handle, Serves, start, next, reads, started}
use go_langserver.Handler.Ordering.Serial.{serial_log, pending, in_order, serial_log-Serves}
use go_langserver.Handler.Freshness.{IsFresh, handle_file_system_caches}

-- A cache is its number of purges.
abbrev counters : Caches
counters = record {
  Cache = ℕ;
  new_typecheck_cache = 0;
  new_symbol_cache = 0;
  purge = λ c. c + 1;
  Graph = Unit {0};
}

abbrev root_params : InitializeParams
root_params = record {
  root_path = codes "/src";
  root_uri = [];
  value_set = [];
  snippet_support = false;
  xcache_provider = false;
  no_os_file_system_access = true;
  root_import_path = [];
}

abbrev small : Environment counters Event ℕ
small = record {
  os = other;
  parse_url = plain_url;
  fs = only_overlay;
  json = plain_json;
  decode_initialize = λ raw. some root_params;
  decode_cancel = λ raw. some first_id;
  gocode_completion_enabled = true;
  span_ok = λ r. true;
  feature = λ h method raw. some (ok 0);
}

abbrev server : Option InitializeParams → Bool → Session counters
server init shutdown = record {
  handler = record {
    common = record { root_fs_path = []; shutdown = shutdown };
    shared = record { shared = false; fs = []; overlay = new_overlay };
    init = init;
    typecheck_cache = some 3;
    symbol_cache = some 3;
    import_graph = some tt;
    cancel = some new_cancel;
  };
  closed = false;
}

abbrev request : Bytes → Request Event
request method = record {
  method = method;
  params = some (opened open_main);
  id = first_id;
  notif = true;
}

handle_all_after_shutdown_example :
    ((handle small (server (some root_params) false) (request (codes "shutdown"))).1 ≡ ok null)
    × (handle_all small
          (server (some root_params) false)
          (request (codes "shutdown") ∷ request (codes "textDocument/hover") ∷ [])
        ≡ (handle small (server (some root_params) false) (request (codes "shutdown"))).0)
    × ((handle_all small (server (some root_params) false) (
          request (codes "shutdown")
          ∷ request (codes "textDocument/hover")
          ∷ request (codes "exit")
          ∷ [])).closed
        ≡ false)
    × ((r : Request Event)
        → (r.method ≡ codes "exit")
          ⊎ ((e : ResponseError) × ((handle small
                  (handle_all small
                    (server (some root_params) false)
                    (request (codes "shutdown") ∷ request (codes "textDocument/hover") ∷ []))
                  r).1
                ≡ err e)))
    × ((handle small (server (some root_params) false) (request (codes "exit"))).0.closed ≡ true)
handle_all_after_shutdown_example =
    handle_all_after_shutdown small (server (some root_params) false) root_params
      (request (codes "shutdown")) (request (codes "exit"))
      (request (codes "textDocument/hover") ∷ []) refl refl refl refl refl refl

handle-Next_example :
    Next
      (phase small (server none false))
      (phase small (handle small (server none false) (request (codes "initialize"))).0)
handle-Next_example = handle-Next small (server none false) (request (codes "initialize"))

abbrev after_did_open : Session counters
after_did_open =
    (handle small (server (some root_params) false) (request (codes "textDocument/didOpen"))).0

did_open_listed : is_file_system_request (codes "textDocument/didOpen") ≡ true
unfolding is_file_system_request beq
did_open_listed = refl

handle_file_system_caches_example :
    (after_did_open.handler.shared.overlay ≡ after_open)
    × ((true ≡ false) ↔ (
        read_file plain_url only_overlay after_open main_go
        ≡ read_file plain_url only_overlay new_overlay main_go))
    × IsFresh counters (server (some root_params) false).handler true after_did_open.handler
handle_file_system_caches_example =
    handle_file_system_caches small (server (some root_params) false)
      (request (codes "textDocument/didOpen")) root_params after_open main_go true none refl refl
      refl did_open_listed open_reply

abbrev methods : List Bytes
methods = codes "textDocument/didOpen" ∷ codes "textDocument/hover" ∷ []

abbrev one_read : Reader Bytes
one_read =
    lsp_handle (λ m. m) (record (started methods) { incoming = codes "textDocument/hover" ∷ [] })
      (codes "textDocument/didOpen")

one_read-Serves : Serves (λ m. m) methods one_read
one_read-Serves =
    next start
      (reads (codes "textDocument/didOpen") (codes "textDocument/hover" ∷ []) refl refl refl)

serial_log-Serves_example :
    (read : List Bytes) × (methods ≡ read ++ one_read.incoming)
    × (serial_log (λ m. m) one_read.log ++ pending (λ m. m) one_read.busy ≡ in_order (λ m. m) read)
serial_log-Serves_example = serial_log-Serves (λ m. m) methods one_read one_read-Serves

-- Encoding is the identity where decoding is a projection.
plain-Decodes : Decodes plain_json (λ e. e)
plain-Decodes = record {
  open_decodes = λ p. refl;
  change_decodes = λ p. refl;
  close_decodes = λ p. refl;
}

abbrev two_events : List Event
two_events = opened open_main ∷ changed change_main ∷ []

found_or-IsReadable : (x : Option Bytes) → IsReadable (found_or x)
found_or-IsReadable none = tt
found_or-IsReadable (some b) = tt

main_go-IsReadable : (o : Overlay) → IsReadable (read_file plain_url only_overlay o main_go)
unfolding read_file is_uri has_prefix
main_go-IsReadable o = rw main_path (found_or-IsReadable _)

handle_all-run_example :
    ((handle_all small
        (server (some root_params) false)
        (map (notification (λ e. e) first_id) two_events)).handler.shared.overlay
      ≡ run plain_url new_overlay two_events)
    × ((handle_all small
          (server (some root_params) false)
          (map (notification (λ e. e) first_id) two_events)).handler.init
        ≡ some root_params)
    × ((handle_all small
          (server (some root_params) false)
          (map (notification (λ e. e) first_id) two_events)).handler.common.shutdown
        ≡ false)
handle_all-run_example =
    handle_all-run small (λ e. e) first_id (server (some root_params) false) root_params two_events
      plain-Decodes refl refl (λ r. refl) (main_go-IsReadable, (main_go-IsReadable, tt))
