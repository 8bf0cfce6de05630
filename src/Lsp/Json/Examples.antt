-- ===== src/Lsp/Json/Examples.antt =====
-- pkg/lsp/service.go: the theorem on the kind that the server announces.
use go_langserver.Lsp.Json.RoundTrip.{read_back, unmarshal_sync-marshal_sync}
use go_langserver.Lsp.Json.{TextDocumentSyncOptionsOrKind, unmarshal_sync, marshal_sync}
use go_langserver.Common.{arith, none, some, ◌≡◌}
use go_langserver.Common.Int.{pos}

abbrev incremental : TextDocumentSyncOptionsOrKind
incremental = record { kind = some (pos 2); options = none }

unmarshal_sync-marshal_sync_example :
    (unmarshal_sync (marshal_sync incremental) ≡ some (read_back incremental))
    × (marshal_sync (read_back incremental) ≡ marshal_sync incremental)
unmarshal_sync-marshal_sync_example = unmarshal_sync-marshal_sync incremental (omega arith)
