-- ===== src/Lib.antt =====
-- A model of go-langserver, a language server for Go, with theorems on its core.
--
-- The server reads JSON-RPC requests. LangHandler.Handle checks the life cycle, registers the
-- request so that it can be cancelled, and dispatches on the method. The textDocument/did*
-- notifications edit an overlay of unsaved documents over the file system; when a file changes, the
-- typecheck cache, the symbol cache and the import graph are dropped. The features answer from those.
--
-- Files and the code that they model, by its path in the repository:
--   Common               lists, byte strings and results; the functions of Go's "strings" for ASCII
--   Util                 langserver/util/util.go, os_other.go, os_windows.go
--   Lsp                  pkg/lsp/structures.go, service.go, jsonrpc2.go: the types in use
--   Lsp/Json             pkg/lsp/jsonrpc2.go, service.go: JSON forms written by hand
--   Loading              langserver/loader.go, build_context.go: from a position to an identifier
--   Loading/Cached       langserver/loader.go: the function typecheck and cachedTypecheck
--   Position             langserver/ast.go: offsetForPosition, goRangeToLSPLocation
--   Interesting          langserver/ast.go: findInterestingNode
--   References           langserver/references.go: refStreamAndCollect
--   References/Users     langserver/references.go: the loop over the import graphs
--   References/Syntax, References/PackageLevel
--                        langserver/references.go: findReferencesPkgLevel
--   References/Loaded    langserver/references.go: findReferences
--   References/Answer    langserver/references.go: handleTextDocumentReferences, classify, findObject
--   WorkspaceRefs        langserver/workspace_refs.go: the packages, the stream, defSymbolDescriptor
--   WorkspaceRefs/Handle langserver/workspace_refs.go: handleWorkspaceReferences and its parts
--   Refs                 langserver/internal/refs/refs.go: the types that it looks at
--   Refs/Receiver        langserver/internal/refs/refs.go: deepRecvType and getMethod
--   Refs/DefInfo         langserver/internal/refs/refs.go: DefInfo
--   Refs/Inspect         langserver/internal/refs/refs.go: Config.Refs
--   Definition           langserver/definition.go
--   Implementation       langserver/implementation.go
--   Hover                langserver/hover.go: handleHover
--   Hover/Godef          langserver/hover.go: handleHoverGodef
--   Signature            langserver/signature.go
--   Diagnostics          langserver/diagnostics.go
--   Format               langserver/format.go
--   ImportGraph          pkg/tools/importgraph.go
--   ImportGraph/Building langserver/references.go: reverseImportGraph
--   DirectoryWalk        pkg/tools/buildutil.go
--   Completion           langserver/completion.go: the items and their snippets
--   Completion/Client    what a client of langserver/completion.go shows of a snippet
--   Overlay              langserver/fs.go: overlay with didOpen, didChange and didClose
--   Overlay/Request      langserver/fs.go: handleFileSystemRequest, readFile, FilePath
--   Cancel               langserver/cancel.go
--   Cache                langserver/cache.go: Get and Purge
--   Handler/State        langserver/handler_common.go, handler_shared.go; reset and resetCaches
--   Handler/Dispatch     langserver/handler.go: Handle
--   Handler/Ordering     langserver/handler.go: lspHandler.Handle
--   Handler/Shutdown     langserver/handler.go: the requests behind a "shutdown"
--   Handler/Documents    langserver/handler.go and fs.go: the notifications about documents in a row
--   Symbol/Query         langserver/symbol.go: ParseQuery and Query.String
--   Symbol/Score         langserver/symbol.go: score
--   Symbol/Results       langserver/symbol.go: resultSorter and the end of handleSymbol
--   Symbol/Declared      langserver/symbol.go: toSym, astPkgToSymbols
--   Symbol/Search        langserver/symbol.go: workspace/symbol
--   Symbol/Descriptor    langserver/lsp.go and pkg/lspext/lspext.go: Contains
--
-- A component's state is a record, and an operation takes the state and returns the new one. A Go
-- string is its list of bytes, an int is an integer, and the one sum that can wrap around, the end of
-- a changed range, is taken in 64 bits. An error is a value of a data type with what its message
-- prints; a panic is a third result beside success and error. A mutex makes the code that it guards
-- one step, and what can interleave is a relation between states: Cancel/Tracking has the requests
-- that begin, end and are cancelled, Cache/Filling the lookups, fills and purges, Handler/Ordering the
-- goroutines of the requests, and ImportGraph/Building the builds and resets of the graph. Recursion is
-- structural, except in Interesting, where the loop runs on fuel: `fuel_for` gives it three rounds
-- for each node of the path and one more, since a round that adds a node comes twice at most in a row.
--
-- Code outside the repository is a parameter: url.Parse, the file system under the overlay, the
-- decoding of JSON, sort.Sort, path, go/build and findPackage, go/parser, go/types and the loader, the
-- printers of go/format and of Markdown, the import graph's Search, fmt's %d, the regular expression of
-- the completion, the LRU cache (with the laws that its documentation states) and, for Handle, the
-- features. A list that stands for a loop over a Go map is in the order of that iteration, and the
-- ticks of a timer, like what the loader does meanwhile, are elements of a list of what the loop sees.
-- What is not modelled: the parts of the features that only read go/types, the copies of gocode and
-- godef, metrics, logging and tracing, and the two background tasks that Handle starts to warm the
-- caches.
mod Common
pub mod Util
pub mod WorkspaceRefs
pub mod Lsp
pub mod Position
pub mod Overlay
pub mod Cancel
pub mod Cache
pub mod Handler
pub mod Symbol
pub mod References
pub mod Completion
pub mod ImportGraph
pub mod Diagnostics
pub mod DirectoryWalk
pub mod Format
pub mod Hover
pub mod Interesting
pub mod Loading
pub mod Refs
pub mod Implementation
pub mod Definition
pub mod Signature
