-- ===== src/Handler.antt =====
-- langserver/handler.go, handler_common.go and handler_shared.go: the state of the server and how
-- one request changes it. Locks make each request's accesses steps of their own; a request is
-- handled here from its start to its end. Tracing, logging, the warm-up query and the start of
-- gocode are left out: they change nothing of this state.
pub mod State
pub mod Dispatch
pub mod Moves
pub mod Lifecycle
pub mod Documents
pub mod Shutdown
pub mod Ordering
pub mod Freshness
pub mod Examples
