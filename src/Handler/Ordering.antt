-- ===== src/Handler/Ordering.antt =====
-- langserver/handler.go: lspHandler.Handle, which the connection calls for one request after the other.
-- A file system request is handled before the call returns, any other in a goroutine of its own. What
-- a handler does is left open here: it begins and it ends.
pub mod Serial
use go_langserver.Common.{Bytes, List, Option, [], if◌then◌else◌, none, some, ◌++◌, ◌∷◌, ◌≡◌}
use go_langserver.Overlay.Request.{is_file_system_request}

pub data HandlerEvent (R : Type 0) : Type 0 where
  began : R → HandlerEvent R
  ended : R → HandlerEvent R

-- The reader of the connection: what it has still to read, the request whose handler it is waiting
-- for, the goroutines that have not begun and those that have not ended, and what has happened.
pub record Reader (R : Type 0) : Type 0 where
  pub incoming : List R
  pub busy : Option R
  pub spawned : List R
  pub running : List R
  pub log : List (HandlerEvent R)

abbrev pub started : {R : Type 0} → List R → Reader R
started requests = record { incoming = requests; busy = none; spawned = []; running = []; log = [] }

module _ {R : Type 0} (method : R → Bytes) where
  -- Handle, up to the point where it waits or returns.
  unfoldable pub lsp_handle : Reader R → R → Reader R
  lsp_handle s r =
      if is_file_system_request (method r)
      then record s { busy = some r; log = s.log ++ began r ∷ [] }
      else record s { spawned = s.spawned ++ r ∷ [] }

  -- The steps of the server, in any order that the scheduler chooses.
  pub data Step (s t : Reader R) : Type 0 where
    reads :
        (r : R) (rs : List R)
        → s.busy ≡ none
        → s.incoming ≡ r ∷ rs
        → t ≡ lsp_handle (record s { incoming = rs }) r
        → Step s t
    returns :
        (r : R)
        → s.busy ≡ some r
        → t ≡ record s { busy = none; log = s.log ++ ended r ∷ [] }
        → Step s t
    begins :
        (xs : List R) (r : R) (ys : List R)
        → s.spawned ≡ xs ++ r ∷ ys
        → t ≡ record s { spawned = xs ++ ys; running = r ∷ s.running; log = s.log ++ began r ∷ [] }
        → Step s t
    ends :
        (xs : List R) (r : R) (ys : List R)
        → s.running ≡ xs ++ r ∷ ys
        → t ≡ record s { running = xs ++ ys; log = s.log ++ ended r ∷ [] }
        → Step s t

  pub data Serves (requests : List R) : Reader R → Type 0 where
    start : Serves requests (started requests)
    next : {s t : Reader R} → Serves requests s → Step s t → Serves requests t
