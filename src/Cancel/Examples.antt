-- ===== src/Cancel/Examples.antt =====
-- langserver/cancel.go: cancelling the only running request.
use go_langserver.Common.{All, [], false, true, ℕ, ◌++◌, ◌≡◌}
use go_langserver.Lsp.{RequestId}
use go_langserver.Cancel.{Cancel, new_cancel, with_cancel, cancel}
use go_langserver.Cancel.Tracking.{begin, start, cancel_running}

abbrev pub first_id : RequestId
first_id = record { num = 1; str = []; is_string = false }

abbrev one_running : Cancel
one_running = (with_cancel new_cancel first_id).0

abbrev its_context : ℕ
its_context = (with_cancel new_cancel first_id).1

cancel_running_example :
    ((cancel one_running first_id).done its_context ≡ true)
    × All
        (λ (r : RequestId × ℕ). (cancel one_running first_id).done r.1 ≡ one_running.done r.1)
        ([] ++ [])
cancel_running_example =
    cancel_running {c = one_running} [] first_id its_context [] (begin first_id tt start)
