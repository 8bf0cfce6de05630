-- ===== src/References.antt =====
-- langserver/references.go: refStreamAndCollect, which collects references as they arrive and streams
-- them to the client. Whether the next thing is a reference or a tick of the timer is decided outside:
-- the loop runs over a list of both, which ends where the channel is closed.
pub mod Streaming
pub mod Loaded
pub mod Answer
pub mod Users
pub mod Syntax
pub mod PackageLevel
pub mod Examples
use go_langserver.Common.{
  Bool, List, [], drop, false, if◌then◌else◌, leb, length, not, true, ℕ, ◌++◌, ◌∷◌,
}
use go_langserver.Common.Int.{ℤ, pos, ltb_ℤ, eqb_ℤ}
use go_langserver.Lsp.{Location}

-- What the loop selects: a reference, as its location, or a tick.
pub data Input : Type 0 where
  reference : Location → Input
  tick : Input

-- The JSON patch of a $/partialResult notification: the initial replacement of the whole value by
-- an empty list, or "add" operations with the path "/-", one for each location.
pub data Patch : Type 0 where
  replace_empty : Patch
  adds : List Location → Patch

-- The variables of the loop, with the notifications that have been sent and whether `stop` has been
-- called.
pub record Collector : Type 0 where
  pub locs : List Location
  pub sent_to : ℕ
  pub notified : List Patch
  pub stopped : Bool

-- `if limit == 0 { limit = math.MaxInt32 }`
unfoldable pub real_limit : ℤ → ℤ
real_limit limit = if eqb_ℤ limit (pos 0) then pos 2147483647 else limit

unfoldable pub new_collector : Collector
new_collector = record { locs = []; sent_to = 0; notified = replace_empty ∷ []; stopped = false }

-- The function `send`.
unfoldable pub send : Collector → Collector
send c = if leb (length c.locs) c.sent_to then c else record c {
  notified = c.notified ++ adds (drop c.sent_to c.locs) ∷ [];
  sent_to = length c.locs;
}

-- One round of the loop while the channel is open.
unfoldable pub collect_step : ℤ → Collector → Input → Collector
unfolding send
collect_step limit c (reference l) =
    if not (ltb_ℤ (pos (length c.locs)) limit)
    then record c { stopped = true }
    else record c { locs = c.locs ++ l ∷ [] }
collect_step limit c tick = send c

unfoldable pub collect_loop : ℤ → Collector → List Input → Collector
unfolding collect_step send
collect_loop limit c [] = send c
collect_loop limit c (i ∷ is) = collect_loop limit (collect_step limit c i) is

-- refStreamAndCollect; it returns the field `locs`.
unfoldable pub ref_stream_and_collect : ℤ → List Input → Collector
unfolding real_limit new_collector collect_loop
ref_stream_and_collect limit is = collect_loop (real_limit limit) new_collector is
