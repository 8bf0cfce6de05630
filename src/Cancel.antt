-- ===== src/Cancel.antt =====
-- langserver/cancel.go: the running requests that $/cancelRequest can reach. A context is a number;
-- context.WithCancel gives a new one, and its cancel function marks it as done. The map is a
-- function, and its mutex makes each method one step.
pub mod Tracking
pub mod Examples
use go_langserver.Common.{
  Bool, Option, beq, false, if◌then◌else◌, none, not, some, true, ℕ, ◌&&◌, ◌+◌, ◌==◌,
}
use go_langserver.Lsp.{RequestId}

abbrev eq_bool : Bool → Bool → Bool
eq_bool true x = x
eq_bool false x = not x

-- Equality of two IDs as map keys.
unfoldable pub eq_id : RequestId → RequestId → Bool
eq_id a b = a.num == b.num && (beq a.str b.str && eq_bool a.is_string b.is_string)

pub record Cancel : Type 0 where
  pub m : RequestId → Option ℕ
  -- the contexts: which have been cancelled, and the next new one
  pub done : ℕ → Bool
  pub next : ℕ

unfoldable pub new_cancel : Cancel
new_cancel = record { m = λ id. none; done = λ ctx. false; next = 0 }

-- The `cancel` function of a context.
unfoldable pub cancel_context : ℕ → Cancel → Cancel
cancel_context ctx c = record c { done = λ k. if k == ctx then true else c.done k }

unfoldable pub delete : RequestId → Cancel → Cancel
delete id c = record c { m = λ j. if eq_id id j then none else c.m j }

-- WithCancel gives the new context; the function that it also returns is `release`.
unfoldable pub with_cancel : Cancel → RequestId → Cancel × ℕ
with_cancel c id = (
  record {
    m = λ j. if eq_id id j then some c.next else c.m j;
    done = λ k. if k == c.next then false else c.done k;
    next = c.next + 1;
  },
  c.next,
)

unfoldable pub release : Cancel → RequestId → ℕ → Cancel
unfolding cancel_context delete
release c id ctx = cancel_context ctx (delete id c)

unfoldable pub cancel : Cancel → RequestId → Cancel
unfolding cancel_context delete
cancel c id = elim (c.m id) [ none ↦ delete id c | some ctx ↦ cancel_context ctx (delete id c) ]
