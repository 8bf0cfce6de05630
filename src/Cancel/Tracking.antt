-- ===== src/Cancel/Tracking.antt =====
-- langserver/cancel.go: which context a $/cancelRequest reaches, over all interleavings of requests
-- that begin, end and are cancelled.
use go_langserver.Common.{
  All, All-map, All_both, All_split, List, Option-cases, [], arith, beq_iff, false, inl, inr, none,
  some, sym, true, ℕ, ◌++◌, ◌<◌, ◌↔◌, ◌∷◌, ◌≡◌, ◌≢◌, ◌⊎◌,
}
use go_langserver.Lsp.{RequestId}
use go_langserver.Cancel.{
  Cancel, eq_id, new_cancel, with_cancel, release, cancel, delete, cancel_context,
}

pub eq_id_iff : (a b : RequestId) → (eq_id a b ≡ true) ↔ (a ≡ b)
unfolding eq_id
eq_id_iff a b = ground (arith, beq_iff a.str b.str)

abbrev pub Running : Type 0
Running = List (RequestId × ℕ)

-- No running request has this ID.
abbrev pub IsUnused : RequestId → Running → Type 0
IsUnused id = All (λ r. r.0 ≢ id)

-- The states that the server passes through, with the requests that are running: a request begins
-- with an ID that no running one has, ends, or is cancelled, in any order.
pub data Reach : Cancel → Running → Type 0 where
  start : Reach new_cancel []
  begin :
      {c : Cancel} {rs : Running} (id : RequestId)
      → IsUnused id rs
      → Reach c rs
      → Reach (with_cancel c id).0 ((id, (with_cancel c id).1) ∷ rs)
  finish :
      {c : Cancel} (xs : Running) (id : RequestId) (ctx : ℕ) (ys : Running)
      → Reach c (xs ++ (id, ctx) ∷ ys)
      → Reach (release c id ctx) (xs ++ ys)
  interrupt : {c : Cancel} {rs : Running} (id : RequestId) → Reach c rs → Reach (cancel c id) rs

-- A running request is either registered with its context, or cancelled already.
abbrev Tracked : Cancel → RequestId × ℕ → Type 0
Tracked c r =
    (r.1 < c.next)
    × ((c.m r.0 ≡ some r.1) × (c.done r.1 ≡ false) ⊎ (c.m r.0 ≡ none) × (c.done r.1 ≡ true))

abbrev Distinct : Running → Type 0
Distinct [] = Unit
Distinct (r ∷ rs) = IsUnused r.0 rs × Distinct rs

record IsSound (c : Cancel) (rs : Running) : Type 0 where
  tracked : All (Tracked c) rs
  distinct : Distinct rs
  injective : (i j : RequestId) (k : ℕ) → c.m i ≡ some k → c.m j ≡ some k → i ≡ j
  bounded : (i : RequestId) (k : ℕ) → c.m i ≡ some k → k < c.next

Distinct-split :
    (xs : Running) (r : RequestId × ℕ) (ys : Running)
    → Distinct (xs ++ r ∷ ys)
    → IsUnused r.0 (xs ++ ys) × Distinct (xs ++ ys)
Distinct-split [] r ys (u, d) = (u, d)
Distinct-split (x ∷ xs) r ys (u, d) =
    let (v, d') = Distinct-split xs r ys d in
    let (ne, u') = All_split (λ q. q.0 ≢ x.0) xs r ys u in ((λ e. ne (sym e), v), (u', d'))

start-IsSound : IsSound new_cancel []
unfolding new_cancel
start-IsSound = record {
  tracked = tt;
  distinct = tt;
  injective = λ i j k e f. cc;
  bounded = λ i k e. cc;
}

begin-IsSound :
    (c : Cancel) (rs : Running) (id : RequestId)
    → IsUnused id rs
    → IsSound c rs
    → IsSound (with_cancel c id).0 ((id, (with_cancel c id).1) ∷ rs)
unfolding with_cancel
begin-IsSound c rs id unused s = record {
  tracked = (
    (omega arith, ground (arith, eq_id_iff id id)),
    All-map (λ r. (r.0 ≢ id) × Tracked c r) (Tracked (with_cancel c id).0) rs
        (λ r h. (omega arith, ground (arith, eq_id_iff id r.0)))
        (All_both _ (Tracked c) rs unused s.tracked),
  );
  distinct = (unused, s.distinct);
  injective = λ i j k e f.
      ground
        (arith, eq_id_iff id i, eq_id_iff id j, s.injective i j k, s.bounded i k, s.bounded j k);
  bounded = λ i k e. ground (arith, eq_id_iff id i, s.bounded i k);
}

finish-IsSound :
    (c : Cancel) (xs : Running) (id : RequestId) (ctx : ℕ) (ys : Running)
    → IsSound c (xs ++ (id, ctx) ∷ ys)
    → IsSound (release c id ctx) (xs ++ ys)
unfolding release
finish-IsSound c xs id ctx ys s =
    let (unused, distinct) = Distinct-split xs (id, ctx) ys s.distinct in
    let (here, others) = All_split (Tracked c) xs (id, ctx) ys s.tracked in
    record {
      tracked =
          All-map (λ r. (r.0 ≢ id) × Tracked c r) (Tracked (release c id ctx)) (xs ++ ys)
            (λ r h. (
              h.1.0,
              ground (arith, eq_id_iff id r.0, s.injective r.0 id ctx, s.injective r.0 id r.1),
            ))
            (All_both _ (Tracked c) (xs ++ ys) unused others);
      distinct = distinct;
      injective = λ i j k e f. ground (arith, eq_id_iff id i, eq_id_iff id j, s.injective i j k);
      bounded = λ i k e. ground (arith, eq_id_iff id i, s.bounded i k);
    }

interrupt_unknown :
    (c : Cancel) (rs : Running) (id : RequestId)
    → c.m id ≡ none
    → IsSound c rs
    → IsSound (delete id c) rs
unfolding delete
interrupt_unknown c rs id e s = record {
  tracked =
      All-map (Tracked c) (Tracked (delete id c)) rs
        (λ r h. (h.0, ground (arith, eq_id_iff id r.0))) s.tracked;
  distinct = s.distinct;
  injective = λ i j k p q. ground (arith, eq_id_iff id i, eq_id_iff id j, s.injective i j k);
  bounded = λ i k p. ground (arith, eq_id_iff id i, s.bounded i k);
}

interrupt_known :
    (c : Cancel) (rs : Running) (id : RequestId) (ctx : ℕ)
    → c.m id ≡ some ctx
    → IsSound c rs
    → IsSound (cancel_context ctx (delete id c)) rs
unfolding delete cancel_context
interrupt_known c rs id ctx e s = record {
  tracked =
      All-map (Tracked c) (Tracked (cancel_context ctx (delete id c))) rs
        (λ r h.
          (h.0, ground (arith, eq_id_iff id r.0, s.injective r.0 id ctx, s.injective r.0 id r.1)))
        s.tracked;
  distinct = s.distinct;
  injective = λ i j k p q. ground (arith, eq_id_iff id i, eq_id_iff id j, s.injective i j k);
  bounded = λ i k p. ground (arith, eq_id_iff id i, s.bounded i k);
}

interrupt-IsSound :
    (c : Cancel) (rs : Running) (id : RequestId) → IsSound c rs → IsSound (cancel c id) rs
interrupt-IsSound c rs id s = elim (Option-cases (c.m id)) [
  | inl e ↦ unfold cancel in rw (e, cancel) (interrupt_unknown c rs id e s)
  | inr (ctx, e) ↦ unfold cancel in rw (e, cancel) (interrupt_known c rs id ctx e s)
]

Reach-IsSound : {c : Cancel} {rs : Running} → Reach c rs → IsSound c rs
Reach-IsSound start = start-IsSound
Reach-IsSound (begin id u r) = begin-IsSound _ _ id u (Reach-IsSound r)
Reach-IsSound (finish xs id ctx ys r) = finish-IsSound _ xs id ctx ys (Reach-IsSound r)
Reach-IsSound (interrupt id r) = interrupt-IsSound _ _ id (Reach-IsSound r)

-- In every reachable state a cancel request for a running request cancels the context of that
-- request, and changes no context of another running request.
pub cancel_running :
    {c : Cancel} (xs : Running) (id : RequestId) (ctx : ℕ) (ys : Running)
    → Reach c (xs ++ (id, ctx) ∷ ys)
    → ((cancel c id).done ctx ≡ true) × All (λ r. (cancel c id).done r.1 ≡ c.done r.1) (xs ++ ys)
unfolding cancel
cancel_running {c} xs id ctx ys r =
    let s = Reach-IsSound r in
    let (unused, _) = Distinct-split xs (id, ctx) ys s.distinct in
    let (here, others) = All_split (Tracked c) xs (id, ctx) ys s.tracked in
    (
      ground arith,
      All-map (λ q. (q.0 ≢ id) × Tracked c q) (λ q. (cancel c id).done q.1 ≡ c.done q.1) (xs ++ ys)
          (λ q h. ground (arith, s.injective q.0 id q.1))
          (All_both _ (Tracked c) (xs ++ ys) unused others),
    )
