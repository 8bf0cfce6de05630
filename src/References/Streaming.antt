-- ===== src/References/Streaming.antt =====
-- langserver/references.go: what the client puts together from the stream.
use go_langserver.Common.{
  Bool-cases, List, [], ap, append-nil, append_assoc, arith, drop, inl, inr, leb, length,
  length-append, refl, suc, sym, take, take-append-drop, take_all, true, zero, ℕ, ◌++◌, ◌+◌, ◌<◌,
  ◌∙◌, ◌∷◌, ◌≡◌, ◌≤◌,
}
use go_langserver.Common.Int.{ℤ, pos, ltb_ℤ}
use go_langserver.Lsp.{Location}
use go_langserver.References.{
  Input, reference, tick, Patch, replace_empty, adds, Collector, real_limit, new_collector, send,
  collect_step, collect_loop, ref_stream_and_collect,
}

-- What a client has after a notification, if it applies the patch to its list.
unfoldable pub patched : List Location → Patch → List Location
patched view replace_empty = []
patched view (adds locs) = view ++ locs

unfoldable pub client_view : List Location → List Patch → List Location
unfolding patched
client_view view [] = view
client_view view (p ∷ ps) = client_view (patched view p) ps

-- The references of the input, in their order.
unfoldable pub references : List Input → List Location
references [] = []
references (reference l ∷ is) = l ∷ references is
references (tick ∷ is) = references is

client_view-append :
    (ps : List Patch) (p : Patch) (view : List Location)
    → client_view view (ps ++ p ∷ []) ≡ patched (client_view view ps) p
unfolding client_view
client_view-append [] p view = refl
client_view-append (q ∷ ps) p view = client_view-append ps p (patched view q)

-- The client has the locations up to the last one that was sent.
IsSent : Collector → Type 0
IsSent c = (client_view [] c.notified ≡ take c.sent_to c.locs) × (c.sent_to ≤ length c.locs)

take_more :
    (n : ℕ) (l : List Location) (x : Location) → n ≤ length l → take n (l ++ x ∷ []) ≡ take n l
take_more zero l x h = refl
take_more (suc n) [] x h = absurd (omega arith)
take_more (suc n) (y ∷ l) x h = rw (take_more n l x (omega arith))

grown :
    (c : Collector)
    → client_view [] c.notified ≡ take c.sent_to c.locs
    → client_view [] (c.notified ++ adds (drop c.sent_to c.locs) ∷ []) ≡ c.locs
unfolding patched
grown c v =
    client_view-append c.notified (adds (drop c.sent_to c.locs)) []
    ∙ (ap (λ w. w ++ drop c.sent_to c.locs) v ∙ take-append-drop c.sent_to c.locs)

sent_all : (c : Collector) → IsSent c → client_view [] (send c).notified ≡ (send c).locs
unfolding IsSent send
sent_all c (v, n) = elim (Bool-cases (leb (length c.locs) c.sent_to)) [
  | inl e ↦ simp (e, send) (v ∙ take_all c.sent_to c.locs (ground arith))
  | inr e ↦ simp (e, send) (grown c v)
]

send-IsSent : (c : Collector) → IsSent c → IsSent (send c)
unfolding IsSent send
send-IsSent c (v, n) = elim (Bool-cases (leb (length c.locs) c.sent_to)) [
  | inl e ↦ simp (e, send) (v, n)
  | inr e ↦
      simp (e, send) (grown c v ∙ sym (take_all (length c.locs) c.locs (omega arith)), omega arith)
]

collect_step-IsSent :
    (limit : ℤ) (c : Collector) (i : Input) → IsSent c → IsSent (collect_step limit c i)
unfolding IsSent collect_step
collect_step-IsSent limit c tick h = send-IsSent c h
collect_step-IsSent limit c (reference l) (v, n) =
    elim (Bool-cases (ltb_ℤ (pos (length c.locs)) limit)) [
      | inl e ↦
          rw (e, collect_step)
            (
              v ∙ sym (take_more c.sent_to c.locs l n),
              omega (arith, n, length-append c.locs (l ∷ [])),
            )
      | inr e ↦ rw (e, collect_step) (v, n)
    ]

collect_loop_sent :
    (limit : ℤ) (is : List Input) (c : Collector)
    → IsSent c
    → client_view [] (collect_loop limit c is).notified ≡ (collect_loop limit c is).locs
unfolding collect_loop
collect_loop_sent limit [] c h = sent_all c h
collect_loop_sent limit (i ∷ is) c h =
    collect_loop_sent limit is _ (collect_step-IsSent limit c i h)

send-locs : (c : Collector) → (send c).locs ≡ c.locs
unfolding send
send-locs c = elim (Bool-cases (leb (length c.locs) c.sent_to)) [
  | inl e ↦ simp (e, send)
  | inr e ↦ simp (e, send)
]

take_nil : (n : ℕ) → take {A = Location} n [] ≡ []
take_nil zero = refl
take_nil (suc n) = refl

room_step :
    (limit : ℕ) (c : Collector) (l : Location)
    → length c.locs < limit
    → collect_step (pos limit) c (reference l) ≡ record c { locs = c.locs ++ l ∷ [] }
unfolding collect_step
room_step limit c l h = ground arith

full_step :
    (limit : ℕ) (c : Collector) (l : Location)
    → length c.locs ≡ limit
    → collect_step (pos limit) c (reference l) ≡ record c { stopped = true }
unfolding collect_step
full_step limit c l h = ground arith

-- The loop takes as many of the references as it has room for.
collect_loop-locs :
    (limit : ℕ) (is : List Input) (c : Collector) (room : ℕ)
    → length c.locs + room ≡ limit
    → (collect_loop (pos limit) c is).locs ≡ c.locs ++ take room (references is)
unfolding collect_loop references
collect_loop-locs limit [] c room h = send-locs c ∙ rw (take_nil room) (sym (append-nil c.locs))
collect_loop-locs limit (tick ∷ is) c room h =
    collect_loop-locs limit is (send c) room (ap length_plus (send-locs c) ∙ h)
    ∙ ap (λ l. l ++ take room (references is)) (send-locs c)
  where
    length_plus : List Location → ℕ
    length_plus l = length l + room
collect_loop-locs limit (reference l ∷ is) c zero h =
    ap (λ (x : Collector). (collect_loop (pos limit) x is).locs) (full_step limit c l (omega arith))
    ∙ collect_loop-locs limit is (record c { stopped = true }) zero h
collect_loop-locs limit (reference l ∷ is) c (suc room) h =
    ap (λ (x : Collector). (collect_loop (pos limit) x is).locs) (room_step limit c l (omega arith))
    ∙ (collect_loop-locs limit is (record c { locs = c.locs ++ l ∷ [] }) room
          (omega (arith, length-append c.locs (l ∷ [])))
        ∙ append_assoc c.locs (l ∷ []) (take room (references is)))

-- However the timer ticks, a client that applies the patches in their order ends with the list
-- that the request returns.
pub client_view-ref_stream_and_collect :
    (limit : ℤ) (is : List Input)
    → client_view [] (ref_stream_and_collect limit is).notified
      ≡ (ref_stream_and_collect limit is).locs
unfolding ref_stream_and_collect new_collector IsSent client_view patched
client_view-ref_stream_and_collect limit is =
    collect_loop_sent (real_limit limit) is new_collector (refl, omega arith)

kept_limit : (limit : ℕ) → 0 < limit → real_limit (pos limit) ≡ pos limit
unfolding real_limit
kept_limit limit h = ground arith

-- However the timer ticks, a positive limit lets through the first references, as many
-- as the limit, in the order in which they arrive.
pub ref_stream_and_collect-locs :
    (limit : ℕ) (is : List Input)
    → 0 < limit
    → (ref_stream_and_collect (pos limit) is).locs ≡ take limit (references is)
unfolding ref_stream_and_collect new_collector real_limit
ref_stream_and_collect-locs limit is h =
    rw (kept_limit limit h) (collect_loop-locs limit is new_collector limit (omega arith))
