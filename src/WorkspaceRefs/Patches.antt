-- ===== src/WorkspaceRefs/Patches.antt =====
-- langserver/workspace_refs.go: what workspace/xreferences streams and what it returns.
use go_langserver.WorkspaceRefs.{
  Stream, stream_update, StreamEvent, Result, finish_stream, found, WorkspaceError, ok, done,
  stream_loop, stream_references, ℤ, xlimit, new_stream,
}
use mathlib.Core.Bool.{false≢true}
use go_langserver.Common.Result.{Result, ok}
use go_langserver.WorkspaceRefs.{StreamEvent, found, tick, done, deadline}
use go_langserver.Common.{
  ==_iff, All, Bool, Bool-cases, List, Option, [], ap, append-nil, append_assoc, arith, drop, false,
  if◌then◌else◌, inl, inr, length, length-append, length-take, ltb, min, none, refl, some, suc, sym,
  take, take-append-drop, take-append_le, take_all, true, zero, ℕ, ◌++◌, ◌==◌, ◌||◌, ◌∙◌, ◌∷◌, ◌≡◌,
  ◌≤◌, ◌⊎◌,
}

abbrev pub joined : {A : Type 0} → List (List A) → List A
joined [] = []
joined (xs ∷ xss) = xs ++ joined xss

joined-append :
    {A : Type 0} (xss : List (List A)) (xs : List A) → joined (xss ++ xs ∷ []) ≡ joined xss ++ xs
joined-append [] xs = append-nil xs
joined-append (ys ∷ xss) xs = rw (joined-append xss xs) (sym (append_assoc ys (joined xss) xs))

take-take : {A : Type 0} (m n : ℕ) (xs : List A) → m ≤ n → take m (take n xs) ≡ take m xs
take-take zero n xs h = refl
take-take (suc m) zero xs h = absurd (omega arith)
take-take (suc m) (suc n) [] h = refl
take-take (suc m) (suc n) (x ∷ xs) h = ap (λ r. x ∷ r) (take-take m n xs (omega arith))

take_own_length : {A : Type 0} (n : ℕ) (xs : List A) → take (length (take n xs)) xs ≡ take n xs
take_own_length zero xs = refl
take_own_length (suc n) [] = refl
take_own_length (suc n) (x ∷ xs) = ap (λ r. x ∷ r) (take_own_length n xs)

-- `if len(r) > limit { r = r[:limit] }`
cut :
    {A : Type 0} (limit : ℕ) (r : List A)
    → (if ltb limit (length r) then take limit r else r) ≡ take limit r
cut limit r = elim (Bool-cases (ltb limit (length r))) [
  | inl e ↦ rw e
  | inr e ↦ rw e (sym (take_all limit r (ground arith)))
]

-- What happens before the type checking is done.
abbrev pub is_quiet : {R : Type 0} → StreamEvent R → Bool
is_quiet (found r) = true
is_quiet tick = true
is_quiet (done e) = false
is_quiet deadline = false

abbrev pub founds : {R : Type 0} → List (StreamEvent R) → List R
founds [] = []
founds (found r ∷ es) = r ∷ founds es
founds (tick ∷ es) = founds es
founds (done e ∷ es) = founds es
founds (deadline ∷ es) = founds es

||_cases : (a b : Bool) → (a || b) ≡ true → (a ≡ true) ⊎ (b ≡ true)
||_cases a b h = ground arith

module _ {R : Type 0} (limit : ℕ) where
  -- The patches have sent the first results, up to streamPos.
  abbrev Sent : Stream R → List R → Type 0
  Sent s results =
      (joined s.patches ≡ take s.stream_pos results)
      × (s.stream_pos ≤ length results)
      × (s.stream_pos ≤ limit)

  -- What an update leaves: everything up to the limit has been sent.
  abbrev Updated : Stream R × Bool → List R → Type 0
  Updated (s, more) results =
      Sent s results × (joined s.patches ≡ take limit results) × (more ≡ ltb (length results) limit)

  all_taken :
      (n : ℕ) (results : List R)
      → n ≤ length results
      → n ≤ limit
      → (length results == n || n == limit) ≡ true
      → take n results ≡ take limit results
  all_taken n results h k e = elim (||_cases (length results == n) (n == limit) e) [
    | inl q ↦
        take_all n results (ground (arith, q)) ∙ sym (take_all limit results (ground (arith, q)))
    | inr q ↦ ap (λ m. take m results) ((==_iff n limit).0 q)
  ]

  nothing_more :
      (n : ℕ) (results : List R)
      → n ≤ length results
      → n ≤ limit
      → (length results == n || n == limit) ≡ true
      → ltb n limit ≡ ltb (length results) limit
  nothing_more n results h k e = ground arith

  extended :
      (n : ℕ) (results : List R) (sent : List R)
      → n ≤ limit
      → sent ≡ take n results
      → sent ++ drop n (take limit results) ≡ take limit results
  extended n results sent h q =
      ap (λ l. l ++ drop n (take limit results)) (q ∙ sym (take-take n limit results h))
      ∙ take-append-drop n (take limit results)

  stream_update-Updated :
      (s : Stream R) (results : List R)
      → Sent s results
      → Updated (stream_update limit s results) results
  unfolding stream_update
  stream_update-Updated s results (j, in_results, in_limit) =
      elim (Bool-cases (length results == s.stream_pos || s.stream_pos == limit)) [
        | inl e ↦ rw e (
          (j, in_results, in_limit),
          j ∙ all_taken s.stream_pos results in_results in_limit e,
          nothing_more s.stream_pos results in_results in_limit e,
        )
        | inr e ↦
            let sent : joined (s.patches ++ drop s.stream_pos (take limit results) ∷ [])
                ≡ take limit results =
              joined-append s.patches _
              ∙ extended s.stream_pos results (joined s.patches) in_limit j in
            rw (e, cut limit results)
              (
                (
                  sent ∙ sym (take_own_length limit results),
                  omega (arith, length-take limit results),
                  omega (arith, length-take limit results),
                ),
                sent,
                shorter (length (take limit results)) (length results) (length-take limit results),
              )
      ]
    where
      shorter : (m n : ℕ) → m ≡ min limit n → ltb m limit ≡ ltb n limit
      shorter m n q = ground arith

  abbrev Finishes : List R → List R → Stream R × Option (Result WorkspaceError (List R)) → Type 0
  Finishes late all (s, r) =
      (r ≡ some (ok (take limit (all ++ late)))) × (joined s.patches ≡ take limit all)

  finish_stream-Finishes :
      (late : List R) (s : Stream R) (results : List R)
      → Sent s results
      → Finishes late results
          ((finish_stream limit late s results).0, some (finish_stream limit late s results).1)
  unfolding finish_stream
  finish_stream-Finishes late s results h =
      (ap (λ r. some (ok r)) (cut limit (results ++ late)), (stream_update-Updated s results h).1)

  still-Sent : (s : Stream R) (results more : List R) → Sent s results → Sent s (results ++ more)
  still-Sent s results more (j, h, k) = (
    j ∙ sym (take-append_le s.stream_pos results more h),
    omega (arith, length-append results more, h),
    k,
  )

  -- Where the limit has been reached, what is found later does not count.
  full_finish :
      (late results more : List R) (x : Stream R × Option (Result WorkspaceError (List R)))
      → limit ≤ length results
      → Finishes late results x
      → Finishes late (results ++ more) x
  full_finish late results more (s, r) h (e, j) = (
    e
        ∙ ap (λ (l : List R). some (ok l))
            (take-append_le limit results late h
              ∙ (sym (take-append_le limit results (more ++ late) h)
                  ∙ ap (take limit) (sym (append_assoc results more late)))),
    j ∙ sym (take-append_le limit results more h),
  )

  stream_loop-Finishes :
      (late : List R) (es : List (StreamEvent R)) (s : Stream R) (results : List R)
      → All (λ e. is_quiet e ≡ true) es
      → Sent s results
      → Finishes late
          (results ++ founds es)
          (stream_loop limit late s results (es ++ done none ∷ []))
  unfolding stream_loop
  stream_loop-Finishes late [] s results q h =
      rw (append-nil results) (finish_stream-Finishes late s results h)
  stream_loop-Finishes late (found r ∷ es) s results (_, q) h =
      rw (sym (append_assoc results (r ∷ []) (founds es)))
        (stream_loop-Finishes late es s (results ++ r ∷ []) q (still-Sent s results (r ∷ []) h))
  stream_loop-Finishes late (done e ∷ es) s results (q, _) h = absurd (false≢true q)
  stream_loop-Finishes late (deadline ∷ es) s results (q, _) h = absurd (false≢true q)
  stream_loop-Finishes late (tick ∷ es) s results (_, q) h =
      let u = stream_update limit s results in
      let (sent, _, more) = stream_update-Updated s results h in
      elim (Bool-cases u.1) [
        | inl go ↦ rw go (stream_loop-Finishes late es u.0 results q sent)
        | inr stop ↦ rw stop (
            full_finish late results (founds es)
              (
                (finish_stream limit late u.0 results).0,
                some (finish_stream limit late u.0 results).1,
              )
              (at_limit (sym more ∙ stop)) (finish_stream-Finishes late u.0 results sent))
      ]
    where
      at_limit : ltb (length results) limit ≡ false → limit ≤ length results
      at_limit e = ground arith

-- Where the references are found and the timer ticks in any order until the type checking is done
-- without an error, workspace/xreferences ends and returns the references that were found, then those
-- that came in after its last update, cut off at the limit; and the patches that it has sent add up to
-- the references found before that update, cut off at the limit.
pub stream_references-patches :
    {R : Type 0} (limit : ℤ) (late : List R) (es : List (StreamEvent R))
    → All (λ e. is_quiet e ≡ true) es
    → ((stream_references limit late (es ++ done none ∷ [])).1
        ≡ some (ok (take (xlimit limit) (founds es ++ late))))
      × (joined (stream_references limit late (es ++ done none ∷ [])).0.patches
          ≡ take (xlimit limit) (founds es))
unfolding stream_references
stream_references-patches limit late es q =
    stream_loop-Finishes (xlimit limit) late es new_stream [] q (refl, omega arith, omega arith)
