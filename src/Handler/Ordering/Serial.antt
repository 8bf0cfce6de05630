-- ===== src/Handler/Ordering/Serial.antt =====
-- langserver/handler.go: file system requests are handled one at a time and in order.
use mathlib.Core.Path.{subst}
use go_langserver.Common.{
  All, All-append, All_split, Bool, Bool-cases, Bytes, List, Option, [], ap, append-nil,
  append_assoc, false, if◌then◌else◌, inl, inr, none, refl, some, sym, true, ◌++◌, ◌∙◌, ◌∷◌, ◌≡◌,
}
use go_langserver.Overlay.Request.{is_file_system_request}
use go_langserver.Handler.Ordering.{
  HandlerEvent, began, ended, Reader, lsp_handle, Step, reads, returns, begins, ends, Serves, start,
  next,
}

module _ {R : Type 0} (method : R → Bytes) where
  abbrev pub is_serial : R → Bool
  is_serial r = is_file_system_request (method r)

  abbrev request_of : HandlerEvent R → R
  request_of (began r) = r
  request_of (ended r) = r

  -- The events of the file system requests.
  unfoldable pub serial_log : List (HandlerEvent R) → List (HandlerEvent R)
  serial_log [] = []
  serial_log (e ∷ l) =
      let rest = serial_log l in if is_serial (request_of e) then e ∷ rest else rest

  -- What handling the file system requests among these one after the other leaves in the log.
  unfoldable pub in_order : List R → List (HandlerEvent R)
  in_order [] = []
  in_order (r ∷ rs) =
      let rest = in_order rs in if is_serial r then began r ∷ ended r ∷ rest else rest

  serial_log-append :
      (k l : List (HandlerEvent R)) → serial_log (k ++ l) ≡ serial_log k ++ serial_log l
  unfolding serial_log
  serial_log-append [] l = refl
  serial_log-append (e ∷ k) l = elim (Bool-cases (is_serial (request_of e))) [
    | inl h ↦ rw (h, serial_log-append k l)
    | inr h ↦ rw (h, serial_log-append k l)
  ]

  in_order-append : (rs ss : List R) → in_order (rs ++ ss) ≡ in_order rs ++ in_order ss
  unfolding in_order
  in_order-append [] ss = refl
  in_order-append (r ∷ rs) ss = elim (Bool-cases (is_serial r)) [
    | inl h ↦ rw (h, in_order-append rs ss)
    | inr h ↦ rw (h, in_order-append rs ss)
  ]

  -- What the end of a handler that the reader waits for will add.
  abbrev pub pending : Option R → List (HandlerEvent R)
  pending none = []
  pending (some r) = ended r ∷ []

  abbrev Others : List R → Type 0
  Others = All (λ r. is_serial r ≡ false)

  IsPending : Option R → Type 0
  IsPending none = Unit
  IsPending (some r) = is_serial r ≡ true

  record IsSerial (requests : List R) (s : Reader R) : Type 0 where
    read : List R
    split : requests ≡ read ++ s.incoming
    logged : serial_log s.log ++ pending s.busy ≡ in_order read
    waits : IsPending s.busy
    spawned_others : Others s.spawned
    running_others : Others s.running

  -- An event of another request does not show.
  quiet :
      (l : List (HandlerEvent R)) (e : HandlerEvent R)
      → is_serial (request_of e) ≡ false
      → serial_log (l ++ e ∷ []) ≡ serial_log l
  unfolding serial_log
  quiet l e h = serial_log-append l (e ∷ []) ∙ (rw h (append-nil (serial_log l)))

  shown :
      (l : List (HandlerEvent R)) (e : HandlerEvent R)
      → is_serial (request_of e) ≡ true
      → serial_log (l ++ e ∷ []) ≡ serial_log l ++ e ∷ []
  unfolding serial_log
  shown l e h = serial_log-append l (e ∷ []) ∙ (rw h)

  in_order_more :
      (rs : List R) (r : R)
      → is_serial r ≡ true
      → in_order (rs ++ r ∷ []) ≡ in_order rs ++ began r ∷ ended r ∷ []
  unfolding in_order
  in_order_more rs r h = in_order-append rs (r ∷ []) ∙ (rw h)

  in_order_same :
      (rs : List R) (r : R) → is_serial r ≡ false → in_order (rs ++ r ∷ []) ≡ in_order rs
  unfolding in_order
  in_order_same rs r h = in_order-append rs (r ∷ []) ∙ (rw h (append-nil (in_order rs)))

  reads-IsSerial :
      (requests : List R) (s : Reader R) (r : R) (rs : List R)
      → s.busy ≡ none
      → s.incoming ≡ r ∷ rs
      → IsSerial requests s
      → IsSerial requests (lsp_handle method (record s { incoming = rs }) r)
  unfolding lsp_handle IsPending in_order
  reads-IsSerial requests s r rs b e i = elim (Bool-cases (is_serial r)) [
    | inl h ↦ rw h (record {
      read = i.read ++ r ∷ [];
      split = moved;
      logged =
          ap (λ l. l ++ ended r ∷ [])
            (shown s.log (began r) h ∙ ap (λ l. l ++ began r ∷ []) none_pending)
          ∙ (append_assoc (in_order i.read) (began r ∷ []) (ended r ∷ [])
              ∙ sym (in_order_more i.read r h));
      waits = h;
      spawned_others = i.spawned_others;
      running_others = i.running_others;
    })
    | inr h ↦ rw h (record {
      read = i.read ++ r ∷ [];
      split = moved;
      logged = i.logged ∙ sym (in_order_same i.read r h);
      waits = i.waits;
      spawned_others =
          All-append (λ r. is_serial r ≡ false) s.spawned (r ∷ []) i.spawned_others (h, tt);
      running_others = i.running_others;
    })
  ]
    where
      moved : requests ≡ (i.read ++ r ∷ []) ++ rs
      moved = i.split ∙ (ap (λ l. i.read ++ l) e ∙ sym (append_assoc i.read (r ∷ []) rs))

      none_pending : serial_log s.log ≡ in_order i.read
      none_pending =
          sym (append-nil _) ∙ (ap (λ o. serial_log s.log ++ pending o) (sym b) ∙ i.logged)

  returns-IsSerial :
      (requests : List R) (s : Reader R) (r : R)
      → s.busy ≡ some r
      → IsSerial requests s
      → IsSerial requests (record s { busy = none; log = s.log ++ ended r ∷ [] })
  unfolding IsPending
  returns-IsSerial requests s r b i =
      let serial : is_serial r ≡ true = (rw b at i.waits) in
      record {
        read = i.read;
        split = i.split;
        logged =
            append-nil _
            ∙ (shown s.log (ended r) serial
                ∙ (ap (λ o. serial_log s.log ++ pending o) (sym b) ∙ i.logged));
        waits = tt;
        spawned_others = i.spawned_others;
        running_others = i.running_others;
      }

  Step-IsSerial :
      (requests : List R) (s t : Reader R)
      → Step method s t
      → IsSerial requests s
      → IsSerial requests t
  Step-IsSerial requests s t (reads r rs b e q) i =
      subst (IsSerial requests) (sym q) (reads-IsSerial requests s r rs b e i)
  Step-IsSerial requests s t (returns r b q) i =
      subst (IsSerial requests) (sym q) (returns-IsSerial requests s r b i)
  Step-IsSerial requests s t (begins xs r ys e q) i =
      let (h, others) = All_split (λ r. is_serial r ≡ false) xs r ys (rw e at i.spawned_others) in
      subst (IsSerial requests) (sym q) (record {
        read = i.read;
        split = i.split;
        logged = ap (λ l. l ++ pending s.busy) (quiet s.log (began r) h) ∙ i.logged;
        waits = i.waits;
        spawned_others = others;
        running_others = (h, i.running_others);
      })
  Step-IsSerial requests s t (ends xs r ys e q) i =
      let (h, others) = All_split (λ r. is_serial r ≡ false) xs r ys (rw e at i.running_others) in
      subst (IsSerial requests) (sym q) (record {
        read = i.read;
        split = i.split;
        logged = ap (λ l. l ++ pending s.busy) (quiet s.log (ended r) h) ∙ i.logged;
        waits = i.waits;
        spawned_others = i.spawned_others;
        running_others = others;
      })

  Serves-IsSerial :
      (requests : List R) {s : Reader R} → Serves method requests s → IsSerial requests s
  unfolding serial_log in_order IsPending
  Serves-IsSerial requests start = record {
    read = [];
    split = refl;
    logged = refl;
    waits = tt;
    spawned_others = tt;
    running_others = tt;
  }
  Serves-IsSerial requests (next h st) = Step-IsSerial requests _ _ st (Serves-IsSerial requests h)

  -- However the scheduler runs the goroutines, the log has the beginnings and ends of the file system
  -- requests in the order in which they arrived, and no two of them overlap: it is what handling the
  -- ones read so far one after the other leaves, but for the end of one that is still running.
  pub serial_log-Serves :
      (requests : List R) (s : Reader R)
      → Serves method requests s
      → (read : List R) × (requests ≡ read ++ s.incoming)
        × (serial_log s.log ++ pending s.busy ≡ in_order read)
  serial_log-Serves requests s h = let i = Serves-IsSerial requests h in (i.read, i.split, i.logged)
