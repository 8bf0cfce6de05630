-- ===== src/Handler/Lifecycle.antt =====
-- langserver/handler.go: the life of a server, from its start over "initialize" to "shutdown".
use mathlib.Core.Path.{subst}
use go_langserver.Common.{
  Bool, Bool-cases, Option, Option-cases, arith, beq, beq_ne, codes, eq→beq, false, if◌then◌else◌,
  inl, inr, none, refl, some, sym, true, ◌∙◌, ◌≡◌, ◌≢◌,
}
use go_langserver.Common.Result.{Result, ok, err, panics}
use go_langserver.Lsp.{InitializeParams}
use go_langserver.Cancel.{Cancel}
use go_langserver.Handler.State.{
  Caches, LangHandler, HandlerError, not_initialized, shutting_down, check_ready,
}
use go_langserver.Handler.Dispatch.{
  Environment, Session, Request, null, handler_error, Response, handle, handle_tracked, track,
  handle_ready, with_tracking,
}
use go_langserver.Handler.Moves.{Moves, same, inits, shuts, stays, pick-Moves, method-Moves, Passed}

pub data Phase : Type 0 where
  fresh running shut : Phase

-- What of the state decides how requests are answered.
abbrev pub phase_of : Option InitializeParams → Bool → Phase
phase_of none false = fresh
phase_of (some p) false = running
phase_of none true = shut
phase_of (some p) true = shut

-- How a phase can change.
pub data Next : Phase → Phase → Type 0 where
  stay : (p : Phase) → Next p p
  initialized : Next fresh running
  stopped : Next running shut

module _ {C : Caches} {Raw V : Type 0} (env : Environment C Raw V) where
  abbrev pub phase : Session C → Phase
  phase s = phase_of s.handler.init s.handler.common.shutdown

  -- Before "initialize" has succeeded every other request, "exit" included, gets the error and
  -- changes nothing.
  pub handle_before_initialize :
      (s : Session C) (r : Request Raw)
      → s.handler.init ≡ none
      → r.method ≢ codes "initialize"
      → handle env s r ≡ (s, err (handler_error not_initialized))
  unfolding handle
  handle_before_initialize s r e ne = rw (beq_ne r.method (codes "initialize") ne, e, handle) refl

  -- After "shutdown" every request gets an error and changes nothing, except that "exit" gets an
  -- empty reply; it changes nothing either, so the connection is not closed.
  pub handle_after_shutdown :
      (s : Session C) (r : Request Raw) (p : InitializeParams)
      → s.handler.init ≡ some p
      → s.handler.common.shutdown ≡ true
      → handle env s r
        ≡ (s, if beq r.method (codes "exit") then ok null else err (handler_error shutting_down))
  unfolding handle check_ready
  handle_after_shutdown s r p e d = rw (e, d, handle, check_ready) (ground arith)

  Moves-cancel :
      (h h' : LangHandler C) (c c' : Option Cancel)
      → Moves (record h { cancel = c }) h'
      → Moves h (record h' { cancel = c' })
  Moves-cancel h h' c c' (same e f) = same e f
  Moves-cancel h h' c c' (inits p e f g) = inits p e f g
  Moves-cancel h h' c c' (shuts p e f g) = shuts p e f g

  tracked-Moves :
      (s : Session C) (r : Request Raw)
      → Passed env s.handler r.method
      → Moves s.handler (handle_tracked env s r).0.handler
  unfolding handle_tracked Passed
  tracked-Moves s r h =
      Moves-cancel s.handler _ (track env r s.handler.cancel) _
        (method-Moves env (with_tracking env s (track env r s.handler.cancel)) r.method r.params h)

  ready-Moves :
      (s : Session C) (r : Request Raw) (ready : Result HandlerError (Unit {0}))
      → Passed env s.handler r.method
      → Moves s.handler (handle_ready env s r ready).0.handler
  unfolding handle_ready
  ready-Moves s r (ok u) h =
      pick-Moves env s.handler (env.span_ok r) _ _ (tracked-Moves s r h) (stays env s.handler)
  ready-Moves s r (err e) h =
      pick-Moves env s.handler (beq r.method (codes "exit")) _ _ (stays env s.handler)
        (stays env s.handler)
  ready-Moves s r panics h = stays env s.handler

  guard-Passed :
      (s : Session C) (r : Request Raw)
      → Passed env s.handler r.method
      → handle env s r ≡ handle_ready env s r (check_ready s.handler.common)
  unfolding handle Passed
  guard-Passed s r (inl e) = rw e
  guard-Passed s r (inr (p, i)) = elim (Bool-cases (beq r.method (codes "initialize"))) [
    | inl e ↦ rw e
    | inr e ↦ simp (e, i)
  ]

  Passed-Moves :
      (s : Session C) (r : Request Raw)
      → Passed env s.handler r.method
      → Moves s.handler (handle env s r).0.handler
  Passed-Moves s r h =
      subst (λ (x : Session C × Response env). Moves s.handler x.0.handler)
        (sym (guard-Passed s r h)) (ready-Moves s r (check_ready s.handler.common) h)

  handle-Moves : (s : Session C) (r : Request Raw) → Moves s.handler (handle env s r).0.handler
  unfolding Passed
  handle-Moves s r = elim (Bool-cases (beq r.method (codes "initialize"))) [
    | inl e ↦ Passed-Moves s r (inl e)
    | inr e ↦ elim (Option-cases s.handler.init) [
      | inl n ↦
          subst (λ (x : Session C × Response env). Moves s.handler x.0.handler)
            (sym (handle_before_initialize s r n (λ q. cc (e, eq→beq r.method _ q))))
            (stays env s.handler)
      | inr (p, i) ↦ Passed-Moves s r (inr (p, i))
    ]
  ]

  Moves-Next :
      (h h' : LangHandler C)
      → Moves h h'
      → Next (phase_of h.init h.common.shutdown) (phase_of h'.init h'.common.shutdown)
  Moves-Next h h' (same e f) = rw (e, f) (stay _)
  Moves-Next h h' (inits p e f g) = elim (Bool-cases h.common.shutdown) [
    | inl d ↦ rw (f, g, e, d) (stay shut)
    | inr d ↦ rw (f, g, e, d) initialized
  ]
  Moves-Next h h' (shuts p e f g) = elim (Bool-cases h.common.shutdown) [
    | inl d ↦ rw (f, g, e, d) (stay shut)
    | inr d ↦ rw (f, g, e, d) stopped
  ]

  Moves-init :
      (h h' : LangHandler C) (p : InitializeParams)
      → Moves h h'
      → h.init ≡ some p
      → h'.init ≡ some p
  Moves-init h h' p (same e f) i = e ∙ i
  Moves-init h h' p (inits q e f g) i = cc
  Moves-init h h' p (shuts q e f g) i = cc

  -- Over one request a server either stays in its phase, or goes from fresh to running or from
  -- running to shut.
  pub handle-Next : (s : Session C) (r : Request Raw) → Next (phase s) (phase (handle env s r).0)
  handle-Next s r = Moves-Next s.handler _ (handle-Moves s r)

  -- The parameters of a successful "initialize" are never replaced.
  pub handle_keeps_init :
      (s : Session C) (r : Request Raw) (p : InitializeParams)
      → s.handler.init ≡ some p
      → (handle env s r).0.handler.init ≡ some p
  handle_keeps_init s r p i = Moves-init s.handler _ p (handle-Moves s r) i
