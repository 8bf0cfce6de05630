-- ===== src/Handler/Shutdown.antt =====
-- langserver/handler.go: what a "shutdown" leaves of a running server, whatever comes after it.
use mathlib.Core.Path.{subst}
use go_langserver.Common.Result.{ok, err}
use go_langserver.Lsp.{InitializeParams}
use go_langserver.Handler.State.{Caches, shutting_down, shut_down}
use go_langserver.Handler.Dispatch.{
  Environment, Session, Request, Response, ResponseError, null, handle, handle_tracked,
  handle_method, track, untrack, with_tracking, handler_error,
}
use go_langserver.Handler.Documents.{handle_all}
use go_langserver.Handler.Freshness.{handle_running}
use go_langserver.Handler.Lifecycle.{handle_after_shutdown}
use go_langserver.Common.{
  Bool-cases, Bytes, List, Option, [], ap, beq, beq→eq, codes, false, inl, inr, refl, some, sym,
  true, ◌++◌, ◌∙◌, ◌∷◌, ◌≡◌, ◌⊎◌,
}

module _ {C : Caches} {Raw V : Type 0} (env : Environment C Raw V) where
  abbrev IsShut : Session C → Type 0
  IsShut s =
      ((p : InitializeParams) × (s.handler.init ≡ some p)) × (s.handler.common.shutdown ≡ true)

  -- A server that is shut down stays as it is.
  handle-IsShut : (s : Session C) (r : Request Raw) → IsShut s → (handle env s r).0 ≡ s
  handle-IsShut s r ((p, i), d) = ap (λ x. x.0) (handle_after_shutdown env s r p i d)

  handle_all-IsShut : (s : Session C) (rs : List (Request Raw)) → IsShut s → handle_all env s rs ≡ s
  unfolding handle_all
  handle_all-IsShut s [] h = refl
  handle_all-IsShut s (r ∷ rs) h =
      ap (λ t. handle_all env t rs) (handle-IsShut s r h) ∙ handle_all-IsShut s rs h

  later_reply :
      (s : Session C) (r : Request Raw)
      → IsShut s
      → (r.method ≡ codes "exit") ⊎ ((e : ResponseError) × ((handle env s r).1 ≡ err e))
  later_reply s r ((p, i), d) = elim (Bool-cases (beq r.method (codes "exit"))) [
    | inl e ↦ inl (beq→eq r.method (codes "exit") e)
    | inr e ↦
        inr
          (handler_error shutting_down, ap (λ x. x.1) (handle_after_shutdown env s r p i d) ∙ rw e)
  ]

  -- The switch, where the method is known, on a session that tracks the request.
  method_shutdown :
      (t : Session C) (params : Option Raw)
      → handle_method env t (codes "shutdown") params
        ≡ (record t { handler = record t.handler { common = shut_down t.handler.common } }, ok null)
  unfolding handle_method beq
  method_shutdown t params = refl

  method_exit :
      (t : Session C) (params : Option Raw)
      → handle_method env t (codes "exit") params ≡ (record t { closed = true }, ok null)
  unfolding handle_method beq
  method_exit t params = refl

  -- The request is handled, and then removed from the cancel manager.
  abbrev untracked : Session C → Request Raw → Session C × Response env → Session C × Response env
  untracked s r (t, response) =
      (with_tracking env t (untrack env r s.handler.cancel t.handler.cancel), response)

  handle_known :
      (s : Session C) (r : Request Raw) (p : InitializeParams) (method : Bytes)
      (x : Session C × Response env)
      → s.handler.init ≡ some p
      → s.handler.common.shutdown ≡ false
      → env.span_ok r ≡ true
      → r.method ≡ method
      → handle_method env (with_tracking env s (track env r s.handler.cancel)) method r.params ≡ x
      → handle env s r ≡ untracked s r x
  unfolding handle_tracked
  handle_known s r p method x i d o m e =
      handle_running env s r p i d o
      ∙ ap
          (λ n.
            untracked s r
              (handle_method env (with_tracking env s (track env r s.handler.cancel)) n r.params))
          m
      ∙ ap (untracked s r) e

  -- After a "shutdown" that a running server gets, and answers, it is frozen: whatever requests come
  -- then, in whatever number, its state is the one that the "shutdown" has left, its connection is as
  -- it was before, and every request but "exit" is answered with an error. "exit" is what closes the
  -- connection of a running server, so after "shutdown" nothing does.
  pub handle_all_after_shutdown :
      (s : Session C) (p : InitializeParams) (stop exit : Request Raw) (rs : List (Request Raw))
      → s.handler.init ≡ some p
      → s.handler.common.shutdown ≡ false
      → stop.method ≡ codes "shutdown"
      → env.span_ok stop ≡ true
      → exit.method ≡ codes "exit"
      → env.span_ok exit ≡ true
      → ((handle env s stop).1 ≡ ok null)
        × (handle_all env s (stop ∷ rs) ≡ (handle env s stop).0)
        × ((handle_all env s (stop ∷ rs ++ exit ∷ [])).closed ≡ s.closed)
        × ((r : Request Raw)
            → (r.method ≡ codes "exit")
              ⊎ ((e : ResponseError) × ((handle env (handle_all env s (stop ∷ rs)) r).1 ≡ err e)))
        × ((handle env s exit).0.closed ≡ true)
  unfolding handle_all shut_down
  handle_all_after_shutdown s p stop exit rs i d m o m' o' =
      let stopped =
        handle_known s stop p (codes "shutdown") _ i d o m (method_shutdown _ stop.params) in
      let shut : IsShut (handle env s stop).0 =
        subst (λ (x : Session C × Response env). IsShut x.0) (sym stopped) ((p, i), refl) in
      let frozen = handle_all-IsShut (handle env s stop).0 rs shut in
      (
        ap (λ x. x.1) stopped,
        frozen,
        ap (λ x. x.closed) (handle_all-IsShut (handle env s stop).0 (rs ++ exit ∷ []) shut)
            ∙ ap (λ x. x.0.closed) stopped,
        λ r. later_reply (handle_all env s (stop ∷ rs)) r (subst IsShut (sym frozen) shut),
        ap (λ x. x.0.closed)
            (handle_known s exit p (codes "exit") _ i d o' m' (method_exit _ exit.params)),
      )
