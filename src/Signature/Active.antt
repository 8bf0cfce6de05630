-- ===== src/Signature/Active.antt =====
-- langserver/signature.go: which parameter is active.
use go_langserver.Common.Result.{ok}
use go_langserver.Hover.Handle.{TypecheckError}
use go_langserver.Signature.{
  FunExpr, CallExpr, CallNode, FuncSignature, DeclNode, SignatureHelp, call_expr, short_param,
  active_parameter, documentation_of, is_fatal, help_for, signature_help,
  handle_text_document_signature_help,
}
use go_langserver.Util.{is_uri}
use go_langserver.Common.{
  All, Bool-cases, Bytes, List, Option, [], arith, drop, false, inl, inr, leb, length, map, none,
  refl, some, take, true, ℕ, ◌<◌, ◌∙◌, ◌∷◌, ◌≡◌, ◌≤◌,
}

-- The rest of the arguments starts with one that ends at or behind the position.
abbrev pub ReachesTo : ℕ → List ℕ → Type 0
ReachesTo start [] = Unit
ReachesTo start (arg_end ∷ ends) = start ≤ arg_end

-- The arguments in front of a parameter end before the position, and its own, if there is one, does not.
abbrev pub IsActive : ℕ → List ℕ → ℕ → Type 0
IsActive start ends n =
    (n ≤ length ends)
    × All (λ (arg_end : ℕ). arg_end < start) (take n ends)
    × ReachesTo start (drop n ends)

active_parameter-IsActive :
    (start : ℕ) (ends : List ℕ) → IsActive start ends (active_parameter start ends)
unfolding active_parameter
active_parameter-IsActive start [] = (omega arith, tt, tt)
active_parameter-IsActive start (arg_end ∷ ends) = elim (Bool-cases (leb start arg_end)) [
  | inl e ↦ rw e (omega arith, tt, ground arith)
  | inr e ↦
      let (b, h, r) = active_parameter-IsActive start ends in
      rw e (omega arith, (ground arith, h), r)
]

module _ {I : Type 0} (type_of : FunExpr I → Option FuncSignature)
    (path_to : I → Option (List DeclNode)) where
  going_on :
      (uri : Bytes) (failure : Option TypecheckError) (nodes : List (CallNode I)) (start : ℕ)
      → is_uri uri ≡ true
      → is_fatal failure ≡ false
      → handle_text_document_signature_help type_of path_to uri failure nodes start
        ≡ signature_help type_of path_to nodes start
  unfolding handle_text_document_signature_help
  going_on uri none nodes start u f = simp u
  going_on uri (some e) nodes start u f = simp (u, f)

  -- Where the document is a file, and the type checking gives no error or only that the position is not
  -- on an identifier, the first call on the path of nodes is answered with its signature, if its
  -- function has one and the documentation can be looked up: with a text for each parameter, and with
  -- the first argument as the active one that ends at or behind the position, or else the number of the
  -- arguments.
  handle_text_document_signature_help-IsActive :
      (uri : Bytes) (failure : Option TypecheckError) (nodes : List (CallNode I)) (start : ℕ)
      (call : CallExpr I) (signature : FuncSignature) (doc : Bytes)
      → is_uri uri ≡ true
      → is_fatal failure ≡ false
      → call_expr nodes ≡ some call
      → type_of call.fun ≡ some signature
      → documentation_of path_to call.fun ≡ ok doc
      → (help : SignatureHelp) × (handle_text_document_signature_help type_of path_to uri failure
            nodes start
          ≡ ok (some help))
        × (help.label ≡ signature.printed)
        × (help.documentation ≡ doc)
        × (help.parameters ≡ map short_param signature.params)
        × IsActive start call.arg_ends help.active_parameter
  unfolding signature_help
  handle_text_document_signature_help-IsActive uri failure nodes start call signature doc u f c t
        d =
      (
        record {
          label = signature.printed;
          documentation = doc;
          parameters = map short_param signature.params;
          active_parameter = active_parameter start call.arg_ends;
        },
        going_on uri failure nodes start u f ∙ simp (signature_help, help_for, c, t, d),
        refl,
        refl,
        refl,
        active_parameter-IsActive start call.arg_ends,
      )
