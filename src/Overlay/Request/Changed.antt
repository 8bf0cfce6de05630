-- ===== src/Overlay/Request/Changed.antt =====
-- langserver/fs.go: the flag that handleFileSystemRequest returns, which decides whether the caches
-- are emptied, and what readFile sees of the overlay.
use go_langserver.Common.{
  Bool, Bytes, List, Option, [], arith, beq, beq_iff, codes, false, if◌then◌else◌, none, refl, some,
  trim_prefix, true, ◌↔◌, ◌∙◌, ◌≡◌, ◌≢◌,
}
use go_langserver.Common.Result.{Result, ok, err, panics}
use go_langserver.Lsp.{DocumentUri}
use go_langserver.Overlay.{Files, Overlay, ChangeError, is_uri, get, uri_to_overlay_path}
use go_langserver.Overlay.Changes.{Event, run, doc_run, events_of, get-run}
use go_langserver.Overlay.Request.{
  file_path, decoded, bad_params, ReadError, Reply, returns, panicked, not_exist, unreadable,
  RequestError, changed_between, read_file, run_op, conclude, Decoders, handle_file_system_request,
}

-- A file that could be read before, or did not exist, has changed exactly if it now reads otherwise.
changed_between_iff :
    (before after : Result ReadError Bytes)
    → before ≢ err unreadable
    → before ≢ panics
    → (changed_between before after ≡ false) ↔ (after ≡ before)
unfolding changed_between
changed_between_iff (ok b) (ok a) h k = ground (arith, beq_iff b a)
changed_between_iff (ok b) (err e) h k = ground arith
changed_between_iff (ok b) panics h k = ground arith
changed_between_iff (err not_exist) (ok a) h k = ground arith
changed_between_iff (err not_exist) (err not_exist) h k = ground arith
changed_between_iff (err not_exist) (err unreadable) h k = ground arith
changed_between_iff (err not_exist) panics h k = ground arith
changed_between_iff (err unreadable) after h k = absurd (h refl)
changed_between_iff panics after h k = absurd (k refl)

module _ (parse_url : Bytes → Option Bytes) (fs : Files → Bytes → Result ReadError Bytes) where
  -- The reply speaks of what the file was and of what it is.
  Honest : Overlay → Overlay × Reply → Type 0
  Honest o (o', panicked) = Unit
  Honest o (o', returns uri changed e) =
      (changed ≡ false) ↔ (read_file parse_url fs o' uri ≡ read_file parse_url fs o uri)

  unchanged :
      (o : Overlay) (uri : DocumentUri) (e : Option RequestError)
      → Honest o (o, returns uri false e)
  unfolding Honest
  unchanged o uri e = (λ _. refl, λ _. refl)

  conclude-Honest :
      (before after : Result ReadError Bytes) (o o' : Overlay) (uri : DocumentUri)
      (r : Result ChangeError (Unit {0}))
      → before ≢ err unreadable
      → before ≢ panics
      → read_file parse_url fs o uri ≡ before
      → read_file parse_url fs o' uri ≡ after
      → Honest o (conclude before after uri o' r)
  unfolding conclude Honest
  conclude-Honest before after o o' uri panics h k e f = tt
  conclude-Honest before panics o o' uri (ok u) h k e f = tt
  conclude-Honest before panics o o' uri (err x) h k e f = tt
  conclude-Honest before (ok a) o o' uri (ok u) h k e f =
      rw (e, f) (changed_between_iff before (ok a) h k)
  conclude-Honest before (ok a) o o' uri (err x) h k e f =
      rw (e, f) (changed_between_iff before (ok a) h k)
  conclude-Honest before (err y) o o' uri (ok u) h k e f =
      rw (e, f) (changed_between_iff before (err y) h k)
  conclude-Honest before (err y) o o' uri (err x) h k e f =
      rw (e, f) (changed_between_iff before (err y) h k)

  run_op-Honest :
      (o : Overlay) (uri : DocumentUri) (op : Overlay → Overlay × Result ChangeError (Unit {0}))
      → Honest o (run_op parse_url fs o uri op)
  run_op-Honest o uri op = from (read_file parse_url fs o uri) refl
    where
      from :
          (before : Result ReadError Bytes)
          → read_file parse_url fs o uri ≡ before
          → Honest o (run_op parse_url fs o uri op)
      from panics e = unfold run_op Honest in rw (e, run_op) tt
      from (err unreadable) e = unfold run_op in rw (e, run_op) (unchanged o uri _)
      from (err not_exist) e =
          unfold run_op in
          rw (e, run_op)
            (conclude-Honest (err not_exist) (read_file parse_url fs (op o).0 uri) o (op o).0 uri
              (op o).1 (cc) (cc) e refl)
      from (ok b) e =
          unfold run_op in
          rw (e, run_op)
            (conclude-Honest (ok b) (read_file parse_url fs (op o).0 uri) o (op o).0 uri (op o).1
              (cc) (cc) e refl)

  panicked-Honest : (o o' : Overlay) → Honest o (o', panicked)
  unfolding Honest
  panicked-Honest o o' = tt

  pick-Honest :
      (o : Overlay) (b : Bool) (x y : Overlay × Reply)
      → Honest o x
      → Honest o y
      → Honest o (if b then x else y)
  pick-Honest o true x y h k = h
  pick-Honest o false x y h k = k

  decoded-Honest :
      {P : Type 0} (o : Overlay) (p : Option P) (f : P → Overlay × Reply)
      → ((q : P) → Honest o (f q))
      → Honest o (decoded o p f)
  decoded-Honest o none f h = unchanged o [] (some bad_params)
  decoded-Honest o (some q) f h = h q

  module _ {Raw : Type 0} (json : Decoders Raw) where
    handle-Honest :
        (o : Overlay) (method : Bytes) (params : Option Raw)
        → Honest o (handle_file_system_request parse_url fs json o method params)
    unfolding handle_file_system_request
    handle-Honest o method none =
        pick-Honest o (beq method (codes "textDocument/didSave")) _ _ (unchanged o [] none)
          (panicked-Honest o o)
    handle-Honest o method (some raw) =
        pick-Honest o (beq method (codes "textDocument/didSave")) _ _ (unchanged o [] none) (
          pick-Honest o (beq method (codes "textDocument/didOpen")) _ _
            (decoded-Honest o (json.open_params raw) _ (λ p. run_op-Honest o p.uri _))
            (pick-Honest o (beq method (codes "textDocument/didChange")) _ _
              (decoded-Honest o (json.change_params raw) _ (λ p. run_op-Honest o p.uri _))
              (pick-Honest o (beq method (codes "textDocument/didClose")) _ _
                (decoded-Honest o (json.close_params raw) _ (λ p. run_op-Honest o p.uri _))
                (panicked-Honest o o))))

    -- Whatever the request, its reply says "not changed" exactly if the file of the URI that it
    -- returns reads the same as before, errors included: a reply that says "not changed" lets the
    -- caches stand, and one that says "changed" is never given for a file that reads the same.
    pub handle_file_system_request_changed :
        (o o' : Overlay) (method : Bytes) (params : Option Raw) (uri : DocumentUri) (changed : Bool)
        (e : Option RequestError)
        → handle_file_system_request parse_url fs json o method params ≡ (o', returns uri changed e)
        → (changed ≡ false) ↔ (read_file parse_url fs o' uri ≡ read_file parse_url fs o uri)
    unfolding Honest
    handle_file_system_request_changed o o' method params uri changed e h =
        rw h at (handle-Honest o method params)

  overlay_path :
      (uri : DocumentUri) (path : Bytes)
      → is_uri uri ≡ true
      → file_path parse_url fs uri ≡ some path
      → uri_to_overlay_path parse_url uri ≡ trim_prefix path (codes "/")
  unfolding uri_to_overlay_path file_path
  overlay_path uri path u p = ground arith

  -- Once the notifications leave a document with a text, its file reads as that text, if the file
  -- system looks into the overlay first (ctxvfs.BindBefore).
  read_file-run :
      ((m : Files) (path contents : Bytes)
        → m (trim_prefix path (codes "/")) ≡ some contents
        → fs m path ≡ ok contents)
      → (es : List Event) (o : Overlay) (uri : DocumentUri) (path contents : Bytes)
      → is_uri uri ≡ true
      → file_path parse_url fs uri ≡ some path
      → doc_run (get parse_url o uri) (events_of parse_url uri es) ≡ some contents
      → read_file parse_url fs (run parse_url o es) uri ≡ ok contents
  unfolding read_file
  read_file-run overlay_first es o uri path contents u p d =
      let read : (run parse_url o es).m (uri_to_overlay_path parse_url uri) ≡ some contents =
        (unfold get in get-run parse_url es o uri ∙ d) in
      rw (u, p, read_file) (overlay_first _ path contents (rw (overlay_path uri path u p) at read))
