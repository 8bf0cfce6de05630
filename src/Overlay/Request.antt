-- ===== src/Overlay/Request.antt =====
-- langserver/fs.go: handleFileSystemRequest, readFile and FilePath. The file system under the
-- overlay and the decoding of JSON are parameters: `fs m path` is what ctxvfs.ReadFile gives for
-- `path` when the overlay holds `m`, and `none` of a decoder is the error of json.Unmarshal.
pub mod Changed
pub mod Events
use go_langserver.Common.{
  Bool, Bytes, Option, [], beq, codes, false, has_prefix, if◌then◌else◌, none, not, some, true,
  ◌||◌,
}
use go_langserver.Common.Result.{Result, ok, err, panics}
use go_langserver.Lsp.{
  DocumentUri, DidOpenTextDocumentParams, DidChangeTextDocumentParams, DidCloseTextDocumentParams,
}
use go_langserver.Util.{is_uri, uri_to_path}
use go_langserver.Overlay.{Files, Overlay, ChangeError, did_open, did_change, did_close}

-- An error of the file system; `os.IsNotExist` holds of the first one only.
pub data ReadError : Type 0 where
  not_exist : ReadError
  unreadable : ReadError

pub data RequestError : Type 0 where
  read_error : ReadError → RequestError
  change_error : ChangeError → RequestError
  bad_params : RequestError

-- The results `(uri, changed, err)`, or a panic.
pub data Reply : Type 0 where
  returns : DocumentUri → Bool → Option RequestError → Reply
  panicked : Reply

abbrev pub is_not_exist : ReadError → Bool
is_not_exist not_exist = true
is_not_exist unreadable = false

unfoldable pub is_file_system_request : Bytes → Bool
is_file_system_request method =
    beq method (codes "textDocument/didOpen")
    || (beq method (codes "textDocument/didChange")
        || (beq method (codes "textDocument/didClose")
            || beq method (codes "textDocument/didSave")))

pub record Decoders (Raw : Type 0) : Type 0 where
  pub open_params : Raw → Option DidOpenTextDocumentParams
  pub change_params : Raw → Option DidChangeTextDocumentParams
  pub close_params : Raw → Option DidCloseTextDocumentParams

-- `do` returns an error of `op` in place of what it returns otherwise.
abbrev pub op_error : Result ChangeError (Unit {0}) → Option RequestError
op_error (ok _) = none
op_error (err e) = some (change_error e)
op_error panics = none

-- The comparison of the file before and after the operation.
unfoldable pub changed_between : Result ReadError Bytes → Result ReadError Bytes → Bool
changed_between (ok before) (ok after) = not (beq before after)
changed_between (ok before) _ = true
changed_between (err not_exist) (err not_exist) = false
changed_between (err e) _ = true
changed_between panics _ = true

-- What `do` returns, from the file before and after. A panic of the operation or of the second
-- reading is the request's.
unfoldable pub conclude :
    Result ReadError Bytes
    → Result ReadError Bytes
    → DocumentUri
    → Overlay
    → Result ChangeError (Unit {0})
    → Overlay × Reply
conclude before after uri o' panics = (o', panicked)
conclude before panics uri o' r = (o', panicked)
conclude before after uri o' r = (o', returns uri (changed_between before after) (op_error r))

-- `json.Unmarshal`, with the return on its error
abbrev pub decoded {ℓ} : {P : Type ℓ} → Overlay → Option P → (P → Overlay × Reply) → Overlay × Reply
decoded o none f = (o, returns [] false (some bad_params))
decoded o (some p) f = f p

module _ (parse_url : Bytes → Option Bytes) (fs : Files → Bytes → Result ReadError Bytes) where
  -- `none` is the panic "bad uri".
  unfoldable pub file_path : DocumentUri → Option Bytes
  file_path uri =
      let path = uri_to_path parse_url uri in
      if has_prefix path (codes "/") then some path else none

  unfoldable pub read_file : Overlay → DocumentUri → Result ReadError Bytes
  unfolding file_path
  read_file o uri =
      if is_uri uri
      then elim (file_path uri) [ some path ↦ fs o.m path | none ↦ panics ]
      else err unreadable

  -- The end of `do`, after the operation has left `o'` with the result `r`.
  unfoldable pub finish :
      Result ReadError Bytes
      → DocumentUri
      → Overlay
      → Result ChangeError (Unit {0})
      → Overlay × Reply
  finish before uri o' r = conclude before (read_file o' uri) uri o' r

  -- `do`: an error that is not "does not exist" ends it before the operation.
  unfoldable pub run_op :
      Overlay → DocumentUri → (Overlay → Overlay × Result ChangeError (Unit {0})) → Overlay × Reply
  unfolding finish
  run_op o uri op = elim (read_file o uri) [
    | panics ↦ (o, panicked)
    | err unreadable ↦ (o, returns uri false (some (read_error unreadable)))
    | before ↦ finish before uri (op o).0 (op o).1
  ]

  module _ {Raw : Type 0} (json : Decoders Raw) where
    -- A request without parameters is a nil dereference in every case that decodes them, and an
    -- unexpected method panics.
    unfoldable pub handle_file_system_request : Overlay → Bytes → Option Raw → Overlay × Reply
    handle_file_system_request o method params =
        if beq method (codes "textDocument/didSave")
        then (o, returns [] false none)
        else elim params [
          | none ↦ (o, panicked)
          | some raw ↦
              if beq method (codes "textDocument/didOpen")
              then decoded o (json.open_params raw)
                  (λ p. run_op o p.uri (λ s. (did_open parse_url s p, ok tt)))
              else if beq method (codes "textDocument/didChange")
              then decoded o (json.change_params raw)
                  (λ p. run_op o p.uri (λ s. did_change parse_url s p))
              else if beq method (codes "textDocument/didClose")
              then decoded o (json.close_params raw)
                  (λ p. run_op o p.uri (λ s. (did_close parse_url s p, ok tt)))
              else (o, panicked)
        ]
