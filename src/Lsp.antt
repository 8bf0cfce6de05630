-- ===== src/Lsp.antt =====
-- pkg/lsp/structures.go, service.go and jsonrpc2.go: the protocol's types that the components
-- share. A Go int is an integer, a string is its list of bytes and a nil pointer is `none`. Fields
-- that no modelled code reads are left out.
pub mod Json
use go_langserver.Common.{
  Bool, Bytes, List, Option, [], beq, codes, has_prefix, if◌then◌else◌, not, true, ℕ, ◌++◌,
}
use go_langserver.Common.Int.{ℤ}

abbrev pub DocumentUri : Type 0
DocumentUri = Bytes

pub record Position : Type 0 where
  pub line : ℤ
  pub character : ℤ

pub record Range : Type 0 where
  pub start : Position
  pub end : Position

pub record Location : Type 0 where
  pub uri : DocumentUri
  pub range : Range

pub record TextEdit : Type 0 where
  pub range : Range
  pub new_text : Bytes

-- uint RangeLength is a number below 2 ^ 64.
pub record TextDocumentContentChangeEvent : Type 0 where
  pub range : Option Range
  pub range_length : ℕ
  pub text : Bytes

pub record DidOpenTextDocumentParams : Type 0 where
  pub uri : DocumentUri
  pub text : Bytes

pub record DidChangeTextDocumentParams : Type 0 where
  pub uri : DocumentUri
  pub content_changes : List TextDocumentContentChangeEvent

pub record DidCloseTextDocumentParams : Type 0 where
  pub uri : DocumentUri

-- A request's ID; `is_string` says which of the two fields counts.
pub record RequestId : Type 0 where
  pub num : ℕ
  pub str : Bytes
  pub is_string : Bool

-- The embedded lsp.InitializeParams and the Go-specific fields of langserver/lsp.go.
pub record InitializeParams : Type 0 where
  pub root_path : Bytes
  pub root_uri : DocumentUri
  -- Capabilities.TextDocument.Completion.CompletionItemKind.ValueSet
  pub value_set : List ℕ
  -- Capabilities.TextDocument.Completion.CompletionItem.SnippetSupport
  pub snippet_support : Bool
  pub xcache_provider : Bool
  pub no_os_file_system_access : Bool
  pub root_import_path : Bytes

-- RootURI if it is set, or else the RootPath as a file URI.
unfoldable pub root : InitializeParams → DocumentUri
root p =
    if not (beq p.root_uri [])
    then p.root_uri
    else if has_prefix p.root_path (codes "file://")
    then p.root_path
    else codes "file://" ++ p.root_path

pub record MarkedString : Type 0 where
  pub language : Bytes
  pub value : Bytes
  pub is_raw_string : Bool

unfoldable pub raw_marked_string : Bytes → MarkedString
raw_marked_string s = record { language = []; value = s; is_raw_string = true }
