-- ===== src/Lsp/Json.antt =====
-- pkg/lsp/jsonrpc2.go and service.go: the JSON forms that are written by hand, of ID,
-- TextDocumentSyncOptionsOrKind and MarkedString. A JSON text is the value that it stands for; a
-- number is an integer, or another, which no uint64 and no int can hold. json.Unmarshal leaves its
-- target as it is on null.
pub mod RoundTrip
pub mod Examples
use go_langserver.Lsp.{RequestId, MarkedString}
use go_langserver.Common.Int.{ℤ, pos, negsuc}
use go_langserver.Common.{
  Bool, Bytes, Option, [], beq, codes, false, if◌then◌else◌, ltb, none, some, true, ℕ, ◌^◌,
}

infixl 5 ◌>>=◌
abbrev pub ◌>>=◌ : {A B : Type 0} → Option A → (A → Option B) → Option B
none >>= f = none
some a >>= f = f a

mutual
  pub data Json : Type 0 where
    null other_number : Json
    bool : Bool → Json
    number : ℤ → Json
    string : Bytes → Json
    object : Fields → Json

  pub data Fields : Type 0 where
    no_members : Fields
    with_member : Bytes → Json → Fields → Fields

-- json.Unmarshal into a variable that is zero; `none` is its error.
unfoldable pub to_uint64 : Json → Option ℕ
to_uint64 null = some 0
to_uint64 (number (pos n)) = if ltb n (2 ^ 64) then some n else none
to_uint64 _ = none

unfoldable pub to_string : Json → Option Bytes
to_string null = some []
to_string (string s) = some s
to_string _ = none

unfoldable pub to_bool : Json → Option Bool
to_bool null = some false
to_bool (bool b) = some b
to_bool _ = none

-- ID.MarshalJSON
unfoldable pub marshal_id : RequestId → Json
marshal_id id = if id.is_string then string id.str else number (pos id.num)

-- ID.UnmarshalJSON
unfoldable pub unmarshal_id : Json → Option RequestId
unfolding to_uint64 to_string
unmarshal_id json = elim (to_uint64 json) [
  | some v ↦ some (record { num = v; str = []; is_string = false })
  | none ↦ elim (to_string json) [
    | some v ↦ some (record { num = 0; str = v; is_string = true })
    | none ↦ none
  ]
]

-- The value of a key, with the zero value where it is missing. (A key given twice is not modelled.)
unfoldable pub member : Bytes → Fields → Json
member key no_members = null
member key (with_member k v fields) = if beq k key then v else member key fields

-- MarkedString.MarshalJSON
unfoldable pub marshal_marked_string : MarkedString → Json
marshal_marked_string m =
    if m.is_raw_string
    then string m.value
    else object (
        with_member (codes "language") (string m.language)
          (with_member (codes "value") (string m.value) no_members))

-- MarkedString.UnmarshalJSON into a zero value
unfoldable pub unmarshal_marked_string : Json → Option MarkedString
unfolding to_string member
unmarshal_marked_string (string s) =
    some (record { language = []; value = s; is_raw_string = true })
unmarshal_marked_string null = some (record { language = []; value = []; is_raw_string = false })
unmarshal_marked_string (object fields) = elim (to_string (member (codes "language") fields)) [
  | none ↦ none
  | some language ↦ elim (to_string (member (codes "value") fields)) [
    | none ↦ none
    | some value ↦ some (record { language = language; value = value; is_raw_string = false })
  ]
]
unmarshal_marked_string _ = none

-- The options with `save` as the includeText of its SaveOptions.
pub record TextDocumentSyncOptions : Type 0 where
  pub open_close : Bool
  pub change : ℤ
  pub will_save : Bool
  pub will_save_wait_until : Bool
  pub save : Option Bool

pub record TextDocumentSyncOptionsOrKind : Type 0 where
  pub kind : Option ℤ
  pub options : Option TextDocumentSyncOptions

-- A field with `omitempty`, in front of others.
abbrev pub flag_field : Bytes → Bool → Fields → Fields
flag_field key true fields = with_member key (bool true) fields
flag_field key false fields = fields

abbrev pub save_field : Option Bool → Fields
save_field none = no_members
save_field (some include_text) =
    with_member (codes "save")
      (object (with_member (codes "includeText") (bool include_text) no_members)) no_members

unfoldable pub marshal_options : TextDocumentSyncOptions → Json
marshal_options o = object (
    flag_field (codes "openClose") o.open_close (
      with_member (codes "change") (number o.change) (
        flag_field (codes "willSave") o.will_save
          (flag_field (codes "willSaveWaitUntil") o.will_save_wait_until (save_field o.save)))))

-- TextDocumentSyncKind is an int, of 64 bits.
unfoldable pub to_kind : Json → Option ℤ
to_kind null = some (pos 0)
to_kind (number (pos n)) = if ltb n (2 ^ 63) then some (pos n) else none
to_kind (number (negsuc n)) = if ltb n (2 ^ 63) then some (negsuc n) else none
to_kind _ = none

unfoldable pub to_save : Json → Option (Option Bool)
unfolding member to_bool
to_save null = some none
to_save (object fields) = elim (to_bool (member (codes "includeText") fields)) [
  | some b ↦ some (some b)
  | none ↦ none
]
to_save _ = none

unfoldable pub to_options : Json → Option TextDocumentSyncOptions
unfolding member to_bool to_kind to_save
to_options null = some (record {
  open_close = false;
  change = pos 0;
  will_save = false;
  will_save_wait_until = false;
  save = none;
})
to_options (object fields) = do
  open_close ← to_bool (member (codes "openClose") fields)
  change ← to_kind (member (codes "change") fields)
  will_save ← to_bool (member (codes "willSave") fields)
  will_save_wait_until ← to_bool (member (codes "willSaveWaitUntil") fields)
  save ← to_save (member (codes "save") fields)
  some (record {
    open_close = open_close;
    change = change;
    will_save = will_save;
    will_save_wait_until = will_save_wait_until;
    save = save;
  })
to_options _ = none

-- TextDocumentSyncOptionsOrKind.MarshalJSON
unfoldable pub marshal_sync : TextDocumentSyncOptionsOrKind → Json
unfolding marshal_options
marshal_sync v = elim v.kind [
  | some kind ↦ number kind
  | none ↦ elim v.options [ some o ↦ marshal_options o | none ↦ null ]
]

-- &TextDocumentSyncOptions{OpenClose: true, Change: kind}
abbrev pub kind_options : ℤ → TextDocumentSyncOptions
kind_options kind = record {
  open_close = true;
  change = kind;
  will_save = false;
  will_save_wait_until = false;
  save = none;
}

-- TextDocumentSyncOptionsOrKind.UnmarshalJSON
unfoldable pub unmarshal_sync : Json → Option TextDocumentSyncOptionsOrKind
unfolding to_kind to_options
unmarshal_sync null = some (record { kind = none; options = none })
unmarshal_sync json = elim (to_kind json) [
  | some kind ↦ some (record { kind = some kind; options = some (kind_options kind) })
  | none ↦ elim (to_options json) [
    | some o ↦ some (record { kind = none; options = some o })
    | none ↦ none
  ]
]
