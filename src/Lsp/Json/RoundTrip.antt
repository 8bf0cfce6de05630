-- ===== src/Lsp/Json/RoundTrip.antt =====
-- pkg/lsp/jsonrpc2.go and service.go: writing a value as JSON and reading it again.
use go_langserver.Lsp.Json.{
  unmarshal_id, marshal_id, to_uint64, to_string, unmarshal_marked_string, member, to_bool, to_kind,
  to_save, to_options, marshal_marked_string, Fields, pos, number, save_field, marshal_options,
  flag_field, null, negsuc, with_member, object, TextDocumentSyncOptionsOrKind, marshal_sync,
  kind_options, unmarshal_sync, TextDocumentSyncOptions,
}
use go_langserver.Lsp.{RequestId, MarkedString, ℤ}
use go_langserver.Common.{
  Bool, Bytes, Option, [], ap, arith, beq, beq_self, codes, false, if◌then◌else◌, ltb, none, refl,
  some, true, ℕ, ◌<◌, ◌^◌, ◌∙◌, ◌≡◌,
}

-- The field that is not used is zero, and a number is a uint64.
abbrev pub IsPlainId : RequestId → Type 0
IsPlainId id = if id.is_string then id.num ≡ 0 else (id.str ≡ []) × (id.num < 2 ^ 64)

-- A raw string has no language.
abbrev pub IsPlainString : MarkedString → Type 0
IsPlainString m = m.is_raw_string ≡ true → m.language ≡ []

id_from :
    (num : ℕ) (str : Bytes) (is_string : Bool)
    → (if is_string then num ≡ 0 else (str ≡ []) × (num < 2 ^ 64))
    → unmarshal_id (marshal_id (record { num = num; str = str; is_string = is_string }))
      ≡ some (record { num = num; str = str; is_string = is_string })
unfolding unmarshal_id marshal_id to_uint64 to_string
id_from num str true h = rw h
id_from num str false (e, h) =
    let t : ltb num (2 ^ 64) ≡ true = ground arith in rw (unmarshal_id, marshal_id, t, e)

-- An ID whose unused field is zero, and whose number is a uint64, is read back as it was written.
pub unmarshal_id-marshal_id :
    (id : RequestId) → IsPlainId id → unmarshal_id (marshal_id id) ≡ some id
unmarshal_id-marshal_id id h = id_from id.num id.str id.is_string h

marked_from :
    (language value : Bytes) (raw : Bool)
    → (raw ≡ true → language ≡ [])
    → unmarshal_marked_string
        (marshal_marked_string (record { language = language; value = value; is_raw_string = raw }))
      ≡ some (record { language = language; value = value; is_raw_string = raw })
unfolding unmarshal_marked_string marshal_marked_string to_string member beq
marked_from language value true h = rw (h refl)
marked_from language value false h = refl

-- A MarkedString that has no language if it is raw is read back as it was written.
pub unmarshal_marked_string-marshal_marked_string :
    (m : MarkedString)
    → IsPlainString m
    → unmarshal_marked_string (marshal_marked_string m) ≡ some m
unmarshal_marked_string-marshal_marked_string m h = marked_from m.language m.value m.is_raw_string h

member_flag_other :
    (key k : Bytes) (b : Bool) (fields : Fields)
    → beq k key ≡ false
    → member key (flag_field k b fields) ≡ member key fields
unfolding member
member_flag_other key k true fields h = rw h
member_flag_other key k false fields h = refl

member_flag :
    (key : Bytes) (b : Bool) (fields : Fields)
    → member key fields ≡ null
    → to_bool (member key (flag_field key b fields)) ≡ some b
unfolding to_bool member
member_flag key true fields h = rw (beq_self key)
member_flag key false fields h = rw h

-- An int of 64 bits.
abbrev pub IsInt : ℤ → Type 0
IsInt (pos n) = n < 2 ^ 63
IsInt (negsuc n) = n < 2 ^ 63

to_kind_int : (z : ℤ) → IsInt z → to_kind (number z) ≡ some z
unfolding to_kind
to_kind_int (pos n) h = let t : ltb n (2 ^ 63) ≡ true = ground arith in rw t
to_kind_int (negsuc n) h = let t : ltb n (2 ^ 63) ≡ true = ground arith in rw t

to_save-save_field : (x : Option Bool) → to_save (member (codes "save") (save_field x)) ≡ some x
unfolding to_save member to_bool beq
to_save-save_field none = refl
to_save-save_field (some b) = refl

save_field_other :
    (key : Bytes) (x : Option Bool)
    → beq (codes "save") key ≡ false
    → member key (save_field x) ≡ null
unfolding member
save_field_other key none h = refl
save_field_other key (some b) h = rw h

abbrev open_close_key : Bytes
open_close_key = codes "openClose"

abbrev change_key : Bytes
change_key = codes "change"

abbrev will_save_key : Bytes
will_save_key = codes "willSave"

abbrev wait_key : Bytes
wait_key = codes "willSaveWaitUntil"

abbrev save_key : Bytes
save_key = codes "save"

module _ (open_close : Bool) (change : ℤ) (will_save wait : Bool) (save : Option Bool) where
  abbrev waiting : Fields
  waiting = flag_field wait_key wait (save_field save)

  abbrev saving : Fields
  saving = flag_field will_save_key will_save waiting

  abbrev all_fields : Fields
  all_fields = flag_field open_close_key open_close (with_member change_key (number change) saving)

  waiting_other :
      (key : Bytes)
      → beq wait_key key ≡ false
      → beq save_key key ≡ false
      → member key waiting ≡ null
  waiting_other key h k =
      member_flag_other key wait_key wait (save_field save) h ∙ save_field_other key save k

  saving_other :
      (key : Bytes)
      → beq will_save_key key ≡ false
      → beq wait_key key ≡ false
      → beq save_key key ≡ false
      → member key saving ≡ null
  saving_other key g h k =
      member_flag_other key will_save_key will_save waiting g ∙ waiting_other key h k

  past_change :
      (key : Bytes)
      → beq open_close_key key ≡ false
      → beq change_key key ≡ false
      → member key all_fields ≡ member key saving
  unfolding member
  past_change key g h = member_flag_other key open_close_key open_close _ g ∙ rw h

  opened : to_bool (member open_close_key all_fields) ≡ some open_close
  unfolding member beq
  opened =
      member_flag open_close_key open_close (with_member change_key (number change) saving)
        (saving_other open_close_key refl refl refl)

  changed : IsInt change → to_kind (member change_key all_fields) ≡ some change
  unfolding member beq
  changed h =
      ap to_kind (
        member_flag_other change_key open_close_key open_close
          (with_member change_key (number change) saving) refl)
      ∙ to_kind_int change h

  saved_before : to_bool (member will_save_key all_fields) ≡ some will_save
  unfolding beq
  saved_before =
      ap to_bool (past_change will_save_key refl refl)
      ∙ member_flag will_save_key will_save waiting (waiting_other will_save_key refl refl)

  waited : to_bool (member wait_key all_fields) ≡ some wait
  unfolding beq
  waited =
      ap to_bool (
        past_change wait_key refl refl
        ∙ member_flag_other wait_key will_save_key will_save waiting refl)
      ∙ member_flag wait_key wait (save_field save) (save_field_other wait_key save refl)

  saved : to_save (member save_key all_fields) ≡ some save
  unfolding beq
  saved =
      ap to_save (
        past_change save_key refl refl
        ∙ (member_flag_other save_key will_save_key will_save waiting refl
            ∙ member_flag_other save_key wait_key wait (save_field save) refl))
      ∙ to_save-save_field save

  options_from :
      IsInt change
      → to_options (object all_fields)
        ≡ some (record {
          open_close = open_close;
          change = change;
          will_save = will_save;
          will_save_wait_until = wait;
          save = save;
        })
  unfolding to_options
  options_from h = rw (opened, changed h, saved_before, waited, saved)

-- What reading gives for what a value is written as: a kind has the options that it stands for.
abbrev pub read_back : TextDocumentSyncOptionsOrKind → TextDocumentSyncOptionsOrKind
read_back v = elim v.kind [
  | none ↦ v
  | some kind ↦ record { kind = some kind; options = some (kind_options kind) }
]

abbrev pub IsIntKind : TextDocumentSyncOptionsOrKind → Type 0
IsIntKind v = elim v.kind [
  | some kind ↦ IsInt kind
  | none ↦ elim v.options [ some o ↦ IsInt o.change | none ↦ Unit ]
]

sync_from :
    (kind : Option ℤ) (options : Option TextDocumentSyncOptions)
    → IsIntKind (record { kind = kind; options = options })
    → unmarshal_sync (marshal_sync (record { kind = kind; options = options }))
      ≡ some (read_back (record { kind = kind; options = options }))
unfolding marshal_sync unmarshal_sync
sync_from (some kind) options h = rw (unmarshal_sync, marshal_sync, to_kind_int kind h)
sync_from none none h = refl
sync_from none (some o) h =
    unfold marshal_options to_kind in
    rw (
      unmarshal_sync,
      marshal_sync,
      options_from o.open_close o.change o.will_save o.will_save_wait_until o.save h,
    )

-- Where its numbers are ints of 64 bits, a TextDocumentSyncOptionsOrKind is read back from JSON as it
-- was written, all its options included, except that a kind comes back with the options that it stands
-- for; so what is read back is written the same again.
pub unmarshal_sync-marshal_sync :
    (v : TextDocumentSyncOptionsOrKind)
    → IsIntKind v
    → (unmarshal_sync (marshal_sync v) ≡ some (read_back v))
      × (marshal_sync (read_back v) ≡ marshal_sync v)
unmarshal_sync-marshal_sync v h = (sync_from v.kind v.options h, again v.kind v.options)
  where
    again :
        (kind : Option ℤ) (options : Option TextDocumentSyncOptions)
        → marshal_sync (read_back (record { kind = kind; options = options }))
          ≡ marshal_sync (record { kind = kind; options = options })
    again none options = refl
    again (some kind) options = unfold marshal_sync in refl
