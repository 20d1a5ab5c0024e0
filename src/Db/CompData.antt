-- ===== src/Db/CompData.antt =====
-- `CompData` (db/comp_data.py): the attributes that a component has in the memory of the Base 3, read from
-- the bytes of a record and written to bytes. Every field of a map is an attribute of its class.
pub mod Maps
pub mod Stored
pub mod Layout
pub mod Reading
pub mod RoundTrip
use Prim.Native.String.{String}
use text.Mathlib.Text.{◌==◌ as str_eq}
use py_legacy.Common.{
  ℕ, zero, suc, ◌+◌, ◌-◌, Bool, true, false, not, ◌&&◌, ◌||◌, Option, none, some, List, [], ◌∷◌,
  ◌++◌, ◌==◌, ltb, leb, if◌then◌else◌, length, take, drop, Result, ok, raise, ◌>>=◌, value_error,
  type_error, attribute_error, overflow_error,
}
use py_legacy.Common.Int.{ℤ, pos, negsuc}
use py_legacy.Protocol.Scope.{CommandScope, engine, train, acc, switch, route, same_scope}
use py_legacy.Protocol.Digits.{decimal, address_digits}
use py_legacy.Db.Text.{replicate, le_bytes, from_le, encode_text, decode_text, decode_int}
use py_legacy.Db.Components.{
  consist_to_bytes, consist_from_bytes, consist_to_d4_bytes, consist_from_d4_bytes, routes_to_bytes,
  routes_from_bytes,
}
use py_legacy.Db.CompData.Maps.{
  Value, nothing, int, str, consist, routes, raw, Codec, number, text_field, digits, members,
  d4_members, route_members, CompDataHandler, Schema, base_memory_engine_read_map,
  base_memory_train_read_map, base_memory_d4_train_read_map, base_memory_acc_read_map,
  base_memory_switch_read_map, base_memory_route_read_map,
}

-- `str(n).zfill(4)`, the sign before the zeros
zfilled : ℤ → List ℕ
unfolding address_digits decimal
zfilled (pos n) = address_digits n
zfilled (negsuc n) = b'-' ∷ (replicate (3 - length (decimal (n + 1))) 48 ++ decimal (n + 1))

-- `to_bytes` of a handler. None has no `to_bytes`, no list has one either, and a number cannot be
-- stripped; `str(None)` is text. Values of other kinds are not put into a field of addresses or members.
unfoldable pub to_bytes : Codec → Value → Result (List ℕ)
unfolding zfilled
to_bytes (number n) (int (pos x)) = le_bytes n x
to_bytes (number n) (int (negsuc x)) = raise overflow_error
to_bytes (number n) _ = raise attribute_error
to_bytes (text_field n) nothing = encode_text none n
to_bytes (text_field n) (str t) = encode_text (some t) n
to_bytes (text_field n) _ = raise attribute_error
to_bytes digits (int x) = encode_text (some (zfilled x)) 4
to_bytes digits nothing = encode_text (some (b'N' ∷ b'o' ∷ b'n' ∷ b'e' ∷ [])) 4
to_bytes digits _ = raise type_error
to_bytes members nothing = consist_to_bytes []
to_bytes members (consist cs) = consist_to_bytes cs
to_bytes members _ = raise type_error
to_bytes d4_members nothing = consist_to_d4_bytes []
to_bytes d4_members (consist cs) = consist_to_d4_bytes cs
to_bytes d4_members _ = raise type_error
to_bytes route_members nothing = routes_to_bytes []
to_bytes route_members (routes cs) = routes_to_bytes cs
to_bytes route_members _ = raise type_error

abbrev text_value : Option (List ℕ) → Value
text_value none = nothing
text_value (some t) = str t

-- `from_bytes` of a handler. `by_record_no` is what the state store answers.
unfoldable pub from_bytes : (ℕ → Option ℕ) → Codec → List ℕ → Result Value
from_bytes by_record_no (number n) bs = ok (int (pos (from_le bs)))
from_bytes by_record_no (text_field n) bs = ok (text_value (decode_text bs))
from_bytes by_record_no digits bs = ok (int (decode_int bs))
from_bytes by_record_no members bs = do cs ← consist_from_bytes bs; ok (consist cs)
from_bytes by_record_no d4_members bs = do
  cs ← consist_from_d4_bytes by_record_no bs
  ok (consist cs)
from_bytes by_record_no route_members bs = do cs ← routes_from_bytes bs; ok (routes cs)

-- The attributes by name.
abbrev pub Fields : Type 0
Fields = String → Value

abbrev pub set_attr : Fields → String → Value → Fields
set_attr fs name v f = if str_eq f name then v else fs f

abbrev pub is_nothing : Value → Bool
is_nothing nothing = true
is_nothing _ = false

-- A field that is set already is left, and so is one whose bytes cannot be read.
unfoldable pub parse_field : (ℕ → Option ℕ) → List ℕ → Fields → ℕ → CompDataHandler → Fields
unfolding from_bytes
parse_field by_record_no bs fs k h =
    if leb (k + h.length - 1) (length bs) && is_nothing (fs h.field)
    then (elim (from_bytes by_record_no h.codec (take h.length (drop k bs))) [
      | ok v ↦ set_attr fs h.field v
      | raise e ↦ fs
    ])
    else fs

unfoldable pub parse_bytes : (ℕ → Option ℕ) → List ℕ → Schema → Fields → Fields
unfolding parse_field
parse_bytes by_record_no bs [] fs = fs
parse_bytes by_record_no bs ((k, h) ∷ rest) fs =
    parse_bytes by_record_no bs rest (parse_field by_record_no bs fs k h)

-- The default of a field of several bytes is these bytes.
abbrev default_value : CompDataHandler → Value
default_value h = elim h.default [
  | int (pos n) ↦ if n == 0xFF && ltb 1 h.length then raw (replicate h.length 0xFF) else int (pos n)
  | int (negsuc n) ↦ int (negsuc n)
  | nothing ↦ nothing
  | str t ↦ str t
  | consist cs ↦ consist cs
  | routes cs ↦ routes cs
  | raw bs ↦ raw bs
]

unfoldable pub set_defaults : Schema → Fields → Fields
set_defaults [] fs = fs
set_defaults ((k, h) ∷ rest) fs =
    set_defaults rest
      (if str_eq h.field "_tmcc_id" then fs else set_attr fs h.field (default_value h))

-- `SCOPE_TO_COMP_MAP`
unfoldable pub scope_to_comp_map : CommandScope → Option Schema
scope_to_comp_map engine = some base_memory_engine_read_map
scope_to_comp_map train = some base_memory_train_read_map
scope_to_comp_map acc = some base_memory_acc_read_map
scope_to_comp_map switch = some base_memory_switch_read_map
scope_to_comp_map route = some base_memory_route_read_map
scope_to_comp_map _ = none

-- `PdiReq.scope_record_length`
abbrev pub scope_record_length : CommandScope → ℕ
scope_record_length switch = 0x40
scope_record_length route = 0x80
scope_record_length _ = 0xC0

pub record CompData : Type 0 where
  pub scope : CommandScope
  pub fields : Fields

-- Before anything is read, only the TMCC ID may be known.
abbrev pub initial_fields : Option ℕ → Fields
initial_fields none f = nothing
initial_fields (some id) f = if str_eq f "_tmcc_id" then int (pos id) else nothing

abbrev pub parse_map : CommandScope → Option ℕ → Schema → Schema
parse_map train none schema = base_memory_d4_train_read_map
parse_map _ _ schema = schema

abbrev pub is_absent : List ℕ → Bool
is_absent [] = true
is_absent (b ∷ bs) = false

-- `CompData.from_bytes`; no bytes are taken like None.
unfoldable pub comp_data : (ℕ → Option ℕ) → List ℕ → CommandScope → Option ℕ → Result CompData
unfolding parse_bytes set_defaults scope_to_comp_map
comp_data by_record_no bs scope tmcc_id = elim (scope_to_comp_map scope) [
  | none ↦ raise value_error
  | some schema ↦ ok (record {
    scope = scope;
    fields =
        if is_absent bs
        then set_defaults schema (initial_fields tmcc_id)
        else parse_bytes by_record_no bs (parse_map scope tmcc_id schema) (initial_fields tmcc_id);
  })
]

-- `sorted(comp_map.keys())`
unfoldable pub insert_entry : ℕ → CompDataHandler → Schema → Schema
insert_entry k h [] = (k, h) ∷ []
insert_entry k h ((j, g) ∷ rest) =
    let behind = insert_entry k h rest in
    if leb k j then (k, h) ∷ (j, g) ∷ rest else (j, g) ∷ behind

unfoldable pub sort_schema : Schema → Schema
unfolding insert_entry
sort_schema [] = []
sort_schema ((k, h) ∷ rest) = insert_entry k h (sort_schema rest)

unfoldable pub without_d4 : Schema → Schema
without_d4 [] = []
without_d4 ((k, h) ∷ rest) =
    let others = without_d4 rest in if h.d4_only then others else (k, h) ∷ others

-- The map that `as_bytes` writes by.
unfoldable pub write_map : CommandScope → Schema → ℤ → Schema
unfolding sort_schema without_d4
write_map scope schema (negsuc n) = without_d4 (sort_schema schema)
write_map scope schema (pos id) =
    if ltb 99 id
    then sort_schema (if same_scope scope train then base_memory_d4_train_read_map else schema)
    else without_d4 (sort_schema schema)

-- A value as the bytes of its field; one that is too long is not cut.
unfoldable pub field_bytes : CompDataHandler → Value → Result (List ℕ)
unfolding to_bytes
field_bytes h (raw bs) = ok (bs ++ replicate (h.length - length bs) 0xFF)
field_bytes h v = do bs ← to_bytes h.codec v; ok (bs ++ replicate (h.length - length bs) 0xFF)

-- The loop of `as_bytes`; `last` is the end of the field before.
unfoldable pub write_fields : Schema → ℕ → Fields → Result (List ℕ)
unfolding field_bytes
write_fields [] last fs = ok []
write_fields ((k, h) ∷ rest) last fs = do
  new ← field_bytes h (fs h.field)
  more ← write_fields rest (k + h.length) fs
  ok (replicate (k - last) 0xFF ++ (new ++ more))

unfoldable pub as_bytes : CompData → Result (List ℕ)
unfolding write_fields write_map scope_to_comp_map
as_bytes c = elim (scope_to_comp_map c.scope) [
  | none ↦ raise attribute_error
  | some schema ↦ (elim (c.fields "_tmcc_id") [
    | int id ↦ (do
      bs ← write_fields (write_map c.scope schema id) 0 c.fields
      ok (bs ++ replicate (scope_record_length c.scope - length bs) 0xFF))
    | nothing ↦ raise type_error
    | str t ↦ raise type_error
    | consist cs ↦ raise type_error
    | routes cs ↦ raise type_error
    | raw bs ↦ raise type_error
  ])
]
