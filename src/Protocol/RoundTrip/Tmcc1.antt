-- ===== src/Protocol/RoundTrip/Tmcc1.antt =====
-- The checked tables of the TMCC1 engine, switch and accessory commands, and what they say of a
-- command's word (protocol/command_req.py, protocol/tmcc1/tmcc1_constants.py).
pub mod Head
pub mod Find
pub mod Receive
use py_legacy.Common.{
  ℕ, suc, ◌+◌, ◌-◌, ◌*◌, ◌/◌, ◌^◌, ◌≤◌, ◌<◌, ◌≡◌, refl, sym, ap, ◌∙◌, bit_and, Bool, true, false,
  not, ◌&&◌, Option, none, some, List, [], ◌∷◌, get_elem?, arith, ◌==◌, ltb, leb, if◌then◌else◌,
  all_below, all_below_sound, and_left, and_right, eq_of_==, Bool-cases, inl, inr, Result,
  Result-cases, ok, raise, ◌>>=◌,
}
use mathlib.Core.Path.{subst}
use native.Mathlib.Nat.{zero-add}
use py_legacy.Common.Int.{ℤ, eq_ℤ, eq_of_eq_ℤ}
use py_legacy.Protocol.Scope.{CommandScope, engine, switch, acc}
use py_legacy.Protocol.Def.{
  CommandDef, Command, Variant, Identifier, identifier_value, engine_ident, train_ident,
  switch_ident, acc_ident, route_ident, halt_ident, sync_ident, tmcc1, tmcc2, complement,
  num_data_bits, data_mask, address_mask, data_from_bytes, is_alias, is_valid_bits, matches_masked,
  matches, matches_prefix, command_prefix, find,
}
use py_legacy.Protocol.Request.{apply_data, data_to_bits}
use py_legacy.Protocol.Decode.{is_tmcc1_prefix}
use py_legacy.Protocol.RoundTrip.Rows.{
  all_rows, all_rows_sound, all_indexed, all_indexed_sound, found_at, find_of_found, accepts,
  own_data, all_data, all_data_sound,
}
use py_legacy.Protocol.RoundTrip.Tmcc2.{masked}
use py_legacy.Protocol.RoundTrip.Words.{merged}
use py_legacy.Protocol.Tmcc1.Engine.{tmcc1_engine_commands}
use py_legacy.Protocol.Tmcc1.Others.{tmcc1_switch_commands, tmcc1_aux_commands}

-- The enums whose words hold seven bits of address.
pub data Table : Type 0 where
  engines switches accessories : Table

abbrev pub rows : Table → List Command
rows engines = tmcc1_engine_commands
rows switches = tmcc1_switch_commands
rows accessories = tmcc1_aux_commands

abbrev pub ident_of : Table → Identifier
ident_of engines = engine_ident
ident_of switches = switch_ident
ident_of accessories = acc_ident

-- The two bits above the address, which tell the tables apart.
abbrev pub top : Table → ℕ
top engines = 0
top switches = 128
top accessories = 256

abbrev pub has_form : Identifier → Variant → Bool
has_form i (tmcc1 j p) = identifier_value i == identifier_value j && is_tmcc1_prefix p
has_form i (tmcc2 s d) = false

unfoldable pub row_form : Table → CommandDef → Bool
row_form t c =
    has_form (ident_of t) c.variant
    && c.is_addressable
    && address_mask c == 0xC07F
    && c.command_bits / 128 == top t
    && ltb (complement (data_mask c)) 128
    && ltb (2 ^ num_data_bits c - 1) 128

unfoldable pub finds_at : Table → ℕ → ℕ → ℕ → Bool
unfolding masked
finds_at engines i p y = found_at (matches_prefix p y) i tmcc1_engine_commands
finds_at switches i p y =
    all_rows (λ m. not (matches_prefix p y m)) tmcc1_engine_commands
    && found_at (masked y) i tmcc1_switch_commands
finds_at accessories i p y =
    all_rows (λ m. not (matches_prefix p y m)) tmcc1_engine_commands
    && all_rows (λ m. not (masked y m)) tmcc1_switch_commands
    && found_at (masked y) i tmcc1_aux_commands

unfoldable pub word_fits : Table → ℕ → CommandDef → ℤ → ℕ → Bool
unfolding finds_at
word_fits t i c d w =
    w / 128 == top t && eq_ℤ (data_from_bytes c w) d && finds_at t i (command_prefix c) w

unfoldable pub datum_fits : Table → ℕ → CommandDef → ℤ → Bool
unfolding word_fits
datum_fits t i c d = elim (num_data_bits c == 0) [
  | true ↦ word_fits t i c d c.command_bits
  | false ↦ elim (data_to_bits c d) [
    | raise e ↦ false
    | ok v ↦ ltb v 128 && word_fits t i c d (merged (2 ^ num_data_bits c - 1) v c.command_bits)
  ]
]

unfoldable pub row_fits : Table → ℕ → Command → Bool
unfolding row_form datum_fits
row_fits t i m = elim (is_alias m.value) [
  | true ↦ true
  | false ↦ elim (row_form t m.value) [
    | true ↦ all_data m.value (datum_fits t i m.value)
    | false ↦ false
  ]
]

row_fits_table : (t : Table) → all_indexed (row_fits t) 0 (rows t) ≡ true
unfolding row_fits all_indexed all_rows all_data found_at data_to_bits data_from_bytes
    matches_prefix address_mask data_mask all_below matches_masked is_valid_bits
    tmcc1_engine_commands tmcc1_switch_commands tmcc1_aux_commands
row_fits_table engines = refl
row_fits_table switches = refl
row_fits_table accessories = refl

row_fits_split :
    (t : Table) (i : ℕ) (m : Command)
    → is_alias m.value ≡ false
    → row_fits t i m ≡ true
    → (row_form t m.value ≡ true) × (all_data m.value (datum_fits t i m.value) ≡ true)
unfolding row_fits
row_fits_split t i m f h = ground arith

-- The facts of a row that is no alias.
pub row_fits_lem :
    (t : Table) (i : ℕ) (m : Command)
    → get_elem? (rows t) i ≡ some m
    → is_alias m.value ≡ false
    → (row_form t m.value ≡ true) × (all_data m.value (datum_fits t i m.value) ≡ true)
row_fits_lem t i m row f = row_fits_split t i m f (
    subst (λ n. row_fits t n m ≡ true) (zero-add i)
      (all_indexed_sound (row_fits t) (rows t) 0 i (row_fits_table t) row))

pub row_form_lem :
    (t : Table) (c : CommandDef)
    → row_form t c ≡ true
    → (has_form (ident_of t) c.variant ≡ true)
      × (c.is_addressable ≡ true)
      × (address_mask c ≡ 0xC07F)
      × (c.command_bits / 128 ≡ top t)
      × (complement (data_mask c) < 128)
      × (2 ^ num_data_bits c - 1 < 128)
unfolding row_form
row_form_lem t c h =
    (ground arith, ground arith, ground arith, ground arith, ground arith, ground arith)

ident_of_value : ℕ → Identifier
ident_of_value n =
    if n == 0
    then engine_ident
    else if n == 0b11001000
    then train_ident
    else if n == 0b01000000
    then switch_ident
    else if n == 0b10000000
    then acc_ident
    else if n == 0b11010000
    then route_ident
    else if n == 0xFFFF
    then halt_ident
    else sync_ident

ident_of_value_lem : (i : Identifier) → ident_of_value (identifier_value i) ≡ i
unfolding ident_of_value
ident_of_value_lem engine_ident = refl
ident_of_value_lem train_ident = refl
ident_of_value_lem switch_ident = refl
ident_of_value_lem acc_ident = refl
ident_of_value_lem route_ident = refl
ident_of_value_lem halt_ident = refl
ident_of_value_lem sync_ident = refl

pub has_form_lem :
    (i : Identifier) (v : Variant)
    → has_form i v ≡ true
    → (p : ℕ) × (v ≡ tmcc1 i p) × (is_tmcc1_prefix p ≡ true)
has_form_lem i (tmcc2 s d) h = absurd (cc h)
has_form_lem i (tmcc1 j p) h =
    let e : identifier_value j ≡ identifier_value i = ground arith in
    (
      p,
      ap (λ k. tmcc1 k p)
          (sym (ident_of_value_lem j) ∙ (ap ident_of_value e ∙ ident_of_value_lem i)),
      and_right (identifier_value i == identifier_value j) (is_tmcc1_prefix p) h,
    )
