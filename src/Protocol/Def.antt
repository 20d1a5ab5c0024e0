-- ===== src/Protocol/Def.antt =====
-- `CommandDef` and its two subclasses, and the look-up of a command by the bits of a received word
-- (protocol/command_def.py, tmcc1/tmcc1_constants.py, tmcc2/tmcc2_constants.py).
use Prim.Native.String.{String}
use py_legacy.Common.{
  ℕ, zero, suc, ◌+◌, ◌-◌, ◌*◌, ◌^◌, bit_and, Bool, true, false, not, ◌&&◌, ◌||◌, Option, none, some,
  List, [], ◌∷◌, ◌==◌, ltb, leb, if◌then◌else◌,
}
use py_legacy.Common.Int.{ℤ, pos, leb_ℤ, eq_ℤ}
use py_legacy.Protocol.Scope.{
  CommandScope, engine, train, switch, route, acc, system, sync, CommandSyntax, tmcc, legacy,
}

-- `TMCC1CommandIdentifier`; its values are in `identifier_value`.
pub data Identifier : Type 0 where
  engine_ident train_ident switch_ident acc_ident route_ident halt_ident sync_ident : Identifier

abbrev pub identifier_value : Identifier → ℕ
identifier_value engine_ident = 0b00000000
identifier_value train_ident = 0b11001000
identifier_value switch_ident = 0b01000000
identifier_value acc_ident = 0b10000000
identifier_value route_ident = 0b11010000
identifier_value halt_ident = 0xFFFF
identifier_value sync_ident = 0xF0F0

-- What a subclass adds.
pub data Variant : Type 0 where
  -- `TMCC1CommandDef`: the identifier and the command prefix
  tmcc1 : Identifier → ℕ → Variant
  -- `TMCC2CommandDef`: the scope and `d4_broadcast`
  tmcc2 : CommandScope → Bool → Variant

-- `d_map = []` stands for None.
pub record CommandDef : Type 0 where
  pub command_bits : ℕ
  pub is_addressable : Bool
  pub address_bits : ℕ
  pub d_min : ℕ
  pub d_max : ℕ
  pub d_map : List (ℤ × ℕ)
  pub alias : Option String
  pub alias_data : Option ℕ
  pub filtered : Bool
  pub aux1 : Bool
  pub interval : Option ℕ
  pub noop : Bool
  pub ignore_impacts : Bool
  pub variant : Variant

-- A member of a command enum.
pub record Command : Type 0 where
  pub name : String
  pub value : CommandDef

-- `0xFFFF & ~x` for `x` of 16 bits
unfoldable pub complement : ℕ → ℕ
complement x = 0xFFFF - x

-- `math.ceil(math.log2(n))` for 1 ≤ n ≤ 2 ^ 16
ceil_log2_from : ℕ → ℕ → ℕ → ℕ
ceil_log2_from zero k n = k
ceil_log2_from (suc fuel) k n =
    let further = ceil_log2_from fuel (k + 1) n in if leb n (2 ^ k) then k else further

unfoldable pub ceil_log2 : ℕ → ℕ
unfolding ceil_log2_from
ceil_log2 n = ceil_log2_from 16 0 n

unfoldable pub max_value : List (ℤ × ℕ) → ℕ
max_value [] = 0
max_value ((k, v) ∷ rest) = let m = max_value rest in if ltb m v then v else m

-- `_d_bits`
unfoldable pub num_data_bits : CommandDef → ℕ
unfolding ceil_log2 max_value
num_data_bits c =
    if not (c.d_max == 0)
    then ceil_log2 c.d_max
    else (elim c.d_map [ [] ↦ 0 | p ∷ rest ↦ ceil_log2 (max_value (p ∷ rest)) ])

unfoldable pub is_data : CommandDef → Bool
unfolding num_data_bits
is_data c = not (num_data_bits c == 0)

unfoldable pub data_mask : CommandDef → ℕ
unfolding is_data complement
data_mask c = if is_data c then complement (2 ^ num_data_bits c - 1) else 0xFFFF

unfoldable pub is_alias : CommandDef → Bool
is_alias c = elim c.alias [ none ↦ false | some a ↦ true ]

unfoldable pub syntax : CommandDef → CommandSyntax
syntax c = elim c.variant [ tmcc1 i p ↦ tmcc | tmcc2 s d ↦ legacy ]

-- `TMCC1_IDENT_TO_SCOPE_MAP`
unfoldable pub identifier_scope : Identifier → CommandScope
identifier_scope engine_ident = engine
identifier_scope train_ident = train
identifier_scope switch_ident = switch
identifier_scope acc_ident = acc
identifier_scope route_ident = route
identifier_scope halt_ident = system
identifier_scope sync_ident = sync

-- `scope`
unfoldable pub native_scope : CommandDef → CommandScope
unfolding identifier_scope
native_scope c = elim c.variant [ tmcc1 i p ↦ identifier_scope i | tmcc2 s d ↦ s ]

-- `is_noop`: a TMCC1 command with another prefix than 0xFE does nothing.
unfoldable pub is_noop : CommandDef → Bool
is_noop c = elim c.variant [ tmcc1 i p ↦ not (p == 0xFE) || c.noop | tmcc2 s d ↦ c.noop ]

unfoldable pub num_address_bits : CommandDef → ℕ
num_address_bits c = if c.is_addressable then c.address_bits else 0

-- Where the address stands in the word.
abbrev pub address_shift : Variant → ℕ
address_shift (tmcc1 i p) = 7
address_shift (tmcc2 s d) = 9

-- `0xFFFF & ~((2**num_address_bits - 1) << shift)`
unfoldable pub address_mask : CommandDef → ℕ
unfolding num_address_bits complement
address_mask c = complement ((2 ^ num_address_bits c - 1) * 2 ^ address_shift c.variant)

unfoldable pub has_value : ℕ → List (ℤ × ℕ) → Bool
has_value v [] = false
has_value v ((k, w) ∷ rest) = v == w || has_value v rest

unfoldable pub map_get : ℤ → List (ℤ × ℕ) → Option ℕ
map_get d [] = none
map_get d ((k, v) ∷ rest) = if eq_ℤ d k then some v else map_get d rest

-- `is_valid_data(candidate, from_bytes=True)`
unfoldable pub is_valid_bits : CommandDef → ℕ → Bool
unfolding has_value
is_valid_bits c candidate =
    if is_data c
    then (elim c.d_map [
      | [] ↦ leb c.d_min candidate && leb candidate c.d_max
      | p ∷ rest ↦ has_value candidate (p ∷ rest)
    ])
    else false

-- `is_valid_data(candidate)`
unfoldable pub is_valid_data : CommandDef → ℤ → Bool
unfolding map_get
is_valid_data c candidate =
    if is_data c
    then (elim c.d_map [
      | [] ↦ leb_ℤ (pos c.d_min) candidate && leb_ℤ candidate (pos c.d_max)
      | p ∷ rest ↦ elim (map_get candidate (p ∷ rest)) [ none ↦ false | some v ↦ true ]
    ])
    else false

-- The first key with the value.
unfoldable pub key_of_value : ℕ → List (ℤ × ℕ) → ℤ
key_of_value v [] = pos 0
key_of_value v ((k, w) ∷ rest) = if w == v then k else key_of_value v rest

-- The data bits of a word: `0xFFFF & (~self.data_mask & value)`.
unfoldable pub data_bits_of : CommandDef → ℕ → ℕ
unfolding complement
data_bits_of c value = bit_and (complement (data_mask c)) value

-- `data_from_bytes` on the word that the two bytes make
unfoldable pub data_from_bytes : CommandDef → ℕ → ℤ
unfolding data_bits_of key_of_value
data_from_bytes c value =
    if is_data c
    then (elim c.d_map [
      | [] ↦ pos (data_bits_of c value)
      | p ∷ rest ↦ key_of_value (data_bits_of c value) (p ∷ rest)
    ])
    else pos 0

-- The tests of `by_value` on masked bits; an alias does not come here.
unfoldable pub matches_masked : CommandDef → ℕ → Bool
unfolding data_bits_of
matches_masked c value =
    if is_data c
    then bit_and (bit_and value (address_mask c)) (data_mask c) == c.command_bits
      && is_valid_bits c (data_bits_of c value)
    else bit_and value (address_mask c) == c.command_bits

-- One round of `CommandDefMixins.by_value` on a number.
unfoldable pub matches : ℕ → Command → Bool
unfolding is_alias
matches value m =
    if is_alias m.value
    then false
    else m.value.command_bits == value || matches_masked m.value value

unfoldable pub command_prefix : CommandDef → ℕ
command_prefix c = elim c.variant [ tmcc1 i p ↦ p | tmcc2 s d ↦ 0 ]

-- One round of `TMCC1EngineCommandEnum.by_value`.
unfoldable pub matches_prefix : ℕ → ℕ → Command → Bool
unfolding is_alias command_prefix
matches_prefix prefix value m =
    if command_prefix m.value == prefix && not (is_alias m.value)
    then matches_masked m.value value
    else false

-- The loop of `by_value` over the members of an enum.
unfoldable pub find : (Command → Bool) → List Command → Option Command
find p [] = none
find p (m ∷ ms) = elim (p m) [ true ↦ some m | false ↦ find p ms ]

abbrev pub by_value : List Command → ℕ → Option Command
by_value members value = find (matches value) members

abbrev pub by_value_prefix : List Command → ℕ → ℕ → Option Command
by_value_prefix members prefix value = find (matches_prefix prefix value) members
