-- ===== src/Protocol/Decode.antt =====
-- `CommandReq.from_bytes` and its interpreters: from received bytes back to a request
-- (protocol/command_req.py).
use py_legacy.Common.{
  ℕ, ◌+◌, ◌-◌, ◌*◌, ◌/◌, ◌^◌, bit_and, Bool, true, false, not, ◌&&◌, ◌||◌, Option, none, some, List,
  [], ◌∷◌, ◌==◌, ltb, leb, if◌then◌else◌, Result, ok, raise, value_error, index_error,
  attribute_error, ◌>>=◌, length,
}
use py_legacy.Protocol.Scope.{
  CommandScope, engine, train, switch, route, acc, system, same_scope, default_address,
}
use py_legacy.Protocol.Def.{
  CommandDef, Command, complement, address_mask, data_from_bytes, native_scope, by_value,
  by_value_prefix, identifier_value, engine_ident, train_ident, switch_ident, acc_ident,
  route_ident, halt_ident,
}
use py_legacy.Protocol.Digits.{parse_int}
use py_legacy.Protocol.Request.{CommandReq, build, tmcc_id}
use py_legacy.Protocol.Tmcc1.Constants.{
  tmcc1_command_prefix, tmcc1_alt_command_prefix, tmcc1_train_command_modifier,
  tmcc1_train_command_purifier,
}
use py_legacy.Protocol.Tmcc1.Engine.{tmcc1_engine_commands}
use py_legacy.Protocol.Tmcc1.Others.{
  tmcc1_halt_commands, tmcc1_route_commands, tmcc1_switch_commands, tmcc1_aux_commands,
  tmcc1_sync_commands,
}
use py_legacy.Protocol.Tmcc2.Constants.{
  legacy_engine_command_prefix, legacy_train_command_prefix, legacy_extended_block_command_prefix,
}
use py_legacy.Protocol.Tmcc2.Engine.{tmcc2_engine_commands}
use py_legacy.Protocol.Tmcc2.Others.{tmcc2_halt_commands, tmcc2_route_commands}
use py_legacy.Pdi.Frame.{pdi_sop, pdi_eop}

-- `TMCC1CommandIdentifier.classify` on the first byte
unfoldable pub classify : ℕ → Result CommandScope
classify byte =
    if byte == identifier_value halt_ident
    then ok system
    else if bit_and byte 0b11010000 == identifier_value route_ident
    then ok route
    else if bit_and byte 0b11000000 == identifier_value engine_ident
    then ok engine
    else if bit_and byte 0b11000000 == identifier_value switch_ident
    then ok switch
    else if bit_and byte 0b11000000 == identifier_value acc_ident
    then ok acc
    else if bit_and byte 0b11111000 == identifier_value train_ident
    then ok train
    else raise value_error

-- `0xFFFF & ~(((2**4) - 1) << 7)`
abbrev train_address_mask : ℕ
train_address_mask = 0xFFFF - (2 ^ 4 - 1) * 2 ^ 7

-- `TMCC1CommandDef.address_from_bytes` on the word of the two bytes
unfoldable pub tmcc1_address : CommandDef → ℕ → Result ℕ
unfolding classify address_mask complement
tmcc1_address c value =
    if c.is_addressable
    then (do
      scope ← classify (value / 256)
      let mask : ℕ = if same_scope scope train then train_address_mask else address_mask c
      ok (bit_and (complement mask) value / 2 ^ 7))
    else ok default_address

-- `TMCC2CommandDef.address_from_bytes` on a word of two bytes, with no bytes behind it
unfoldable pub tmcc2_address : CommandDef → ℕ → Result ℕ
unfolding address_mask complement
tmcc2_address c value =
    if c.is_addressable
    then (let address = bit_and (complement (address_mask c)) value / 2 ^ 9 in
        if leb 1 address && leb address 99
        then ok address
        else if address == 0
        then raise index_error
        else raise attribute_error)
    else ok default_address

-- The tables that `build_tmcc1_command_req` tries in turn, those of the engine apart.
unfoldable pub find_tmcc1 : ℕ → ℕ → Option (Command × Option CommandScope)
find_tmcc1 prefix value = elim (by_value tmcc1_halt_commands value) [
  | some m ↦ some (m, none)
  | none ↦ elim (by_value_prefix tmcc1_engine_commands prefix value) [
    | some m ↦ some (m, none)
    | none ↦
        let purified = bit_and value tmcc1_train_command_purifier in
        let as_train : Option Command =
          if bit_and value tmcc1_train_command_modifier == tmcc1_train_command_modifier
          then by_value_prefix tmcc1_engine_commands prefix purified
          else none in
        elim as_train [
          | some m ↦ some (m, some train)
          | none ↦ elim (by_value tmcc1_switch_commands value) [
            | some m ↦ some (m, none)
            | none ↦ elim (by_value tmcc1_aux_commands value) [
              | some m ↦ some (m, none)
              | none ↦ elim (by_value tmcc1_route_commands value) [
                | some m ↦ some (m, none)
                | none ↦ elim (by_value tmcc1_sync_commands value) [
                  | some m ↦ some (m, none)
                  | none ↦ none
                ]
              ]
            ]
          ]
        ]
  ]
]

-- What follows once a member was found.
unfoldable pub finish_tmcc1 : ℕ → Option (Command × Option CommandScope) → Result CommandReq
finish_tmcc1 value none = raise value_error
finish_tmcc1 value (some (m, scope)) = do
  address ← tmcc1_address m.value value
  build m address (data_from_bytes m.value value) scope

unfoldable pub build_tmcc1_command_req : ℕ → ℕ → Result CommandReq
unfolding find_tmcc1 finish_tmcc1
build_tmcc1_command_req prefix value = finish_tmcc1 value (find_tmcc1 prefix value)

-- The tables of `build_tmcc2_command_req`, in its order.
unfoldable pub find_tmcc2 : ℕ → Option Command
find_tmcc2 value = elim (by_value tmcc2_halt_commands value) [
  | some m ↦ some m
  | none ↦ elim (by_value tmcc2_engine_commands value) [
    | some m ↦ some m
    | none ↦ by_value tmcc2_route_commands value
  ]
]

-- What follows once a member was found; `suffix` holds the bytes behind the word.
unfoldable pub finish_tmcc2 : ℕ → ℕ → List ℕ → Option Command → Result CommandReq
finish_tmcc2 prefix value suffix none = raise value_error
finish_tmcc2 prefix value suffix (some m) = do
  let scope : CommandScope =
      if prefix == legacy_train_command_prefix then train else native_scope m.value
  address ← elim suffix as (λ _. Result ℕ) [
    | [] ↦ tmcc2_address m.value value
    | c ∷ cs ↦ parse_int (c ∷ cs)
  ]
  build m address (data_from_bytes m.value value) (some scope)

-- What the interpreters give: a request, or the bytes handed on to `MultiByteReq.from_bytes` or to
-- `PdiReq.from_bytes`.
pub data Parsed : Type 0 where
  request : CommandReq → Parsed
  multibyte : Bool → List ℕ → Parsed
  pdi_packet : List ℕ → Parsed

-- `build_tmcc2_command_req`: a word, a word with four address digits, or a multi-byte command.
unfoldable pub build_tmcc2_command_req : Bool → List ℕ → Result Parsed
unfolding find_tmcc2 finish_tmcc2
build_tmcc2_command_req is_tmcc4 (prefix ∷ high ∷ low ∷ suffix) =
    let value = high * 256 + low in
    if length suffix == 0 || length suffix == 4 && leb high 1
    then (do r ← finish_tmcc2 prefix value suffix (find_tmcc2 value); ok (request r))
    else ok (multibyte is_tmcc4 (prefix ∷ high ∷ low ∷ suffix))
build_tmcc2_command_req is_tmcc4 param = raise index_error

abbrev pub is_tmcc1_prefix : ℕ → Bool
is_tmcc1_prefix b = b == tmcc1_command_prefix || b == tmcc1_alt_command_prefix

-- The keys of `TMCC4_FIRST_BYTE_TO_INTERPRETER`.
abbrev pub is_tmcc4_prefix : ℕ → Bool
is_tmcc4_prefix b = b == legacy_engine_command_prefix || b == legacy_train_command_prefix

-- The flags that `from_bytes` sets on the request that it returns. Those of a multi-byte or PDI request
-- are set on what its own parser returns.
unfoldable pub set_flags : Bool → Bool → Parsed → Parsed
unfolding tmcc_id
set_flags from_tmcc_rx is_tmcc4 (request r) =
    let rx : Bool = if from_tmcc_rx then true else r.is_tmcc_rx in
    let four : Bool = if is_tmcc4 || ltb 99 (tmcc_id r) then true else r.is_tmcc4 in
    request (record r { is_tmcc_rx = rx; is_tmcc4 = four })
set_flags from_tmcc_rx is_tmcc4 p = p

unfoldable pub last_byte : ℕ → List ℕ → ℕ
last_byte b [] = b
last_byte b (c ∷ cs) = last_byte c cs

unfoldable pub from_bytes : Bool → Bool → List ℕ → Result Parsed
unfolding build_tmcc1_command_req build_tmcc2_command_req set_flags last_byte
from_bytes from_tmcc_rx is_tmcc4 (first ∷ high ∷ low ∷ suffix) =
    let param = first ∷ high ∷ low ∷ suffix in
    if first == pdi_sop && last_byte low suffix == pdi_eop
    then ok (pdi_packet param)
    else if is_tmcc4_prefix first
    then (do p ← build_tmcc2_command_req true param; ok (set_flags from_tmcc_rx is_tmcc4 p))
    else if not is_tmcc4 && is_tmcc1_prefix first
    then (do
      r ← build_tmcc1_command_req first (high * 256 + low)
      ok (set_flags from_tmcc_rx is_tmcc4 (request r)))
    else if not is_tmcc4 && first == legacy_extended_block_command_prefix
    then (do p ← build_tmcc2_command_req false param; ok (set_flags from_tmcc_rx is_tmcc4 p))
    else raise value_error
from_bytes from_tmcc_rx is_tmcc4 param = raise value_error
