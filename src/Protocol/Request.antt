-- ===== src/Protocol/Request.antt =====
-- `CommandReq`: building a request, its bits and its bytes (protocol/command_req.py).
use py_legacy.Common.{
  ℕ, ◌-◌, ◌*◌, ◌/◌, ◌%◌, ◌^◌, bit_and, bit_or, Bool, true, false, not, ◌&&◌, ◌||◌, Option, none,
  some, List, [], ◌∷◌, ◌++◌, ◌==◌, ltb, leb, if◌then◌else◌, Result, ok, raise, value_error,
  overflow_error, ◌>>=◌, ◌>>◌, require,
}
use py_legacy.Common.Int.{ℤ, pos, negsuc}
use py_legacy.Protocol.Scope.{
  CommandScope, engine, train, route, same_scope, tmcc, legacy, default_address,
}
use py_legacy.Protocol.Def.{
  Identifier, identifier_value, engine_ident, route_ident, tmcc1, tmcc2, CommandDef, Command,
  complement, num_data_bits, syntax, native_scope, address_mask, address_shift, map_get,
  command_prefix,
}
use py_legacy.Protocol.Digits.{address_digits}
use py_legacy.Protocol.Tmcc1.Constants.{tmcc1_train_command_modifier, tmcc1_train_command_purifier}
use py_legacy.Protocol.Tmcc2.Constants.{
  legacy_engine_command_prefix, legacy_train_command_prefix, legacy_extended_block_command_prefix,
}

-- The fields of a request that its bytes come from, and the two receive flags.
pub record CommandReq : Type 0 where
  pub command : Command
  pub address : ℕ
  pub command_data : ℤ
  pub scope : CommandScope
  pub command_bits : ℕ
  pub is_tmcc_rx : Bool
  pub is_tmcc4 : Bool

abbrev pub is_engine_or_train : CommandScope → Bool
is_engine_or_train s = same_scope s engine || same_scope s train

abbrev pub is_legacy : CommandDef → Bool
is_legacy c = elim (syntax c) [ tmcc ↦ false | legacy ↦ true ]

abbrev pub has_ident : Identifier → CommandDef → Bool
has_ident i c = elim c.variant [
  | tmcc1 j p ↦ identifier_value i == identifier_value j
  | tmcc2 s d ↦ false
]

-- `_vet_request`: the bounds on the address. `command == TMCC1RouteCommandEnum.FIRE` is the one TMCC1
-- command with the identifier ROUTE. Any integer passes the test of the data.
unfoldable pub vet_request : Command → ℕ → Option CommandScope → Result (Unit {0})
unfolding syntax native_scope
vet_request m address requested =
    let c = m.value in
    let scope = elim requested as (λ _. CommandScope) [ none ↦ native_scope c | some s ↦ s ] in
    let min_val : ℕ = if same_scope scope engine && is_legacy c then 0 else 1 in
    let wide : ℕ = if is_engine_or_train scope && is_legacy c then 9999 else 99 in
    let max_val : ℕ = if has_ident route_ident c then 31 else wide in
    if c.is_addressable
    then (do require (leb min_val address) value_error; require (leb address max_val) value_error)
    else ok tt

-- `_validate_requested_scope`
unfoldable pub validate_requested_scope : CommandDef → Option CommandScope → CommandScope
unfolding native_scope
validate_requested_scope c none = native_scope c
validate_requested_scope c (some request) =
    if is_engine_or_train request && is_engine_or_train (native_scope c)
    then request
    else native_scope c

-- `_apply_address` on the bits; `syntax` is never PDI.
unfoldable pub apply_address : CommandDef → CommandScope → ℕ → ℕ → ℕ
unfolding syntax address_mask
apply_address c scope address bits =
    let cleared = bit_and bits (address_mask c) in
    let placed = bit_or cleared (address * 2 ^ address_shift c.variant) in
    if not c.is_addressable then bits else elim (syntax c) [
      | tmcc ↦
          if same_scope scope train && has_ident engine_ident c
          then bit_or (bit_and placed tmcc1_train_command_purifier) tmcc1_train_command_modifier
          else placed
      | legacy ↦ if leb 1 address && leb address 99 then placed else cleared
    ]

-- The data bits that `_apply_data` sets: the value of the map, or the number itself if it is in range
-- and no wider than the field.
unfoldable pub data_to_bits : CommandDef → ℤ → Result ℕ
unfolding num_data_bits map_get
data_to_bits c d = do
  let mapped : Result ℕ = elim c.d_map [
    | [] ↦ elim d [
      | pos n ↦ if ltb n c.d_min || ltb c.d_max n then raise value_error else ok n
      | negsuc n ↦ raise value_error
    ]
    | p ∷ rest ↦ elim (map_get d (p ∷ rest)) [ none ↦ raise value_error | some v ↦ ok v ]
  ]
  v ← mapped
  require (v == bit_and v (2 ^ num_data_bits c - 1)) value_error
  ok v

-- `_apply_data` on the bits
unfoldable pub apply_data : CommandDef → ℤ → ℕ → Result ℕ
unfolding data_to_bits complement
apply_data c d bits = if num_data_bits c == 0 then ok bits else do
  v ← data_to_bits c d
  ok (bit_or (bit_and bits (complement (2 ^ num_data_bits c - 1))) v)

-- The constructor `CommandReq(command, address, data, scope)`.
unfoldable pub command_req : Command → ℕ → ℤ → Option CommandScope → Result CommandReq
command_req m address d requested =
    let c = m.value in
    let own_address : ℕ = if c.is_addressable then address else 0 in
    let own_data = if num_data_bits c == 0 then pos 0 else d in
    let scope = validate_requested_scope c requested in
    do
      bits ← apply_data c own_data (apply_address c scope own_address c.command_bits)
      ok (record {
        command = m;
        address = own_address;
        command_data = own_data;
        scope = scope;
        command_bits = bits;
        is_tmcc_rx = false;
        is_tmcc4 = false;
      })

-- `CommandReq.build` for a command of these tables
unfoldable pub build : Command → ℕ → ℤ → Option CommandScope → Result CommandReq
unfolding vet_request command_req
build m address d requested = do vet_request m address requested; command_req m address d requested

-- The property `address`
unfoldable pub tmcc_id : CommandReq → ℕ
tmcc_id r = if r.command.value.is_addressable then r.address else default_address

-- `TMCC2CommandPrefix(scope.name)`; other names raise.
unfoldable pub scope_prefix : CommandScope → Result ℕ
scope_prefix engine = ok legacy_engine_command_prefix
scope_prefix train = ok legacy_train_command_prefix
scope_prefix route = ok legacy_extended_block_command_prefix
scope_prefix _ = raise value_error

-- `_determine_first_byte`
unfoldable pub determine_first_byte : CommandDef → CommandScope → Result ℕ
unfolding command_prefix scope_prefix validate_requested_scope
determine_first_byte c scope = elim c.variant [
  | tmcc1 i p ↦ ok p
  | tmcc2 s d ↦ scope_prefix (validate_requested_scope c (some scope))
]

-- `n.to_bytes(2, byteorder="big")`
unfoldable pub word_bytes : ℕ → Result (List ℕ)
word_bytes n = if ltb n (2 ^ 16) then ok (n / 256 ∷ n % 256 ∷ []) else raise overflow_error

-- `as_bytes`
unfoldable pub as_bytes : CommandReq → Result (List ℕ)
unfolding determine_first_byte word_bytes tmcc_id
as_bytes r = do
  first_byte ← determine_first_byte r.command.value r.scope
  word ← word_bytes r.command_bits
  let suffix : List ℕ = if ltb 99 (tmcc_id r) then address_digits (tmcc_id r) else []
  ok (first_byte ∷ (word ++ suffix))
