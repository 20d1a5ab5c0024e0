-- ===== src/Protocol/Multibyte.antt =====
-- `MultiByteReq` (protocol/multibyte/multibyte_command_req.py): the bytes of a parameter or R4LC
-- command, with the digits of a 4-digit address, and the test of the format of received bytes.
pub mod Layout
use py_legacy.Common.{
  ℕ, ◌+◌, ◌-◌, ◌*◌, ◌%◌, Bool, true, false, not, ◌&&◌, ◌||◌, Option, none, some, List, [], ◌∷◌,
  ◌++◌, ◌==◌, ltb, leb, if◌then◌else◌, get_elem?, length, Result, ok, raise, value_error, key_error,
  ◌>>=◌,
}
use py_legacy.Protocol.Scope.{CommandScope, engine, train, route, same_scope}
use py_legacy.Protocol.Digits.{address_digits}
use py_legacy.Protocol.Tmcc2.Constants.{
  legacy_engine_command_prefix, legacy_train_command_prefix, legacy_extended_block_command_prefix,
  legacy_multibyte_command_prefix,
}

-- The index byte and the data byte are those of the subclass.
pub record MultiByteReq : Type 0 where
  pub scope : CommandScope
  pub address : ℕ
  pub index_byte : ℕ
  pub data_byte : ℕ

unfoldable pub num_bytes : MultiByteReq → ℕ
num_bytes r = if leb 1 r.address && leb r.address 99 then 9 else 21

-- The address in a word; 0 if it has four digits.
unfoldable pub short_address : ℕ → ℕ
short_address a = if leb 1 a && leb a 99 then a else 0

unfoldable pub address_byte : MultiByteReq → ℕ
unfolding short_address
address_byte r = short_address r.address * 2 + (if same_scope r.scope train then 1 else 0)

unfoldable pub word_prefix : MultiByteReq → List ℕ
unfolding address_byte
word_prefix r = legacy_multibyte_command_prefix ∷ address_byte r ∷ []

unfoldable pub word_1 : MultiByteReq → List ℕ
unfolding short_address
word_1 r = (short_address r.address * 2 + 1) ∷ r.index_byte ∷ []

-- `TMCC2_SCOPE_TO_FIRST_BYTE_MAP`
unfoldable pub scope_first_byte : CommandScope → Result ℕ
scope_first_byte engine = ok legacy_engine_command_prefix
scope_first_byte train = ok legacy_train_command_prefix
scope_first_byte route = ok legacy_extended_block_command_prefix
scope_first_byte _ = raise key_error

-- The first three bytes of every seven.
unfoldable pub strip_digits : List ℕ → List ℕ
strip_digits [] = []
strip_digits (a ∷ []) = a ∷ []
strip_digits (a ∷ b ∷ []) = a ∷ b ∷ []
strip_digits (a ∷ b ∷ c ∷ d ∷ e ∷ f ∷ g ∷ rest) = a ∷ b ∷ c ∷ strip_digits rest
strip_digits (a ∷ b ∷ c ∷ rest) = a ∷ b ∷ c ∷ []

unfoldable pub summed : List ℕ → ℕ
summed [] = 0
summed (b ∷ bs) =
    let rest = summed bs in if b == 0xF8 || b == 0xF9 || b == 0xFB then rest else b + rest

-- `~(byte_sum % 256) & 0xFF`
unfoldable pub checksum : Bool → List ℕ → ℕ
unfolding strip_digits summed
checksum is_d4 data_bytes =
    255 - summed (if is_d4 then strip_digits data_bytes else data_bytes) % 256

-- The digits behind every three bytes.
unfoldable pub with_digits : List ℕ → List ℕ → List ℕ
with_digits digits [] = []
with_digits digits (a ∷ []) = a ∷ digits
with_digits digits (a ∷ b ∷ []) = a ∷ b ∷ digits
with_digits digits (a ∷ b ∷ c ∷ rest) = a ∷ b ∷ c ∷ (digits ++ with_digits digits rest)

-- `as_bytes`; a scope without a first byte raises.
unfoldable pub multibyte_bytes : MultiByteReq → Result (List ℕ)
unfolding word_1 word_prefix checksum with_digits
multibyte_bytes r = do
  first ← scope_first_byte r.scope
  let front : List ℕ = first ∷ (word_1 r ++ (word_prefix r ++ r.data_byte ∷ word_prefix r))
  let whole : List ℕ = front ++ checksum false front ∷ []
  ok (if ltb 99 r.address then with_digits (address_digits r.address) whole else whole)

-- `has_prefix_at`: false as well where an index is out of range.
unfoldable pub has_prefix_at : List ℕ → List ℕ → Bool
has_prefix_at param [] = true
has_prefix_at param (i ∷ is) =
    (elim (get_elem? param i) [ none ↦ false | some b ↦ b == legacy_multibyte_command_prefix ])
    && has_prefix_at param is

-- `(is_pf, is_vmb, is_d4)`
abbrev pub Format : Type 0
Format = Bool × Bool × Bool

unfoldable pub vet_bytes : List ℕ → Bool → Result Format
unfolding has_prefix_at
vet_bytes param raise_exception =
    let p_len = length param in
    if ltb p_len 9
    then if raise_exception then raise value_error else ok (false, false, false)
    else if p_len == 9 && has_prefix_at param (3 ∷ 6 ∷ [])
    then ok (true, false, false)
    else if leb 18 p_len && p_len % 3 == 0 && has_prefix_at param (3 ∷ 6 ∷ 9 ∷ 12 ∷ 15 ∷ [])
    then ok (false, true, false)
    else if p_len == 21 && p_len % 7 == 0 && has_prefix_at param (7 ∷ 14 ∷ [])
    then ok (true, false, true)
    else if leb 42 p_len && p_len % 7 == 0 && has_prefix_at param (7 ∷ 14 ∷ 21 ∷ 28 ∷ 35 ∷ [])
    then ok (false, true, true)
    else ok (false, false, false)
