-- ===== src/Protocol/Runs.antt =====
-- Concrete runs of the requests: tests, and the theorems at one input.
use Prim.Native.String.{String}
use py_legacy.Common.{
  ℕ, Bool, true, false, Option, none, some, List, ◌≡◌, refl, arith, Result, ok, raise, type_error,
  index_error, ◌>>=◌, get_elem?, ltb,
}
use py_legacy.Common.Int.{ℤ, pos, negsuc}
use py_legacy.Protocol.Scope.{CommandScope, engine, train, scope_value, relative_speed_map}
use py_legacy.Protocol.Def.{
  Command, tmcc1, tmcc2, acc_ident, is_alias, find, matches, matches_prefix, matches_masked,
  is_data, num_data_bits, is_valid_data, data_mask, is_valid_bits, data_from_bytes, is_noop,
}
use py_legacy.Protocol.Request.{
  CommandReq, build, as_bytes, vet_request, command_req, validate_requested_scope, apply_data,
  apply_address,
}
use py_legacy.Protocol.Decode.{Parsed, request, from_bytes, tmcc1_address, tmcc2_address}
use py_legacy.Protocol.Digits.{address_digits, parse_int}
use py_legacy.Protocol.Multibyte.{MultiByteReq}
use py_legacy.Protocol.RoundTrip.Rows.{accepts, own_data}
use py_legacy.Protocol.RoundTrip.Receive.{from_bytes-as_bytes_engine}
use py_legacy.Protocol.RoundTrip.Tmcc1.{accessories}
use py_legacy.Protocol.RoundTrip.Tmcc1.Head.{scope_of}
use py_legacy.Protocol.RoundTrip.Tmcc1.Receive.{from_bytes-as_bytes_tmcc1}
use py_legacy.Protocol.Tmcc1.Constants.{tmcc1_acc_relative_speed_command, tmcc1_command_prefix}
use py_legacy.Protocol.Tmcc1.Rows.{tmcc1_def, command as tmcc1_command}
use py_legacy.Protocol.Tmcc1.Engine.{tmcc1_engine_commands}
use py_legacy.Protocol.Tmcc1.Others.{
  tmcc1_halt_commands, tmcc1_route_commands, tmcc1_switch_commands, tmcc1_aux_commands,
  tmcc1_sync_commands,
}
use py_legacy.Protocol.Tmcc2.Constants.{tmcc2_set_absolute_speed_command}
use py_legacy.Protocol.Tmcc2.Engine.{tmcc2_engine_commands}
use py_legacy.Protocol.Tmcc2.Others.{tmcc2_halt_commands, tmcc2_route_commands}
use py_legacy.Protocol.Tmcc2.Rows.{command, tmcc2_def}

shown : Result Parsed → Result (String × ℕ × ℤ × ℕ × Bool)
shown (ok (request r)) =
    ok (r.command.name, r.address, r.command_data, scope_value r.scope, r.is_tmcc4)
shown (ok p) = raise type_error
shown (raise e) = raise e

row_bytes : List Command → ℕ → ℕ → ℤ → Option CommandScope → Result (List ℕ)
row_bytes t i a d s = elim (get_elem? t i) as (λ _. Result (List ℕ)) [
  | none ↦ raise type_error
  | some m ↦ (do r ← build m a d s; as_bytes r)
]

there_and_back : List Command → ℕ → ℕ → ℤ → Option CommandScope → Result (String × ℕ × ℤ × ℕ × Bool)
unfolding shown row_bytes build vet_request command_req validate_requested_scope apply_data
    apply_address as_bytes from_bytes tmcc1_address tmcc2_address address_digits parse_int find
    matches matches_prefix matches_masked is_data data_mask is_valid_bits data_from_bytes is_noop
    tmcc1_engine_commands tmcc1_halt_commands tmcc1_route_commands tmcc1_switch_commands
    tmcc1_aux_commands tmcc1_sync_commands tmcc2_engine_commands tmcc2_halt_commands
    tmcc2_route_commands
there_and_back t i a d s = shown (do bytes ← row_bytes t i a d s; from_bytes false false bytes)

train_four_digits :
    there_and_back tmcc2_engine_commands 0 1234 (pos 100) (some train)
    ≡ ok ("ABSOLUTE_SPEED", 1234, pos 100, 2, true)
unfolding there_and_back
train_four_digits = refl

engine_two_digits :
    there_and_back tmcc2_engine_commands 43 9 (negsuc 4) none
    ≡ ok ("RELATIVE_SPEED", 9, negsuc 4, 1, false)
unfolding there_and_back
engine_two_digits = refl

tmcc1_train :
    there_and_back tmcc1_engine_commands 0 12 (pos 10) (some train)
    ≡ ok ("ABSOLUTE_SPEED", 12, pos 10, 2, false)
unfolding there_and_back
tmcc1_train = refl

-- A TMCC1 train keeps the low four bits of its address.
tmcc1_train_cut :
    there_and_back tmcc1_engine_commands 0 22 (pos 10) (some train)
    ≡ ok ("ABSOLUTE_SPEED", 6, pos 10, 2, false)
unfolding there_and_back
tmcc1_train_cut = refl

-- The route command with an address from 16 on is read as a train command.
tmcc1_route_16 :
    there_and_back tmcc1_route_commands 0 16 (pos 0) none
    ≡ ok ("BLOW_HORN_TWO", 48, pos 0, 2, false)
unfolding there_and_back
tmcc1_route_16 = refl

-- Address 0 is sent to an engine, and cannot be read back.
engine_zero : there_and_back tmcc2_engine_commands 0 0 (pos 5) (some engine) ≡ raise index_error
unfolding there_and_back
engine_zero = refl

abbrev absolute_speed : Command
absolute_speed = command "ABSOLUTE_SPEED" (record (tmcc2_def tmcc2_set_absolute_speed_command) {
  variant = tmcc2 engine true;
  d_max = 199;
  filtered = true;
})

from_bytes-as_bytes_engine_example :
    (r : CommandReq) × (bytes : List ℕ) × (build absolute_speed 1234 (pos 150) (some train) ≡ ok r)
    × (r.command ≡ absolute_speed)
    × (r.address ≡ 1234)
    × (r.command_data ≡ own_data absolute_speed.value (pos 150))
    × (r.scope ≡ train)
    × (as_bytes r ≡ ok bytes)
    × (from_bytes false false bytes ≡ ok (request (record r { is_tmcc4 = ltb 99 1234 })))
unfolding tmcc2_engine_commands is_alias accepts is_valid_data num_data_bits is_data
from_bytes-as_bytes_engine_example =
    from_bytes-as_bytes_engine 0 absolute_speed 1234 (pos 150) train refl refl (omega arith)
      (omega arith) refl refl

abbrev relative_speed : Command
relative_speed =
    tmcc1_command "RELATIVE_SPEED" (record (tmcc1_def tmcc1_acc_relative_speed_command) {
      variant = tmcc1 acc_ident tmcc1_command_prefix;
      d_map = relative_speed_map;
    })

from_bytes-as_bytes_tmcc1_example :
    (r : CommandReq) × (bytes : List ℕ) × (build relative_speed 22 (negsuc 1) none ≡ ok r)
    × (r.command ≡ relative_speed)
    × (r.address ≡ 22)
    × (r.command_data ≡ own_data relative_speed.value (negsuc 1))
    × (r.scope ≡ scope_of accessories)
    × (as_bytes r ≡ ok bytes)
    × (from_bytes false false bytes ≡ ok (request r))
unfolding tmcc1_aux_commands is_alias accepts is_valid_data num_data_bits is_data
from_bytes-as_bytes_tmcc1_example =
    from_bytes-as_bytes_tmcc1 accessories 16 relative_speed 22 (negsuc 1) refl refl (omega arith)
      (omega arith) refl

abbrev dialog : MultiByteReq
dialog = record { scope = train; address = 1234; index_byte = 0x72; data_byte = 0x05 }
