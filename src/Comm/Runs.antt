-- ===== src/Comm/Runs.antt =====
-- Concrete runs of the command listener: tests, and the theorems at one input.
use py_legacy.Common.{ltb, ℕ, true, false, some, List, [], ◌∷◌, ◌≡◌, refl, map, arith, ok}
use py_legacy.Common.Int.{pos}
use py_legacy.Protocol.Scope.{engine, train}
use py_legacy.Protocol.Def.{Command, tmcc2, is_alias, is_valid_data, num_data_bits, is_data}
use py_legacy.Protocol.Decode.{Parsed}
use py_legacy.Protocol.RoundTrip.Rows.{accepts}
use py_legacy.Protocol.Tmcc2.Constants.{tmcc2_set_absolute_speed_command}
use py_legacy.Protocol.Tmcc2.Engine.{tmcc2_engine_commands}
use py_legacy.Protocol.Tmcc2.Rows.{command, tmcc2_def}
use py_legacy.Comm.Listener.{
  Listener, round, is_first_byte, taken, End, waits, spins, feed, drain, fuel_for,
}
use py_legacy.Protocol.Multibyte.{MultiByteReq, multibyte_bytes}
use py_legacy.Comm.Listener.Multibyte.{round-multibyte}
use py_legacy.Comm.Listener.Fuel.{IsEnd, drain-fuel_for}
use py_legacy.Comm.Listener.Engine.{Order, idle, feed-engine, order_bytes, order_request, parse}
use py_legacy.Comm.Listener.Lost.{marked, feed-swallowed, feed-marked}

abbrev speed : Command
speed = command "ABSOLUTE_SPEED" (record (tmcc2_def tmcc2_set_absolute_speed_command) {
  variant = tmcc2 engine true;
  d_max = 199;
  filtered = true;
})

abbrev orders : List Order
orders =
    record { row = 0; command = speed; address = 12; command_data = pos 40; scope = engine }
    ∷ record { row = 0; command = speed; address = 1234; command_data = pos 7; scope = train }
    ∷ []

feed-engine_example :
    (chunks : List (List ℕ)) × (ps : List Parsed) × (map order_bytes orders ≡ map ok chunks)
    × (map order_request orders ≡ map ok ps)
    × (feed parse idle chunks ≡ some (ps, waits idle))
unfolding tmcc2_engine_commands is_alias accepts is_valid_data num_data_bits is_data
feed-engine_example = feed-engine orders (
  (refl, refl, omega arith, omega arith, refl, refl),
  ((refl, refl, omega arith, omega arith, refl, refl), tt),
)

abbrev half_received : Listener
half_received = record { bytes = 0x00 ∷ 0xFE ∷ 0x01 ∷ []; is_tmcc4 = false }

drain-fuel_for_example :
    (r : List Parsed × End) × (drain parse (fuel_for parse half_received) half_received ≡ some r)
    × IsEnd r.1
drain-fuel_for_example = drain-fuel_for parse half_received

-- The rest of a command that is not yet there keeps the loop busy.
half_received_spins :
    drain parse (fuel_for parse half_received) half_received
    ≡ some ([], spins (record { bytes = 0xFE ∷ 0x01 ∷ []; is_tmcc4 = false }))
unfolding drain round is_first_byte
half_received_spins = refl

-- Two commands to engine 2.
feed-swallowed_example :
    feed parse idle ((0xFE ∷ 1 ∷ 0x60 ∷ 0xFE ∷ 1 ∷ 0x1C ∷ 0xFE ∷ []) ∷ []) ≡ some ([], waits marked)
feed-swallowed_example = feed-swallowed 1 0x60 1 0x1C 0xFE (omega arith)

feed-marked_example :
    feed parse marked ((0xFE ∷ 1 ∷ 0x60 ∷ []) ∷ (0xFD ∷ 6 ∷ 0x1C ∷ []) ∷ [])
    ≡ some ([], waits marked)
feed-marked_example =
    feed-marked ((0xFE ∷ 1 ∷ 0x60 ∷ []) ∷ (0xFD ∷ 6 ∷ 0x1C ∷ []) ∷ [])
      ((0xFE, 1, 0x60, refl, refl), ((0xFD, 6, 0x1C, refl, refl), tt))

abbrev lights : MultiByteReq
lights = record { scope = engine; address = 12; index_byte = 0x7D; data_byte = 0xC0 }

round-multibyte_example :
    (bytes : List ℕ) × (multibyte_bytes lights ≡ ok bytes)
    × (round (record { bytes = bytes; is_tmcc4 = false })
        ≡ taken bytes (record { bytes = []; is_tmcc4 = ltb 99 12 }))
round-multibyte_example = round-multibyte lights refl (omega arith) (omega arith) refl
