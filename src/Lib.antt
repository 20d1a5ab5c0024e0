-- ===== src/Lib.antt =====
-- PyTrain: control of Lionel trains over TMCC and Legacy (serial) and PDI (Base 3, network).
--
-- How the parts interact. A caller names a command of an enum and builds a `CommandReq`; its bytes go
-- out through the comm buffer. Bytes that come in are cut into packets by a listener, read back by
-- `CommandReq.from_bytes` or `PdiReq.from_bytes`, and handed to dispatchers that keep the state store.
--
-- Common: numbers, tests, lists, and `Result` for code that may raise. An exception of the source is
-- a value of `Error`.
--
-- Pdi.Frame: `PdiReq._calculate_checksum`, the end of `as_bytes` and the byte tests of `__init__` in
-- src/pytrain/pdi/pdi_req.py. Pdi.Listener: the loop of `PdiListener.run` and `offer` in
-- src/pytrain/pdi/pdi_listener.py; a call of `offer` is followed by the rounds of the loop that it
-- wakes. The loop is recursion on fuel; `fuel_for` is enough for every state, since a round takes a
-- byte off the deque or moves the search forward. The bound of the deque is not modelled, the bytes
-- of the deque are taken to stay below it.
--
-- Protocol.Scope, Protocol.Def: src/pytrain/protocol/constants.py and command_def.py. Protocol.Tmcc1,
-- Protocol.Tmcc2: the command enums of src/pytrain/protocol/tmcc1/tmcc1_constants.py and
-- tmcc2/tmcc2_constants.py as tables, row by row in the order of the source. Protocol.Request,
-- Protocol.Decode, Protocol.Digits: `CommandReq` in src/pytrain/protocol/command_req.py, from a
-- command to its bytes and back. A PDI packet or a multi-byte command is handed on (`Parsed`). Masks
-- are written out on 16 bits; `int(...)` and `zfill` work on lists of character codes.
-- Protocol.RoundTrip: the tables are checked by evaluation for address 0 and every data, and lemmas
-- on the bits carry the check to every address.
--
-- Protocol.RoundTrip.Tmcc1 does the same for TMCC1.
--
-- Protocol.Multibyte: `MultiByteReq` in src/pytrain/protocol/multibyte/multibyte_command_req.py, the
-- bytes, the checksum and `vet_bytes`; the index and data bytes of the subclasses are fields.
--
-- Comm.Listener: the loop of `CommandListener.run` and `offer` in src/pytrain/comm/command_listener.py.
-- The parser is a parameter, a function to a `Result`; the theorems on whole commands take the
-- model of `CommandReq.from_bytes` for it. A ValueError is logged, any other exception ends the
-- thread (`dies`). The loop waits only on an empty deque (`waits`); on bytes that make no command yet it
-- repeats the round without a change (`spins`), until `offer` adds other bytes. Each round before
-- that takes a byte, so a round more than there are bytes is enough fuel.
--
-- Comm.Dispatcher: `Channel` and `CommandDispatcher` in the same file: topics, subscriptions and what
-- `run` does with a command, as a list of events. Subscribers and commands are numbers. What a subscriber
-- does in its call, what a command makes the server ask the Base 3 and the sending to clients are left
-- out; a step relation of subscriptions and cancellations gives the states that occur.
--
-- Comm.Delay: `DelayHandler` and `TrackedEvent` in src/pytrain/comm/comm_buffer.py, the requests that are sent
-- later. The moment between the scheduler's taking an event and its running is a state of its own, so
-- that a cancellation can fall into it. A step relation gives the states that occur.
--
-- Pdi.Lcs: `LcsReq` in src/pytrain/pdi/lcs_req.py and `DeviceWrapper.build` in pdi_device.py.
-- Pdi.Asc2, Pdi.Bpc2: src/pytrain/pdi/asc2_req.py and bpc2_req.py, requests that are built, sent as PDI
-- frames and read again. Times and voltages are in hundredths and tenths. The mode of a BPC2 that the
-- state store knows is an argument.
--
-- Db.Text: the text and numbers of a record (`encode_text`, `decode_text`, `decode_int` in
-- src/pytrain/pdi/pdi_req.py). Db.Components: the members of trains and routes in
-- src/pytrain/db/components.py. Db.CompData: `CompData` in src/pytrain/db/comp_data.py, its maps row by
-- row, reading and writing; the attributes are a function from their names to values, and what the state
-- store answers for a record number is an argument. Db.Updates: the conversions, `_create_update_pkg`
-- and `request_to_updates` of the same file; the view of the engine's state is an argument. A quotient of
-- floats that is rounded there is never half way between two numbers, so it is a rounded division.
--
-- Protocol.Sequence.Request: `decode_rr_speed` in src/pytrain/protocol/sequence/sequence_req.py and the
-- official speeds. Protocol.Sequence.RampedSpeed: `RampedSpeedReqBase.__init__` and `labor_delta` in
-- ramped_speed_req.py beside it, and `SpeedReq` in speed_req.py: the list of requests that bring an engine to a speed. The state of the engine is an
-- argument, and so is the map from speeds to RPM, a dictionary of a package. Delays are in milliseconds.
-- `range` is recursion on fuel; the speed at one end of the range is enough of it, since a step is at least 1.
-- Speeds given as text are left out.
--
-- Atc.Block, Atc.Setup, Atc.Signals: `Block` in src/pytrain/atc/block.py, what a block holds and sends, how
-- blocks are made and linked, and what happens at them. A layout gives the block of each number; a signal of a
-- button, of the sensor track or of the switch changes the layout and sends events. A handler that is left by
-- an exception ends with it. What the state store knows of a train is an argument. A relation of links,
-- switches and signals gives the layouts that occur.
--
-- Utils.UniqueDeque: src/pytrain/utils/unique_deque.py, on numbers for the elements.
--
-- Utils.ExpiringSet: src/pytrain/utils/expiring_set.py; what a call of `time()` returned is an
-- argument, in ticks.
--
-- Not modelled: threads and locks, sockets and the serial port, logging, the command line, the GUI
-- and GPIO, and the parts that PROJECT.json lists.
pub mod Atc
pub mod Comm
pub mod Common
pub mod Db
pub mod Pdi
pub mod Protocol
pub mod Utils
