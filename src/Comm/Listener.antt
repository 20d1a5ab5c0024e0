-- ===== src/Comm/Listener.antt =====
-- The loop of `CommandListener.run` (comm/command_listener.py), which cuts the received bytes into
-- commands. `CommandReq.from_bytes` is a parameter here: `parse is_tmcc4 bytes`.
pub mod Fuel
pub mod Engine
pub mod Lost
pub mod Multibyte
use py_legacy.Common.{
  ℕ, zero, suc, ◌+◌, ◌-◌, ◌*◌, Bool, true, false, not, ◌&&◌, ◌||◌, Option, none, some, List, [],
  ◌∷◌, ◌++◌, ◌==◌, ltb, leb, if◌then◌else◌, get_elem?, length, take, drop, Result, ok, raise, Error,
  value_error,
}
use py_legacy.Protocol.Decode.{is_tmcc1_prefix, is_tmcc4_prefix}
use py_legacy.Protocol.Tmcc2.Constants.{
  legacy_extended_block_command_prefix, legacy_multibyte_command_prefix,
}

abbrev pub tmcc2_variable_length_parameter_index : ℕ
tmcc2_variable_length_parameter_index = 0x6F

-- The deque and the variable `is_tmcc4` of `run`.
pub record Listener : Type 0 where
  pub bytes : List ℕ
  pub is_tmcc4 : Bool

-- `self._deque[i]`; the code asks for it only below the length.
unfoldable pub byte_at : List ℕ → ℕ → ℕ
byte_at d i = elim (get_elem? d i) [ none ↦ 0 | some b ↦ b ]

-- The keys of `TMCC_FIRST_BYTE_TO_INTERPRETER`.
unfoldable pub is_first_byte : ℕ → Bool
is_first_byte b =
    is_tmcc1_prefix b || is_tmcc4_prefix b || b == legacy_extended_block_command_prefix

unfoldable pub is_marked : List ℕ → ℕ → Bool
unfolding byte_at
is_marked d i = byte_at d i == legacy_multibyte_command_prefix

-- What one round of the loop does.
pub data Round : Type 0 where
  -- `continue`, as there are too few bytes for a command: nothing has changed
  unfinished : Round
  -- the first byte begins no command
  ignored : Listener → Round
  -- `cmd_bytes`, with `is_tmcc4` as it then is, and the state with these bytes taken off
  taken : List ℕ → Listener → Round

-- The first `n` bytes are the command.
unfoldable pub take_bytes : ℕ → Bool → List ℕ → Round
take_bytes n four d = taken (take n d) (record { bytes = drop n d; is_tmcc4 = four })

-- The branch for a multi-byte command that is there as a whole.
unfoldable pub take_multibyte : Bool → List ℕ → Round
unfolding byte_at is_marked take_bytes
take_multibyte four d =
    let n = length d in
    let command_bytes = (5 + byte_at d 5) * 3 in
    if leb 9 n && byte_at d 2 == tmcc2_variable_length_parameter_index
    then if ltb n command_bytes then unfinished else take_bytes command_bytes four d
    else if leb 9 n && is_marked d 3 && is_marked d 6
    then take_bytes 9 four d
    else take_bytes 21 true d

-- The branch for a command of one word, with or without a 4-digit address.
unfoldable pub take_word : Bool → List ℕ → Round
unfolding byte_at take_bytes
take_word four d =
    if leb 4 (length d - 3) && leb (byte_at d 1) 1 then take_bytes 7 true d else take_bytes 3 four d

unfoldable pub round : Listener → Round
unfolding byte_at is_first_byte is_marked take_multibyte take_word
round l =
    let d = l.bytes in
    let n = length d in
    if leb 3 n && is_first_byte (byte_at d 0)
    then (if leb 9 n && is_marked d 3 && is_marked d 6
          || leb 21 n && is_marked d 7 && is_marked d 14
        then take_multibyte l.is_tmcc4 d
        else if leb 4 n && is_marked d 3
        then unfinished
        else take_word l.is_tmcc4 d)
    else if ltb n 3
    then unfinished
    else ignored (record l { bytes = drop 1 d })

-- Where the loop comes to: it waits, which it does only on an empty deque; it repeats a round that changes
-- nothing until other bytes come; or an exception other than ValueError has ended the thread.
pub data End : Type 0 where
  waits : Listener → End
  spins : Listener → End
  dies : Error → End

-- What follows a round that changes nothing: `if not self._deque: self._cv.wait()`
abbrev pub idles : Listener → End
idles l = elim l.bytes [ [] ↦ waits l | b ∷ bs ↦ spins l ]

module _ {A : Type 0} (parse : Bool → List ℕ → Result A) where
  abbrev pub Drained : Type 0
  Drained = Option (List A × End)

  -- What follows once `from_bytes` has answered: a ValueError is logged, and leaves `is_tmcc4` as it is.
  unfoldable pub after_parse : (Listener → Drained) → Listener → Result A → Drained
  after_parse again l (ok a) = elim (again (record l { is_tmcc4 = false })) [
    | none ↦ none
    | some (rs, e) ↦ some (a ∷ rs, e)
  ]
  after_parse again l (raise value_error) = again l
  after_parse again l (raise e) = some ([], dies e)

  unfoldable pub after_round : (Listener → Drained) → Listener → Round → Drained
  unfolding after_parse
  after_round again l unfinished = some ([], idles l)
  after_round again l (ignored l') = again l'
  after_round again l (taken bytes l') = after_parse again l' (parse l'.is_tmcc4 bytes)

  -- The rounds until the loop waits, spins or dies: what is given to the dispatcher, and the end. `none`
  -- means that the fuel ran out.
  unfoldable pub drain : ℕ → Listener → Drained
  unfolding after_round round
  drain zero l = none
  drain (suc fuel) l = after_round (drain fuel) l (round l)

  -- `offer`, for bytes that are no sync response
  unfoldable pub offer : Listener → List ℕ → Listener
  offer l data_bytes = record l { bytes = l.bytes ++ data_bytes }

  -- Each round but the last takes a byte.
  abbrev pub fuel_for : Listener → ℕ
  fuel_for l = suc (length l.bytes)

  -- The loop with each call of `offer`, which wakes it or finds it spinning, until it dies.
  unfoldable pub feed : Listener → List (List ℕ) → Drained
  feed l [] = some ([], idles l)
  feed l (chunk ∷ chunks) = elim (drain (fuel_for (offer l chunk)) (offer l chunk)) [
    | none ↦ none
    | some (rs, dies e) ↦ some (rs, dies e)
    | some (rs, waits l') ↦ elim (feed l' chunks) [
      | none ↦ none
      | some (qs, e) ↦ some (rs ++ qs, e)
    ]
    | some (rs, spins l') ↦ elim (feed l' chunks) [
      | none ↦ none
      | some (qs, e) ↦ some (rs ++ qs, e)
    ]
  ]
