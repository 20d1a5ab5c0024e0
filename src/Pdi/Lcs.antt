-- ===== src/Pdi/Lcs.antt =====
-- `LcsReq` (pdi/lcs_req.py) and the choice of an action in `DeviceWrapper.build` (pdi/pdi_device.py): what
-- the requests to the layout control devices share. A voltage is in tenths of a volt.
pub mod Received
use py_legacy.Common.{
  ℕ, zero, suc, ◌+◌, ◌-◌, ◌||◌, Bool, true, false, Option, none, some, List, [], ◌∷◌, ◌==◌, ltb,
  leb, if◌then◌else◌, get_elem?, drop, map, Result, ok, raise, ◌>>=◌, require, ◌++◌, index_error,
  value_error, overflow_error, attribute_error, type_error,
}
use py_legacy.Pdi.Frame.{from_frame}

-- The three commands of a device have codes in a row: `*_GET`, `*_SET` and `*_RX`.
pub data Direction : Type 0 where
  get set rx : Direction

abbrev pub direction_code : ℕ → Direction → ℕ
direction_code first get = first
direction_code first set = first + 1
direction_code first rx = first + 2

abbrev pub is_get : Direction → Bool
is_get get = true
is_get _ = false

-- `PdiCommand(data[1])`; the code of another device counts as refused.
unfoldable pub direction_of : ℕ → ℕ → Result Direction
direction_of first code =
    if code == first
    then ok get
    else if code == first + 1
    then ok set
    else if code == first + 2
    then ok rx
    else raise value_error

-- `x.to_bytes(1)`
unfoldable pub one_byte : ℕ → Result (List ℕ)
one_byte n = if ltb n 256 then ok (n ∷ []) else raise overflow_error

-- The same of what may be None.
abbrev pub given_byte : Option ℕ → Result (List ℕ)
unfolding one_byte
given_byte none = raise attribute_error
given_byte (some n) = one_byte n

-- `x if x is not None else 0`
abbrev pub or_zero : Option ℕ → ℕ
or_zero none = 0
or_zero (some n) = n

abbrev pub is_given : Option ℕ → Bool
is_given none = false
is_given (some n) = true

-- `min(int(round(x * 100)), top)`, where there is a number; `x` is in hundredths.
abbrev pub capped : ℕ → Option ℕ → ℕ
capped top none = 0
capped top (some n) = if leb n top then n else top

unfoldable pub two_bytes : ℕ → ℕ → Result (List ℕ)
unfolding one_byte
two_bytes a b = do xs ← one_byte a; ys ← one_byte b; ok (xs ++ ys)

-- `Validations.validate_int` and `validate_float`, with None allowed.
abbrev pub optional : (ℕ → Bool) → Option ℕ → Result (Unit {0})
optional test none = ok tt
optional test (some n) = require (test n) value_error

-- What an answer to a status, firmware or info request tells.
pub record LcsInfo : Type 0 where
  pub board_id : Option ℕ
  pub num_ids : Option ℕ
  pub model : Option ℕ
  pub uart0 : Option ℕ
  pub uart1 : Option ℕ
  pub base_type : Option ℕ
  pub dc_volts : Option ℕ
  pub ec : List (Option ℕ)
  pub version : Option ℕ
  pub revision : Option ℕ
  pub sub_revision : Option ℕ

abbrev pub no_info : LcsInfo
no_info = record {
  board_id = none;
  num_ids = none;
  model = none;
  uart0 = none;
  uart1 = none;
  base_type = none;
  dc_volts = none;
  ec = [];
  version = none;
  revision = none;
  sub_revision = none;
}

-- The actions that `LcsReq` asks for.
pub data CommonAction : Type 0 where
  firmware status info another : CommonAction

unfoldable pub common_action : ℕ → CommonAction
common_action b =
    if b == 1 then firmware else if b == 2 then status else if b == 4 then info else another

unfoldable pub lcs_info : CommonAction → List ℕ → LcsInfo
lcs_info firmware payload = record no_info {
  version = get_elem? payload 0;
  revision = get_elem? payload 1;
  sub_revision = get_elem? payload 2;
}
lcs_info status payload = record no_info {
  board_id = get_elem? payload 0;
  num_ids = get_elem? payload 1;
  model = get_elem? payload 2;
  uart0 = get_elem? payload 3;
  uart1 = get_elem? payload 4;
  base_type = get_elem? payload 5;
  dc_volts = get_elem? payload 6;
  ec =
      map (get_elem? payload)
        (7 ∷ 8 ∷ 9 ∷ 10 ∷ 11 ∷ 12 ∷ 13 ∷ 14 ∷ 15 ∷ 16 ∷ 17 ∷ 18 ∷ 19 ∷ 20 ∷ 21 ∷ 22 ∷ []);
}
lcs_info info payload = record no_info {
  board_id = get_elem? payload 0;
  num_ids = get_elem? payload 1;
  model = get_elem? payload 2;
  dc_volts = get_elem? payload 3;
}
lcs_info another payload = no_info

pub record LcsReq : Type 0 where
  pub direction : Direction
  pub tmcc_id : ℕ
  pub action_byte : ℕ
  pub error : Bool
  pub error_code : Option ℕ
  pub info : LcsInfo
  pub data_bytes : List ℕ

abbrev pub item : ℕ → List ℕ → Result ℕ
item n xs = elim (get_elem? xs n) [ none ↦ raise index_error | some b ↦ ok b ]

-- `DeviceWrapper.build` and `LcsReq.__init__` on received bytes, for the device whose codes begin with
-- `first`. `build` looks for the action in the frame itself, and takes `0x7FF` for the mask of an
-- error: an action byte with the bit of an error has no action for it.
unfoldable pub lcs_req : ℕ → List ℕ → Result LcsReq
unfolding direction_of common_action lcs_info from_frame
lcs_req first frame = do
  byte ← elim (get_elem? frame 3) [ none ↦ raise type_error | some b ↦ ok b ]
  bytes ← from_frame frame
  code ← item 1 frame
  direction ← direction_of first code
  id ← item 1 bytes
  action ← item 2 bytes
  let is_error : Bool = leb 128 byte || leb 128 action
  ok (record {
    direction = direction;
    tmcc_id = id;
    action_byte = if leb 128 action then action - 128 else action;
    error = is_error;
    error_code = if is_error then get_elem? bytes 3 else none;
    info = lcs_info (common_action byte) (drop 3 bytes);
    data_bytes = bytes;
  })
