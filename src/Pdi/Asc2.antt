-- ===== src/Pdi/Asc2.antt =====
-- `Asc2Req` (pdi/asc2_req.py): requests to the ASC2, which throws switches and drives accessories. A time
-- or a delay is in hundredths of a second.
pub mod RoundTrip
pub mod Thru
pub mod Wire
mod Runs
use py_legacy.Common.{
  ℕ, zero, suc, ◌+◌, ◌-◌, ◌%◌, Bool, true, false, not, Option, none, some, List, [], ◌∷◌, ◌++◌,
  ◌&&◌, ◌||◌, ◌==◌, ltb, leb, if◌then◌else◌, get_elem?, Result, ok, raise, ◌>>=◌, ◌>>◌, require,
  value_error,
}
use py_legacy.Protocol.Scope.{CommandScope, acc, switch}
use py_legacy.Pdi.Frame.{to_frame}
use py_legacy.Pdi.Lcs.{
  Direction, get, set, rx, direction_code, one_byte, given_byte, or_zero, is_given, capped,
  optional, two_bytes, LcsInfo, no_info, LcsReq, lcs_req,
}

pub data Asc2Action : Type 0 where
  firmware status config info clear_errors reset identify control1 control2 control3 control4
        control5 :
      Asc2Action

abbrev pub action_code : Asc2Action → ℕ
action_code firmware = 0x01
action_code status = 0x02
action_code config = 0x03
action_code info = 0x04
action_code clear_errors = 0x05
action_code reset = 0x06
action_code identify = 0x07
action_code control1 = 0x10
action_code control2 = 0x11
action_code control3 = 0x12
action_code control4 = 0x14
action_code control5 = 0x15

abbrev pub actions : List Asc2Action
actions =
    firmware ∷ status ∷ config ∷ info ∷ clear_errors ∷ reset ∷ identify ∷ control1 ∷ control2
    ∷ control3 ∷ control4 ∷ control5 ∷ []

unfoldable pub action_in : ℕ → List Asc2Action → Result Asc2Action
action_in code [] = raise value_error
action_in code (a ∷ rest) =
    let later = action_in code rest in if action_code a == code then ok a else later

-- `Asc2Action(code)`
abbrev pub action_of : ℕ → Result Asc2Action
action_of code = action_in code actions

-- `thru` holds a number or a bool, True is 1 and False is 0.
pub record Asc2Req : Type 0 where
  pub direction : Direction
  pub tmcc_id : ℕ
  pub action : Asc2Action
  pub error : Bool
  pub lcs_info : LcsInfo
  pub ident : Option ℕ
  pub mode : Option ℕ
  pub debug : Option ℕ
  pub delay : Option ℕ
  pub values : Option ℕ
  pub valids : Option ℕ
  pub time : Option ℕ
  pub sub_id : Option ℕ
  pub thru : Option ℕ
  pub scope : CommandScope
  pub original : Option (List ℕ)

-- `Asc2Req.__init__` for a request to be sent; the scope is that of the argument or `ACC`.
unfoldable pub build_asc2 : Asc2Req → Result Asc2Req
build_asc2 r = do
  optional (λ n. leb n 2) r.mode
  optional (λ n. leb n 100) r.delay
  optional (λ n. leb n 255) r.time
  optional (λ n. leb 1 n && leb n 8) r.sub_id
  ok (record r { thru = r.values; original = none })

-- `self._values == 0 if self._values is not None else None`
abbrev pub is_zero : Option ℕ → Option ℕ
is_zero none = none
is_zero (some n) = if n == 0 then some 1 else some 0

-- `CommandScope.SWITCH if self._mode == 2 else CommandScope.ACC`
abbrev pub config_scope : Option ℕ → CommandScope
config_scope none = acc
config_scope (some m) = if m == 2 then switch else acc

-- The fields that the received bytes give for an action; all others are None.
unfoldable pub read_fields : Asc2Action → List ℕ → Asc2Req → Asc2Req
read_fields config bs r = record r {
  debug = get_elem? bs 4;
  mode = get_elem? bs 7;
  delay = get_elem? bs 8;
  scope = config_scope (get_elem? bs 7);
}
read_fields control1 bs r = record r { values = get_elem? bs 3; time = get_elem? bs 4 }
read_fields control2 bs r = record r { values = get_elem? bs 3; valids = get_elem? bs 4 }
read_fields control3 bs r = record r { values = get_elem? bs 3; valids = get_elem? bs 4 }
read_fields control4 bs r = record r {
  values = get_elem? bs 3;
  time = get_elem? bs 4;
  thru = is_zero (get_elem? bs 3);
  scope = switch;
}
read_fields control5 bs r = record r {
  values = get_elem? bs 3;
  thru = is_zero (get_elem? bs 3);
  scope = switch;
}
read_fields _ bs r = r

-- `PdiCommand.ASC2_GET`
abbrev pub asc2_get : ℕ
asc2_get = 0x3C

-- `Asc2Req.__init__` on received bytes.
unfoldable pub receive_asc2 : List ℕ → Result Asc2Req
unfolding lcs_req read_fields
receive_asc2 frame = do
  l ← lcs_req asc2_get frame
  action ← action_of l.action_byte
  ok (
      read_fields action l.data_bytes (record {
        direction = l.direction;
        tmcc_id = l.tmcc_id;
        action = action;
        error = l.error;
        lcs_info = l.info;
        ident = none;
        mode = none;
        debug = none;
        delay = none;
        values = none;
        valids = none;
        time = none;
        sub_id = none;
        thru = none;
        scope = acc;
        original = some frame;
      }))

-- `if time == 1: time = 0`
abbrev pub pulse : Option ℕ → ℕ
pulse t = if capped 255 t == 1 then 0 else capped 255 t

-- What `as_bytes` puts behind the action of a request that is not a `*_GET`.
unfoldable pub sent_fields : Asc2Req → Asc2Action → Result (List ℕ)
unfolding one_byte two_bytes
sent_fields r config = do
  head ← two_bytes r.tmcc_id (or_zero r.debug)
  mode ← given_byte r.mode
  delay ← one_byte (capped 100 r.delay)
  ok (head ++ (0 ∷ 0 ∷ (mode ++ delay)))
sent_fields r control1 = two_bytes (or_zero r.values) (capped 255 r.time)
sent_fields r control2 =
    two_bytes (or_zero r.values) (if is_given r.valids then or_zero r.values else 0)
sent_fields r control4 = two_bytes (or_zero r.values) (pulse r.time)
sent_fields r control5 = one_byte (or_zero r.values)
sent_fields r _ = ok []

-- CONTROL3, which differs between a request and a report, and IDENTIFY. A value that is None though
-- there are `valids` has no `to_bytes`.
unfoldable pub fields : Asc2Req → Direction → Asc2Action → Result (List ℕ)
unfolding sent_fields one_byte
fields r get a = ok []
fields r set control3 = do
  port ← given_byte (if is_given r.values then r.sub_id else some 1)
  time ← one_byte (pulse r.time)
  ok (port ++ time)
fields r set identify = one_byte (or_zero r.ident)
fields r set a = sent_fields r a
fields r rx control3 = do
  values ← given_byte (if is_given r.valids then r.values else some 0)
  valids ← one_byte (or_zero r.valids)
  ok (values ++ valids)
fields r rx a = sent_fields r a

-- The bytes before they are stuffed and framed.
unfoldable pub packet : Asc2Req → Result (List ℕ)
unfolding fields one_byte
packet r = do
  id ← one_byte r.tmcc_id
  content ← fields r r.direction r.action
  ok (direction_code asc2_get r.direction ∷ (id ++ (action_code r.action ∷ content)))

unfoldable pub asc2_bytes : Asc2Req → Result (List ℕ)
unfolding packet
asc2_bytes r = elim r.original [ some frame ↦ ok frame | none ↦ do bs ← packet r; ok (to_frame bs) ]

-- `is_thru` and `is_out`
abbrev pub is_thru : Asc2Req → Option Bool
is_thru r = elim r.thru [ none ↦ none | some n ↦ some (n == 0) ]

abbrev pub is_out : Asc2Req → Option Bool
is_out r = elim (is_thru r) [ none ↦ none | some b ↦ some (not b) ]

abbrev pub num_addressable_ports : Asc2Req → Result ℕ
num_addressable_ports r = elim r.mode [
  | none ↦ raise value_error
  | some m ↦
      if m == 0 then ok 8 else if m == 1 then ok 1 else if m == 2 then ok 4 else raise value_error
]
