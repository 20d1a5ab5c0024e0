-- ===== src/Pdi/Bpc2.antt =====
-- `Bpc2Req` (pdi/bpc2_req.py): requests to the BPC2, which switches the power of blocks and tracks.
pub mod RoundTrip
mod Runs
use py_legacy.Common.{
  ℕ, ◌+◌, ◌/◌, ◌%◌, Bool, true, false, Option, none, some, List, [], ◌∷◌, ◌++◌, ◌||◌, ◌==◌, leb,
  if◌then◌else◌, get_elem?, Result, ok, raise, ◌>>=◌, ◌>>◌, value_error, type_error,
}
use py_legacy.Protocol.Scope.{CommandScope, acc, train}
use py_legacy.Pdi.Frame.{to_frame}
use py_legacy.Pdi.Lcs.{
  Direction, get, set, rx, direction_code, one_byte, given_byte, two_bytes, or_zero, is_given,
  optional, LcsInfo, LcsReq, lcs_req,
}

pub data Bpc2Action : Type 0 where
  firmware status config info clear_errors reset identify control1 control2 control3 control4 :
      Bpc2Action

abbrev pub action_code : Bpc2Action → ℕ
action_code firmware = 0x01
action_code status = 0x02
action_code config = 0x03
action_code info = 0x04
action_code clear_errors = 0x05
action_code reset = 0x06
action_code identify = 0x07
action_code control1 = 0x10
action_code control2 = 0x11
action_code control3 = 0x12
action_code control4 = 0x13

abbrev pub actions : List Bpc2Action
actions =
    firmware ∷ status ∷ config ∷ info ∷ clear_errors ∷ reset ∷ identify ∷ control1 ∷ control2
    ∷ control3 ∷ control4 ∷ []

unfoldable pub action_in : ℕ → List Bpc2Action → Result Bpc2Action
action_in code [] = raise value_error
action_in code (a ∷ rest) =
    let later = action_in code rest in if action_code a == code then ok a else later

-- `Bpc2Action(code)`
abbrev pub action_of : ℕ → Result Bpc2Action
action_of code = action_in code actions

pub record Bpc2Req : Type 0 where
  pub direction : Direction
  pub tmcc_id : ℕ
  pub action : Bpc2Action
  pub error : Bool
  pub lcs_info : LcsInfo
  pub ident : Option ℕ
  pub mode : Option ℕ
  pub debug : Option ℕ
  pub restore : Option Bool
  pub state : Option ℕ
  pub values : Option ℕ
  pub valids : Option ℕ
  pub scope : CommandScope
  pub original : Option (List ℕ)

abbrev pub mode_scope : Option ℕ → CommandScope
mode_scope none = acc
mode_scope (some m) = if m == 0 || m == 1 then train else acc

abbrev pub default_scope : Bpc2Action → Option ℕ → CommandScope
default_scope control1 m = train
default_scope control2 m = train
default_scope control3 m = acc
default_scope control4 m = acc
default_scope _ m = mode_scope m

-- `Bpc2Req.__init__` for a request to be sent, with the scope that is asked for.
unfoldable pub build_bpc2 : Option CommandScope → Bpc2Req → Result Bpc2Req
build_bpc2 scope r = do
  optional (λ n. leb n 3) r.mode
  optional (λ n. leb n 1) r.state
  ok (record r {
    scope = elim scope [ none ↦ default_scope r.action r.mode | some s ↦ s ];
    original = none;
  })

-- `mode & 0x80 == 0x80` and `mode | 0x80`
abbrev pub has_restore : ℕ → Bool
has_restore m = m / 128 % 2 == 1

abbrev pub with_restore : ℕ → ℕ
with_restore m = if has_restore m then m else m + 128

-- The fields that the received bytes give for an action; all others are None. The mode of a short
-- configuration is None, and `None & 0x80` raises. A request of another kind asks the state store for
-- the mode of the BPC2 at its address.
unfoldable pub read_fields : (ℕ → Option ℕ) → Bpc2Action → List ℕ → Bpc2Req → Result Bpc2Req
read_fields store config bs r = elim (get_elem? bs 7) [
  | none ↦ raise type_error
  | some m ↦
      let mode = if has_restore m then m % 128 else m in
      ok (record r {
        debug = get_elem? bs 4;
        mode = some mode;
        restore = some (has_restore m);
        scope = mode_scope (some mode);
      })
]
read_fields store control1 bs r = ok (record r { state = get_elem? bs 3; scope = train })
read_fields store control3 bs r = ok (record r { state = get_elem? bs 3; scope = acc })
read_fields store control2 bs r =
    ok (record r { values = get_elem? bs 3; valids = get_elem? bs 4; scope = train })
read_fields store control4 bs r =
    ok (record r { values = get_elem? bs 3; valids = get_elem? bs 4; scope = acc })
read_fields store _ bs r = ok (record r { scope = mode_scope (store r.tmcc_id) })

-- `PdiCommand.BPC2_GET`
abbrev pub bpc2_get : ℕ
bpc2_get = 0x40

-- `Bpc2Req.__init__` on received bytes.
unfoldable pub receive_bpc2 : (ℕ → Option ℕ) → List ℕ → Result Bpc2Req
unfolding lcs_req read_fields
receive_bpc2 store frame = do
  l ← lcs_req bpc2_get frame
  action ← action_of l.action_byte
  read_fields store action l.data_bytes (record {
    direction = l.direction;
    tmcc_id = l.tmcc_id;
    action = action;
    error = l.error;
    lcs_info = l.info;
    ident = none;
    mode = none;
    debug = none;
    restore = none;
    state = none;
    values = none;
    valids = none;
    scope = acc;
    original = some frame;
  })

-- `self.mode | 0x80 if self.restore else self.mode`
abbrev pub mode_byte : Option Bool → Option ℕ → Result (Option ℕ)
mode_byte (some true) none = raise type_error
mode_byte (some true) (some m) = ok (some (with_restore m))
mode_byte (some false) m = ok m
mode_byte none m = ok m

-- What `as_bytes` puts behind the action of a request that is not a `*_GET`.
unfoldable pub sent_fields : Bpc2Req → Bpc2Action → Result (List ℕ)
unfolding one_byte two_bytes
sent_fields r config = do
  mode ← mode_byte r.restore r.mode
  head ← two_bytes r.tmcc_id (or_zero r.debug)
  last ← given_byte mode
  ok (head ++ (0 ∷ 0 ∷ last))
sent_fields r control1 = one_byte (or_zero r.state)
sent_fields r control3 = one_byte (or_zero r.state)
sent_fields r control2 =
    two_bytes (or_zero r.values) (if is_given r.valids then or_zero r.values else 0)
sent_fields r control4 =
    two_bytes (or_zero r.values) (if is_given r.valids then or_zero r.values else 0)
sent_fields r _ = ok []

unfoldable pub fields : Bpc2Req → Direction → Bpc2Action → Result (List ℕ)
unfolding sent_fields one_byte
fields r get a = ok []
fields r set identify = one_byte (or_zero r.ident)
fields r set a = sent_fields r a
fields r rx a = sent_fields r a

-- The bytes before they are stuffed and framed.
unfoldable pub packet : Bpc2Req → Result (List ℕ)
unfolding fields one_byte
packet r = do
  id ← one_byte r.tmcc_id
  content ← fields r r.direction r.action
  ok (direction_code bpc2_get r.direction ∷ (id ++ (action_code r.action ∷ content)))

unfoldable pub bpc2_bytes : Bpc2Req → Result (List ℕ)
unfolding packet
bpc2_bytes r = elim r.original [ some frame ↦ ok frame | none ↦ do bs ← packet r; ok (to_frame bs) ]

abbrev pub num_addressable_ports : Bpc2Req → Result ℕ
num_addressable_ports r = elim r.mode [
  | none ↦ raise value_error
  | some m ↦
      if m == 0
      then ok 8
      else if m == 1
      then ok 1
      else if m == 2
      then ok 8
      else if m == 3
      then ok 1
      else raise value_error
]
