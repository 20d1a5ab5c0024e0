-- ===== src/Pdi/Asc2/RoundTrip.antt =====
-- What the receiver makes of a request to the ASC2 or of its report (pdi/asc2_req.py).
use py_legacy.Common.{
  ℕ, ◌≤◌, ◌<◌, ◌≡◌, refl, ap, Bool, true, false, Option, none, some, List, [], ◌∷◌, arith, ◌==◌,
  if◌then◌else◌, ok,
}
use py_legacy.Protocol.Scope.{acc, switch}
use py_legacy.Pdi.Frame.{to_frame, is_reserved}
use py_legacy.Pdi.Frame.Stuffing.{ends_in_stf}
use py_legacy.Pdi.Frame.RoundTrip.{IsSeparated}
use py_legacy.Pdi.Lcs.{
  Direction, get, set, rx, is_get, direction_code, or_zero, is_given, capped, no_info, lcs_info,
  common_action,
}
use py_legacy.Pdi.Lcs.Received.{
  lcs_req-to_frame, id_plain, one_byte_lem, two_bytes_lem, capped_small,
}
use py_legacy.Pdi.Asc2.{
  Asc2Req, Asc2Action, firmware, status, config, info, clear_errors, reset, identify, control1,
  control2, control3, control4, control5, action_code, action_in, action_of, asc2_get, sent_fields,
  fields, packet, receive_asc2, read_fields, pulse, asc2_bytes,
}

-- The actions whose request and report have the same fields.
abbrev pub is_told : Asc2Action → Bool
is_told config = true
is_told control1 = true
is_told control2 = true
is_told control4 = true
is_told control5 = true
is_told _ = false

-- What is sent behind the action.
abbrev pub content : Asc2Req → Asc2Action → List ℕ
content r config = r.tmcc_id ∷ or_zero r.debug ∷ 0 ∷ 0 ∷ or_zero r.mode ∷ capped 100 r.delay ∷ []
content r control1 = or_zero r.values ∷ capped 255 r.time ∷ []
content r control2 = or_zero r.values ∷ (if is_given r.valids then or_zero r.values else 0) ∷ []
content r control4 = or_zero r.values ∷ pulse r.time ∷ []
content r control5 = or_zero r.values ∷ []
content r _ = []

-- What the receiver fills in.
abbrev pub told : Asc2Req → Asc2Action → Asc2Req → Asc2Req
told r config b = record b {
  mode = some (or_zero r.mode);
  debug = some (or_zero r.debug);
  delay = some (capped 100 r.delay);
  scope = if or_zero r.mode == 2 then switch else acc;
}
told r control1 b = record b { values = some (or_zero r.values); time = some (capped 255 r.time) }
told r control2 b = record b {
  values = some (or_zero r.values);
  valids = some (if is_given r.valids then or_zero r.values else 0);
}
told r control4 b = record b {
  values = some (or_zero r.values);
  time = some (pulse r.time);
  thru = if or_zero r.values == 0 then some 1 else some 0;
  scope = switch;
}
told r control5 b = record b {
  values = some (or_zero r.values);
  thru = if or_zero r.values == 0 then some 1 else some 0;
  scope = switch;
}
told r _ b = b

abbrev pub blank : Asc2Req → List ℕ → Asc2Req
blank r frame = record {
  direction = r.direction;
  tmcc_id = r.tmcc_id;
  action = r.action;
  error = false;
  lcs_info = no_info;
  ident = none;
  mode = none;
  debug = none;
  delay = none;
  values = none;
  valids = none;
  time = none;
  sub_id = none;
  thru = none;
  scope = acc;
  original = some frame;
}

-- A configuration has a mode; no other action uses it.
abbrev pub FitsMode : Asc2Action → Option ℕ → Type 0
FitsMode config mode = (m : ℕ) × (mode ≡ some m) × (m < 256)
FitsMode _ mode = Unit

-- The values fit into bytes.
pub record IsSendable (r : Asc2Req) : Type 0 where
  pub id_small : r.tmcc_id ≤ 99
  pub values_small : or_zero r.values < 256
  pub debug_small : or_zero r.debug < 256
  pub mode_fits : FitsMode r.action r.mode

pulse_small : (t : Option ℕ) → pulse t < 256
pulse_small t = ground (arith, capped_small 255 t (omega arith))

sent_fields_lem :
    (r : Asc2Req) (a : Asc2Action)
    → IsSendable r
    → FitsMode a r.mode
    → is_told a ≡ true
    → sent_fields r a ≡ ok (content r a)
unfolding sent_fields
sent_fields_lem r config s f h =
    let (m, e, small) = f in
    let id_byte : r.tmcc_id < 256 = ground (arith, s.id_small) in
    rw (two_bytes_lem r.tmcc_id (or_zero r.debug) id_byte s.debug_small) (
      rw e (
        rw (one_byte_lem m small)
          (rw (one_byte_lem (capped 100 r.delay) (capped_small 100 r.delay (omega arith))) refl)))
sent_fields_lem r control1 s f h =
    two_bytes_lem _ _ s.values_small (capped_small 255 r.time (omega arith))
sent_fields_lem r control2 s f h = two_bytes_lem _ _ s.values_small (ground (arith, s.values_small))
sent_fields_lem r control4 s f h = two_bytes_lem _ _ s.values_small (pulse_small r.time)
sent_fields_lem r control5 s f h = one_byte_lem _ s.values_small
sent_fields_lem r _ s f h = absurd (cc h)

fields_lem :
    (r : Asc2Req) (d : Direction) (a : Asc2Action)
    → is_get d ≡ false
    → is_told a ≡ true
    → fields r d a ≡ sent_fields r a
unfolding fields
fields_lem r set config g h = refl
fields_lem r set control1 g h = refl
fields_lem r set control2 g h = refl
fields_lem r set control4 g h = refl
fields_lem r set control5 g h = refl
fields_lem r rx config g h = refl
fields_lem r rx control1 g h = refl
fields_lem r rx control2 g h = refl
fields_lem r rx control4 g h = refl
fields_lem r rx control5 g h = refl
fields_lem r get a g h = absurd (cc g)
fields_lem r _ _ g h = absurd (cc h)

packet_lem :
    (r : Asc2Req)
    → IsSendable r
    → is_get r.direction ≡ false
    → is_told r.action ≡ true
    → packet r
      ≡ ok (
          direction_code asc2_get r.direction
          ∷ r.tmcc_id
          ∷ action_code r.action
          ∷ content r r.action)
unfolding packet
packet_lem r s g h = rw (one_byte_lem r.tmcc_id (ground (arith, s.id_small))) (
    rw (fields_lem r r.direction r.action g h)
      (rw (sent_fields_lem r r.action s s.mode_fits h) refl))

read_back :
    (r : Asc2Req) (a : Asc2Action) (code id : ℕ)
    → is_told a ≡ true
    → (b : Asc2Req) → read_fields a (code ∷ id ∷ action_code a ∷ content r a) b ≡ told r a b
unfolding read_fields
read_back r config code id h b = refl
read_back r control1 code id h b = refl
read_back r control2 code id h b = refl
read_back r control4 code id h b = refl
read_back r control5 code id h b = refl
read_back r _ code id h b = absurd (cc h)

-- The code of an action is plain, and is found again.
action_of-code :
    (a : Asc2Action)
    → (is_reserved (action_code a) ≡ false)
      × (action_code a < 128)
      × (action_of (action_code a) ≡ ok a)
unfolding is_reserved action_in
action_of-code firmware = (refl, omega arith, refl)
action_of-code status = (refl, omega arith, refl)
action_of-code config = (refl, omega arith, refl)
action_of-code info = (refl, omega arith, refl)
action_of-code clear_errors = (refl, omega arith, refl)
action_of-code reset = (refl, omega arith, refl)
action_of-code identify = (refl, omega arith, refl)
action_of-code control1 = (refl, omega arith, refl)
action_of-code control2 = (refl, omega arith, refl)
action_of-code control3 = (refl, omega arith, refl)
action_of-code control4 = (refl, omega arith, refl)
action_of-code control5 = (refl, omega arith, refl)

-- A told action is none of those that carry information.
no_info_lem :
    (a : Asc2Action) (bs : List ℕ)
    → is_told a ≡ true
    → lcs_info (common_action (action_code a)) bs ≡ no_info
unfolding lcs_info common_action
no_info_lem config bs h = refl
no_info_lem control1 bs h = refl
no_info_lem control2 bs h = refl
no_info_lem control4 bs h = refl
no_info_lem control5 bs h = refl
no_info_lem _ bs h = absurd (cc h)

code_plain : (d : Direction) → is_reserved (direction_code asc2_get d) ≡ false
unfolding is_reserved
code_plain get = refl
code_plain set = refl
code_plain rx = refl

abbrev pub frame_of : Asc2Req → List ℕ
frame_of r =
    to_frame
      (direction_code asc2_get r.direction ∷ r.tmcc_id ∷ action_code r.action ∷ content r r.action)

-- A new request or report that has fields and fits into a frame; no stuff byte of the data stands at its
-- end or before a reserved byte.
pub record IsCarried (r : Asc2Req) : Type 0 where
  pub is_new : r.original ≡ none
  pub is_not_get : is_get r.direction ≡ false
  pub has_fields : is_told r.action ≡ true
  pub sendable : IsSendable r
  pub separated : IsSeparated false (content r r.action)
  pub plain_end : ends_in_stf false (content r r.action) ≡ false

pub carried_lem :
    (r : Asc2Req)
    → IsCarried r
    → (asc2_bytes r ≡ ok (frame_of r))
      × (receive_asc2 (frame_of r) ≡ ok (told r r.action (blank r (frame_of r))))
unfolding asc2_bytes receive_asc2
carried_lem r c =
    let (plain, small, found) = action_of-code r.action in
    let h = c.has_fields in
    let code = direction_code asc2_get r.direction in
    let bs = content r r.action in
    let seen =
      lcs_req-to_frame asc2_get r.direction r.tmcc_id (action_code r.action) bs
        (code_plain r.direction) (id_plain r.tmcc_id c.sendable.id_small) plain small c.separated
        c.plain_end in
    (
      rw c.is_new (rw (packet_lem r c.sendable c.is_not_get h) refl),
      rw seen (
          rw found (
            rw (no_info_lem r.action bs h)
              (ap ok (read_back r r.action code r.tmcc_id h (blank r (frame_of r)))))),
    )

-- A new request or report, for an address up to 99, with a configuration that has a mode or with one of the
-- actions CONTROL1, CONTROL2, CONTROL4 and CONTROL5, is sent as a frame, if all its values fit into bytes,
-- and the receiver reads from it the direction, the address, the action and the values of the
-- action, with what was not given as 0. It does not read the same where the sender changes it: a
-- time above 2.55 s is read as 2.55, a delay above 1 s as 1, the time 0.01 of CONTROL4 as 0; the values
-- are read in place of the valids of CONTROL2, and a switch with the value 0 has the position 1.
-- No stuff byte of the data may stand at its end or before a reserved byte.
pub receive_asc2-asc2_bytes :
    (r : Asc2Req)
    → IsCarried r
    → (frame : List ℕ) × (asc2_bytes r ≡ ok frame)
      × (receive_asc2 frame ≡ ok (told r r.action (blank r frame)))
receive_asc2-asc2_bytes r c = let (out, back) = carried_lem r c in (frame_of r, out, back)
