-- ===== src/Pdi/Bpc2/RoundTrip.antt =====
-- What the receiver makes of a request to the BPC2 or of its report (pdi/bpc2_req.py).
use py_legacy.Common.{
  ℕ, ◌+◌, ◌%◌, ◌≤◌, ◌<◌, ◌≡◌, refl, Bool, true, false, ◌||◌, Option, none, some, List, [], ◌∷◌,
  arith, ◌==◌, if◌then◌else◌, ok,
}
use py_legacy.Protocol.Scope.{acc, train}
use py_legacy.Pdi.Frame.{to_frame, is_reserved}
use py_legacy.Pdi.Frame.Stuffing.{ends_in_stf}
use py_legacy.Pdi.Frame.RoundTrip.{IsSeparated}
use py_legacy.Pdi.Lcs.{
  Direction, get, set, rx, is_get, direction_code, or_zero, is_given, no_info, lcs_info,
  common_action,
}
use py_legacy.Pdi.Lcs.Received.{lcs_req-to_frame, id_plain, one_byte_lem, two_bytes_lem}
use py_legacy.Pdi.Bpc2.{
  Bpc2Req, Bpc2Action, config, identify, control1, control2, control3, control4, action_code,
  action_in, action_of, bpc2_get, sent_fields, fields, packet, receive_bpc2, read_fields, mode_byte,
  has_restore, bpc2_bytes,
}

-- The actions whose request and report have the same fields.
abbrev pub is_told : Bpc2Action → Bool
is_told config = true
is_told control1 = true
is_told control2 = true
is_told control3 = true
is_told control4 = true
is_told _ = false

abbrev pub restores : Option Bool → Bool
restores none = false
restores (some b) = b

abbrev pub sent_mode : Bpc2Req → ℕ
sent_mode r = or_zero r.mode + (if restores r.restore then 128 else 0)

abbrev pub sent_valids : Bpc2Req → ℕ
sent_valids r = if is_given r.valids then or_zero r.values else 0

-- What is sent behind the action.
abbrev pub content : Bpc2Req → Bpc2Action → List ℕ
content r config = r.tmcc_id ∷ or_zero r.debug ∷ 0 ∷ 0 ∷ sent_mode r ∷ []
content r control1 = or_zero r.state ∷ []
content r control2 = or_zero r.values ∷ sent_valids r ∷ []
content r control3 = or_zero r.state ∷ []
content r control4 = or_zero r.values ∷ sent_valids r ∷ []
content r _ = []

-- What the receiver fills in.
abbrev pub told : Bpc2Req → Bpc2Action → Bpc2Req → Bpc2Req
told r config b = record b {
  mode = some (or_zero r.mode);
  debug = some (or_zero r.debug);
  restore = some (restores r.restore);
  scope = if or_zero r.mode == 0 || or_zero r.mode == 1 then train else acc;
}
told r control1 b = record b { state = some (or_zero r.state); scope = train }
told r control2 b = record b {
  values = some (or_zero r.values);
  valids = some (sent_valids r);
  scope = train;
}
told r control3 b = record b { state = some (or_zero r.state); scope = acc }
told r control4 b = record b {
  values = some (or_zero r.values);
  valids = some (sent_valids r);
  scope = acc;
}
told r _ b = b

abbrev pub blank : Bpc2Req → List ℕ → Bpc2Req
blank r frame = record {
  direction = r.direction;
  tmcc_id = r.tmcc_id;
  action = r.action;
  error = false;
  lcs_info = no_info;
  ident = none;
  mode = none;
  debug = none;
  restore = none;
  state = none;
  values = none;
  valids = none;
  scope = acc;
  original = some frame;
}

-- A configuration has a mode; no other action uses it.
abbrev pub FitsMode : Bpc2Action → Option ℕ → Type 0
FitsMode config mode = (m : ℕ) × (mode ≡ some m) × (m < 128)
FitsMode _ mode = Unit

-- The values fit into bytes.
pub record IsSendable (r : Bpc2Req) : Type 0 where
  pub id_small : r.tmcc_id ≤ 99
  pub values_small : or_zero r.values < 256
  pub state_small : or_zero r.state < 256
  pub debug_small : or_zero r.debug < 256
  pub mode_fits : FitsMode r.action r.mode

mode_byte_lem :
    (restore : Option Bool) (m : ℕ)
    → m < 128
    → mode_byte restore (some m) ≡ ok (some (m + (if restores restore then 128 else 0)))
mode_byte_lem none m h = ground arith
mode_byte_lem (some true) m h = ground arith
mode_byte_lem (some false) m h = ground arith

sent_mode_small : (m : ℕ) (b : Bool) → m < 128 → m + (if b then 128 else 0) < 256
sent_mode_small m b h = ground arith

read_mode :
    (m : ℕ) (b : Bool)
    → m < 128
    → (has_restore (m + (if b then 128 else 0)) ≡ b)
      × ((if b then (m + (if b then 128 else 0)) % 128 else m + (if b then 128 else 0)) ≡ m)
read_mode m true h = (ground arith, ground arith)
read_mode m false h = (ground arith, ground arith)

sent_fields_lem :
    (r : Bpc2Req) (a : Bpc2Action)
    → IsSendable r
    → FitsMode a r.mode
    → is_told a ≡ true
    → sent_fields r a ≡ ok (content r a)
unfolding sent_fields
sent_fields_lem r config s f h =
    let (m, e, small) = f in
    let id_byte : r.tmcc_id < 256 = ground (arith, s.id_small) in
    rw e (
      rw (mode_byte_lem r.restore m small) (
        rw (two_bytes_lem r.tmcc_id (or_zero r.debug) id_byte s.debug_small) (
          rw
            (one_byte_lem (m + (if restores r.restore then 128 else 0))
              (sent_mode_small m (restores r.restore) small))
            refl)))
sent_fields_lem r control1 s f h = one_byte_lem _ s.state_small
sent_fields_lem r control2 s f h = two_bytes_lem _ _ s.values_small (ground (arith, s.values_small))
sent_fields_lem r control3 s f h = one_byte_lem _ s.state_small
sent_fields_lem r control4 s f h = two_bytes_lem _ _ s.values_small (ground (arith, s.values_small))
sent_fields_lem r _ s f h = absurd (cc h)

fields_lem :
    (r : Bpc2Req) (d : Direction) (a : Bpc2Action)
    → is_get d ≡ false
    → is_told a ≡ true
    → fields r d a ≡ sent_fields r a
unfolding fields
fields_lem r set identify g h = absurd (cc h)
fields_lem r set a g h = refl
fields_lem r rx a g h = refl
fields_lem r get a g h = absurd (cc g)

packet_lem :
    (r : Bpc2Req)
    → IsSendable r
    → is_get r.direction ≡ false
    → is_told r.action ≡ true
    → packet r
      ≡ ok (
          direction_code bpc2_get r.direction
          ∷ r.tmcc_id
          ∷ action_code r.action
          ∷ content r r.action)
unfolding packet
packet_lem r s g h = rw (one_byte_lem r.tmcc_id (ground (arith, s.id_small))) (
    rw (fields_lem r r.direction r.action g h)
      (rw (sent_fields_lem r r.action s s.mode_fits h) refl))

read_back :
    (store : ℕ → Option ℕ) (r : Bpc2Req) (a : Bpc2Action) (code id : ℕ)
    → FitsMode a r.mode
    → is_told a ≡ true
    → (b : Bpc2Req)
    → read_fields store a (code ∷ id ∷ action_code a ∷ content r a) b ≡ ok (told r a b)
unfolding read_fields
read_back store r config code id f h b =
    let (m, e, small) = f in
    let (flag, mode) = read_mode m (restores r.restore) small in rw e (rw flag (rw mode refl))
read_back store r control1 code id f h b = refl
read_back store r control2 code id f h b = refl
read_back store r control3 code id f h b = refl
read_back store r control4 code id f h b = refl
read_back store r _ code id f h b = absurd (cc h)

-- The code of a told action is plain, is found again, and is none of those that carry information.
told_code :
    (a : Bpc2Action) (bs : List ℕ)
    → is_told a ≡ true
    → (is_reserved (action_code a) ≡ false)
      × (action_code a < 128)
      × (action_of (action_code a) ≡ ok a)
      × (lcs_info (common_action (action_code a)) bs ≡ no_info)
unfolding is_reserved action_in lcs_info common_action
told_code config bs h = (refl, omega arith, refl, refl)
told_code control1 bs h = (refl, omega arith, refl, refl)
told_code control2 bs h = (refl, omega arith, refl, refl)
told_code control3 bs h = (refl, omega arith, refl, refl)
told_code control4 bs h = (refl, omega arith, refl, refl)
told_code _ bs h = absurd (cc h)

code_plain : (d : Direction) → is_reserved (direction_code bpc2_get d) ≡ false
unfolding is_reserved
code_plain get = refl
code_plain set = refl
code_plain rx = refl

-- A new request or report, for an address up to 99, with a configuration that has a mode below 128 or with
-- one of the actions CONTROL1 to CONTROL4, is sent as a frame, if all its values fit into bytes, and
-- the receiver reads from it the direction, the address, the action and the values of the action, with
-- what was not given as 0 or False; but it reads the values in place of the valids of CONTROL2 and
-- CONTROL4. No stuff byte of the data may stand at its end or before a reserved byte. What the state store
-- knows makes no difference.
pub receive_bpc2-bpc2_bytes :
    (store : ℕ → Option ℕ) (r : Bpc2Req)
    → r.original ≡ none
    → is_get r.direction ≡ false
    → is_told r.action ≡ true
    → IsSendable r
    → IsSeparated false (content r r.action)
    → ends_in_stf false (content r r.action) ≡ false
    → (frame : List ℕ) × (bpc2_bytes r ≡ ok frame)
      × (receive_bpc2 store frame ≡ ok (told r r.action (blank r frame)))
unfolding bpc2_bytes receive_bpc2
receive_bpc2-bpc2_bytes store r o g h s sep e =
    let (plain, small, found, nothing_known) = told_code r.action (content r r.action) h in
    let code = direction_code bpc2_get r.direction in
    let frame = to_frame (code ∷ r.tmcc_id ∷ action_code r.action ∷ content r r.action) in
    let seen =
      lcs_req-to_frame bpc2_get r.direction r.tmcc_id (action_code r.action) (content r r.action)
        (code_plain r.direction) (id_plain r.tmcc_id s.id_small) plain small sep e in
    (
      frame,
      rw o (rw (packet_lem r s g h) refl),
      rw seen (
          rw found (
            rw nothing_known
              (read_back store r r.action code r.tmcc_id s.mode_fits h (blank r frame)))),
    )
