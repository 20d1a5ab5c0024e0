-- ===== src/Pdi/Bpc2/Runs.antt =====
-- Concrete runs of the requests to the BPC2: a test, and the theorem at one input.
use py_legacy.Common.{ℕ, ◌≡◌, refl, false, none, some, List, [], ◌∷◌, ok, raise, type_error, arith}
use py_legacy.Protocol.Scope.{train}
use py_legacy.Pdi.Frame.{
  to_frame, from_frame, split_last_two, is_reserved, calculate_checksum, finish_checksum,
  negate_byte, scan_byte,
}
use py_legacy.Pdi.Frame.Stuffing.{ends_in_stf}
use py_legacy.Pdi.Lcs.{set, no_info, lcs_req, direction_of, common_action, lcs_info}
use py_legacy.Pdi.Bpc2.{Bpc2Req, control1, bpc2_bytes, receive_bpc2, read_fields, action_in}
use py_legacy.Pdi.Bpc2.RoundTrip.{told, blank, receive_bpc2-bpc2_bytes}

-- The power of track 33 on
abbrev powered : Bpc2Req
powered = record {
  direction = set;
  tmcc_id = 33;
  action = control1;
  error = false;
  lcs_info = no_info;
  ident = none;
  mode = none;
  debug = none;
  restore = none;
  state = some 1;
  values = none;
  valids = none;
  scope = train;
  original = none;
}

receive_bpc2-bpc2_bytes_example :
    (frame : List ℕ) × (bpc2_bytes powered ≡ ok frame)
    × (receive_bpc2 (λ id. none) frame ≡ ok (told powered control1 (blank powered frame)))
unfolding is_reserved ends_in_stf
receive_bpc2-bpc2_bytes_example =
    receive_bpc2-bpc2_bytes (λ id. none) powered refl refl refl
      (record {
        id_small = omega arith;
        values_small = omega arith;
        state_small = omega arith;
        debug_small = omega arith;
        mode_fits = tt;
      })
      (refl, tt) refl

-- A configuration of the BPC2 that ends early.
short_config : receive_bpc2 (λ id. none) (to_frame (0x42 ∷ 0x21 ∷ 0x03 ∷ [])) ≡ raise type_error
unfolding receive_bpc2 lcs_req direction_of read_fields to_frame from_frame split_last_two
    calculate_checksum finish_checksum is_reserved negate_byte scan_byte action_in common_action
    lcs_info
short_config = refl
