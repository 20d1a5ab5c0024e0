-- ===== src/Pdi/Asc2/Runs.antt =====
-- Concrete runs of the requests to the LCS devices: tests, and the theorems at one input.
use py_legacy.Common.{ℕ, ◌≡◌, refl, false, not, none, some, List, [], ◌∷◌, ◌==◌, map, ok, arith}
use py_legacy.Protocol.Scope.{switch}
use py_legacy.Pdi.Frame.{
  to_frame, is_reserved, calculate_checksum, finish_checksum, negate_byte, scan_byte,
}
use py_legacy.Pdi.Frame.Stuffing.{ends_in_stf}
use py_legacy.Pdi.Lcs.{set, no_info, item}
use py_legacy.Pdi.Listener.{feed}
use py_legacy.Pdi.Listener.Frames.{listening}
use py_legacy.Pdi.Asc2.{Asc2Req, control4, asc2_bytes, receive_asc2, build_asc2, is_thru}
use py_legacy.Pdi.Asc2.RoundTrip.{told, blank, IsCarried, receive_asc2-asc2_bytes}
use py_legacy.Pdi.Asc2.Thru.{is_thru-asc2_bytes}
use py_legacy.Pdi.Asc2.Wire.{Traffic, seen, feed-asc2}

-- Switch 17 to THRU.
abbrev to_thru : Asc2Req
to_thru = record {
  direction = set;
  tmcc_id = 17;
  action = control4;
  error = false;
  lcs_info = no_info;
  ident = none;
  mode = none;
  debug = none;
  delay = none;
  values = some 0;
  valids = none;
  time = some 20;
  sub_id = none;
  thru = some 0;
  scope = switch;
  original = none;
}

to_thru-IsCarried : IsCarried to_thru
unfolding is_reserved ends_in_stf
to_thru-IsCarried = record {
  is_new = refl;
  is_not_get = refl;
  has_fields = refl;
  sendable = record {
    id_small = omega arith;
    values_small = omega arith;
    debug_small = omega arith;
    mode_fits = tt;
  };
  separated = (refl, (refl, tt));
  plain_end = refl;
}

receive_asc2-asc2_bytes_example :
    (frame : List ℕ) × (asc2_bytes to_thru ≡ ok frame)
    × (receive_asc2 frame ≡ ok (told to_thru control4 (blank to_thru frame)))
receive_asc2-asc2_bytes_example = receive_asc2-asc2_bytes to_thru to_thru-IsCarried

is_thru-asc2_bytes_example :
    (frame : List ℕ) × (r' : Asc2Req) × (asc2_bytes to_thru ≡ ok frame)
    × (receive_asc2 frame ≡ ok r')
    × (is_thru to_thru ≡ some (0 == 0))
    × (is_thru r' ≡ some (not (0 == 0)))
unfolding build_asc2
is_thru-asc2_bytes_example = is_thru-asc2_bytes to_thru to_thru 0 refl refl refl to_thru-IsCarried

abbrev traffic : Traffic
traffic = (0x00 ∷ [], to_thru) ∷ ([], to_thru) ∷ []

-- The first frame is cut in two.
abbrev chunks : List (List ℕ)
chunks =
    (0x00 ∷ 0xD1 ∷ 0x3D ∷ 0x11 ∷ [])
    ∷ (0x14 ∷ 0x00 ∷ 0x14 ∷ 0x8A ∷ 0xDF ∷ 0xD1 ∷ 0x3D ∷ 0x11 ∷ 0x14 ∷ 0x00 ∷ 0x14 ∷ 0x8A ∷ 0xDF
        ∷ [])
    ∷ []

feed-asc2_example :
    (ps : List (List ℕ)) × (feed listening chunks ≡ some (ps, listening))
    × (map (λ p. asc2_bytes p.1) traffic ≡ map ok ps)
    × (map receive_asc2 ps ≡ map seen traffic)
unfolding to_frame calculate_checksum finish_checksum is_reserved negate_byte scan_byte
feed-asc2_example =
    feed-asc2 traffic chunks ((refl, tt), (tt, tt)) (to_thru-IsCarried, (to_thru-IsCarried, tt))
      refl

-- The code of BLOCK_SET is that of SOP: the frame has a stuff byte where its reader looks for the code.
block_set_stuffed : item 1 (to_frame (0xD1 ∷ 0x05 ∷ [])) ≡ ok 0xDE
unfolding to_frame calculate_checksum finish_checksum is_reserved negate_byte scan_byte
block_set_stuffed = refl
