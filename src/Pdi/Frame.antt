-- ===== src/Pdi/Frame.antt =====
-- PDI packets: byte stuffing, the checksum, and the frame between SOP and EOP (pdi/pdi_req.py).
pub mod Stuffing
pub mod RoundTrip
use py_legacy.Common.{
  ℕ, suc, ◌+◌, ◌-◌, ◌%◌, Bool, true, false, not, ◌&&◌, ◌||◌, Option, none, some, List, [], ◌∷◌,
  ◌++◌, ◌==◌, if◌then◌else◌, Result, ok, raise, value_error, index_error, ◌>>=◌, ◌>>◌, require,
}
use mathlib.Core.List.{foldl}

abbrev pub pdi_sop : ℕ
pdi_sop = 0xD1

abbrev pub pdi_stf : ℕ
pdi_stf = 0xDE

abbrev pub pdi_eop : ℕ
pdi_eop = 0xDF

-- `b in {PDI_SOP, PDI_STF, PDI_EOP}`
unfoldable pub is_reserved : ℕ → Bool
is_reserved b = b == pdi_sop || b == pdi_stf || b == pdi_eop

-- The variables of the loop in `_calculate_checksum`. `last_is_stf` is `last_byte == PDI_STF`.
pub record Scan : Type 0 where
  pub byte_stream : List ℕ
  pub check_sum : ℕ
  pub last_is_stf : Bool

abbrev pub scan_start : Scan
scan_start = record { byte_stream = []; check_sum = 0; last_is_stf = false }

-- One round of the loop.
unfoldable pub scan_byte : Bool → Scan → ℕ → Scan
scan_byte add_stf s b =
    let sum = s.check_sum + b in
    let last = b == pdi_stf in
    let emitted : Scan = record {
      byte_stream = s.byte_stream ++ b ∷ [];
      check_sum = sum;
      last_is_stf = last;
    } in
    if is_reserved b
    then (if add_stf
        then record {
          byte_stream = s.byte_stream ++ pdi_stf ∷ b ∷ [];
          check_sum = sum + pdi_stf;
          last_is_stf = last;
        }
        else if b == pdi_sop || b == pdi_eop
        then emitted
        else if not s.last_is_stf
        then record s { check_sum = sum; last_is_stf = last }
        else emitted)
    else emitted

-- `0xFF & (0 - n)`
unfoldable pub negate_byte : ℕ → ℕ
negate_byte n = (256 - n % 256) % 256

-- What follows the loop.
unfoldable pub finish_checksum : Bool → Scan → List ℕ × ℕ
finish_checksum add_stf s =
    let check = negate_byte s.check_sum in
    if is_reserved check
    then (
      (if add_stf then s.byte_stream ++ pdi_stf ∷ [] else s.byte_stream),
      negate_byte (s.check_sum + pdi_stf),
    )
    else (s.byte_stream, check)

unfoldable pub calculate_checksum : Bool → List ℕ → List ℕ × ℕ
calculate_checksum add_stf bytes =
    finish_checksum add_stf (foldl (scan_byte add_stf) scan_start bytes)

-- The end of `as_bytes`: SOP, the stuffed bytes, the checksum and EOP.
unfoldable pub to_frame : List ℕ → List ℕ
to_frame bytes =
    let (stream, check) = calculate_checksum true bytes in
    pdi_sop ∷ (stream ++ check ∷ pdi_eop ∷ [])

-- `(data[:-2], data[-2], data[-1])`, where there are two bytes.
unfoldable pub split_last_two : List ℕ → Option (List ℕ × ℕ × ℕ)
split_last_two [] = none
split_last_two (a ∷ []) = none
split_last_two (a ∷ b ∷ []) = some ([], a, b)
split_last_two (a ∷ b ∷ c ∷ rest) = elim (split_last_two (b ∷ c ∷ rest)) [
  | none ↦ none
  | some (xs, y, z) ↦ some (a ∷ xs, y, z)
]

-- The byte tests of `PdiReq.__init__` on received data: the bytes between SOP and checksum, with
-- the stuff bytes taken out. A single byte that is not SOP and EOP at once fails the first test.
unfoldable pub from_frame : List ℕ → Result (List ℕ)
from_frame [] = raise index_error
from_frame (first ∷ rest) = elim (split_last_two (first ∷ rest)) [
  | none ↦ raise value_error
  | some (front, received, last) ↦ do
    require (first == pdi_sop && last == pdi_eop) value_error
    let body : List ℕ = elim front [ [] ↦ [] | f ∷ body ↦ body ]
    let checked = calculate_checksum false body
    require (received == checked.1) value_error
    ok checked.0
]
