-- ===== src/Pdi/Runs.antt =====
-- Concrete runs of the PDI frames and of the listener: tests, and the theorems at one input.
use py_legacy.Common.{ℕ, some, List, [], ◌∷◌, ◌++◌, ◌≡◌, ◌≢◌, refl, ok}
use py_legacy.Pdi.Frame.{
  calculate_checksum, to_frame, from_frame, is_reserved, pdi_stf, scan_byte, negate_byte,
  finish_checksum,
}
use py_legacy.Pdi.Frame.RoundTrip.{from_frame-to_frame_separated, from_frame-to_frame_garbled}
use py_legacy.Pdi.Frame.Stuffing.{ends_in_stf}
use py_legacy.Pdi.Listener.{Listener, drain, feed, offer, fuel_for}
use py_legacy.Pdi.Listener.Fuel.{drain_total}
use py_legacy.Pdi.Listener.Chunks.{feed-joined, joined}
use py_legacy.Pdi.Listener.Frames.{feed-wire, frames, listening}

-- `data` of a request with a reserved byte in it.
abbrev request_data : List ℕ
request_data = 0x27 ∷ 0xD1 ∷ 0x05 ∷ []

framed : to_frame request_data ≡ 0xD1 ∷ 0x27 ∷ 0xDE ∷ 0xD1 ∷ 0x05 ∷ 0x25 ∷ 0xDF ∷ []
unfolding to_frame calculate_checksum finish_checksum is_reserved negate_byte scan_byte
framed = refl

from_frame-to_frame_separated_example : from_frame (to_frame request_data) ≡ ok request_data
unfolding is_reserved ends_in_stf
from_frame-to_frame_separated_example =
    from_frame-to_frame_separated request_data (refl, (refl, (refl, tt))) refl

-- A stuff byte with an SOP right behind it.
from_frame-to_frame_garbled_example :
    (bs : List ℕ) × (from_frame (to_frame ((0x27 ∷ []) ++ pdi_stf ∷ 0xD1 ∷ 0x05 ∷ [])) ≡ ok bs)
    × (bs ≢ (0x27 ∷ []) ++ pdi_stf ∷ 0xD1 ∷ 0x05 ∷ [])
unfolding is_reserved
from_frame-to_frame_garbled_example = from_frame-to_frame_garbled (0x27 ∷ []) 0xD1 (0x05 ∷ []) refl

abbrev half_received : Listener
half_received = record { bytes = 0x00 ∷ 0xD1 ∷ 0x27 ∷ []; search_from = 0 }

drain_total_example :
    (r : List (List ℕ) × Listener) × (drain (fuel_for half_received) half_received ≡ some r)
drain_total_example = drain_total half_received

abbrev chunks : List (List ℕ)
chunks =
    (0x00 ∷ 0xD1 ∷ 0x27 ∷ [])
    ∷ (0xDE ∷ [])
    ∷ (0xD1 ∷ 0x05 ∷ 0x25 ∷ 0xDF ∷ 0xD1 ∷ [])
    ∷ (0x10 ∷ 0xF0 ∷ 0xDF ∷ [])
    ∷ []

feed-joined_example :
    feed listening chunks
    ≡ drain (fuel_for (offer listening (joined chunks))) (offer listening (joined chunks))
unfolding drain
feed-joined_example = feed-joined chunks listening refl

abbrev traffic : List (List ℕ × List ℕ)
traffic = (0x00 ∷ [], request_data) ∷ ([], 0x10 ∷ []) ∷ []

feed-wire_example : feed listening chunks ≡ some (frames traffic, listening)
unfolding to_frame calculate_checksum finish_checksum is_reserved negate_byte scan_byte
feed-wire_example = feed-wire traffic chunks ((refl, tt), (tt, tt)) refl
