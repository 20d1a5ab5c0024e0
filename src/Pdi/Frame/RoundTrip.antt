-- ===== src/Pdi/Frame/RoundTrip.antt =====
-- What `from_frame` gives back of the bytes that `to_frame` has framed.
use py_legacy.Common.{
  ℕ, ◌+◌, ◌≤◌, ◌<◌, ◌≡◌, refl, ap, ◌∙◌, ◌≢◌, Bool, true, false, ◌&&◌, some, List, [], ◌∷◌, ◌++◌,
  arith, ◌==◌, if◌then◌else◌, append-nil, Bool-cases, inl, inr, length, length-append, ok, ==_refl,
}
use py_legacy.Pdi.Frame.{
  pdi_sop, pdi_stf, pdi_eop, is_reserved, scan_start, negate_byte, finish_checksum,
  calculate_checksum, to_frame, from_frame, split_last_two,
}
use py_legacy.Pdi.Frame.Stuffing.{
  stuff, byte_sum, ends_in_stf, unstuffed, receive_stf, scan-send, scan-receive,
}
use mathlib.Core.List.{foldl-append}
use native.Mathlib.Nat.{zero-add, add-zero}

pub split_last_two-append :
    (xs : List ℕ) (a b : ℕ) → split_last_two (xs ++ a ∷ b ∷ []) ≡ some (xs, a, b)
unfolding split_last_two
split_last_two-append [] a b = refl
split_last_two-append (x ∷ []) a b = refl
split_last_two-append (x ∷ y ∷ []) a b = refl
split_last_two-append (x ∷ y ∷ z ∷ xs) a b = rw (split_last_two-append (y ∷ z ∷ xs) a b)

-- The checksum of the stuffed bytes is itself reserved.
abbrev pub collides : List ℕ → Bool
collides bs = is_reserved (negate_byte (byte_sum (stuff bs)))

-- One more stuff byte moves a reserved checksum to one that is not.
shifted_checksum :
    (n : ℕ) → is_reserved (negate_byte n) ≡ true → is_reserved (negate_byte (n + pdi_stf)) ≡ false
unfolding is_reserved negate_byte
shifted_checksum n h = ground arith

abbrev pub sent_stream : List ℕ → List ℕ
sent_stream bs = stuff bs ++ (if collides bs then pdi_stf ∷ [] else [])

abbrev pub sent_check : List ℕ → ℕ
sent_check bs = negate_byte (byte_sum (stuff bs) + (if collides bs then pdi_stf else 0))

pub calculate_checksum-send :
    (bs : List ℕ) → calculate_checksum true bs ≡ (sent_stream bs, sent_check bs)
unfolding calculate_checksum finish_checksum
calculate_checksum-send bs = elim (Bool-cases (collides bs)) [
  | inl e ↦ rw (scan-send bs scan_start, zero-add, e)
  | inr e ↦ rw (scan-send bs scan_start, zero-add, e) (ground (arith, append-nil (stuff bs)))
]

-- The checksum byte of a frame is none of the reserved bytes.
pub sent_check-plain : (bs : List ℕ) → is_reserved (sent_check bs) ≡ false
sent_check-plain bs = elim (Bool-cases (collides bs)) [
  | inl e ↦ rw e (shifted_checksum (byte_sum (stuff bs)) e)
  | inr e ↦ rw (e, add-zero) e
]

-- What the receiver reads of the data of a frame.
abbrev pub received : List ℕ → List ℕ
received bs =
    unstuffed false bs ++ (if collides bs && ends_in_stf false bs then pdi_stf ∷ [] else [])

calculate_checksum-receive :
    (bs : List ℕ) → calculate_checksum false (sent_stream bs) ≡ (received bs, sent_check bs)
unfolding calculate_checksum finish_checksum
calculate_checksum-receive bs = elim (Bool-cases (collides bs)) [
  | inl e ↦
      rw (e, foldl-append, scan-receive bs scan_start, zero-add)
        (rw (receive_stf, shifted_checksum (byte_sum (stuff bs)) e))
  | inr e ↦
      rw (e, append-nil, scan-receive bs scan_start, zero-add)
        (ground (arith, append-nil (unstuffed false bs)))
]

-- The exact result of receiving a frame.
pub from_frame-to_frame : (bs : List ℕ) → from_frame (to_frame bs) ≡ ok (received bs)
unfolding from_frame to_frame
from_frame-to_frame bs = rw (calculate_checksum-send bs) (
    rw (split_last_two-append (pdi_sop ∷ sent_stream bs) (sent_check bs) pdi_eop, from_frame)
      (rw (calculate_checksum-receive bs, ==_refl)))

-- No reserved byte stands right behind a stuff byte.
abbrev pub IsSeparated : Bool → List ℕ → Type 0
IsSeparated last [] = Unit
IsSeparated last (b ∷ bs) = ((last && is_reserved b) ≡ false) × IsSeparated (b == pdi_stf) bs

unstuffed_separated : (last : Bool) (bs : List ℕ) → IsSeparated last bs → unstuffed last bs ≡ bs
unfolding unstuffed
unstuffed_separated last [] h = refl
unstuffed_separated last (b ∷ bs) (p, h) = rw (p, unstuffed_separated (b == pdi_stf) bs h)

-- A frame gives back the data that it was built from, if no reserved byte of the data stands right
-- behind a stuff byte and the data does not end in a stuff byte.
pub from_frame-to_frame_separated :
    (bs : List ℕ)
    → IsSeparated false bs
    → ends_in_stf false bs ≡ false
    → from_frame (to_frame bs) ≡ ok bs
from_frame-to_frame_separated bs h e =
    from_frame-to_frame bs
    ∙ rw e (rw (unstuffed_separated false bs h) (ground (arith, append-nil bs)))

length-unstuffed : (last : Bool) (bs : List ℕ) → length bs ≤ length (unstuffed last bs)
unfolding unstuffed
length-unstuffed last [] = omega arith
length-unstuffed last (b ∷ bs) = ground (arith, length-unstuffed (b == pdi_stf) bs)

longer_unstuffed :
    (last : Bool) (xs : List ℕ) (b : ℕ) (ys : List ℕ)
    → is_reserved b ≡ true
    → length (xs ++ pdi_stf ∷ b ∷ ys) < length (unstuffed last (xs ++ pdi_stf ∷ b ∷ ys))
unfolding unstuffed
longer_unstuffed last [] b ys e = ground (arith, length-unstuffed (b == pdi_stf) ys)
longer_unstuffed last (x ∷ xs) b ys e = ground (arith, longer_unstuffed (x == pdi_stf) xs b ys e)

-- Data in which a reserved byte stands right behind a stuff byte does not come back: the receiver
-- accepts the frame and reads other data.
pub from_frame-to_frame_garbled :
    (xs : List ℕ) (b : ℕ) (ys : List ℕ)
    → is_reserved b ≡ true
    → (bs : List ℕ) × (from_frame (to_frame (xs ++ pdi_stf ∷ b ∷ ys)) ≡ ok bs)
      × (bs ≢ xs ++ pdi_stf ∷ b ∷ ys)
from_frame-to_frame_garbled xs b ys e =
    let sent = xs ++ pdi_stf ∷ b ∷ ys in
    (
      received sent,
      from_frame-to_frame sent,
      λ p. absurd (
          omega (
            arith,
            longer_unstuffed false xs b ys e,
            ap length p,
            length-append (unstuffed false sent)
                (if collides sent && ends_in_stf false sent then pdi_stf ∷ [] else []),
          )),
    )
