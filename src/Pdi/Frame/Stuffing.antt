-- ===== src/Pdi/Frame/Stuffing.antt =====
-- The loop of `_calculate_checksum` against plain recursions: what it writes when a packet is sent,
-- and what it gives back when that is received.
use py_legacy.Common.{
  ℕ, ◌+◌, ◌≡◌, Bool, true, false, ◌&&◌, List, [], ◌∷◌, ◌++◌, arith, ◌==◌, if◌then◌else◌, append-nil,
  append_assoc, Bool-cases, inl, inr,
}
use py_legacy.Pdi.Frame.{pdi_stf, is_reserved, Scan, scan_byte}
use mathlib.Core.List.{foldl}

-- Every reserved byte with a stuff byte before it.
unfoldable pub stuff : List ℕ → List ℕ
stuff [] = []
stuff (b ∷ bs) = let rest = stuff bs in if is_reserved b then pdi_stf ∷ b ∷ rest else b ∷ rest

unfoldable pub byte_sum : List ℕ → ℕ
byte_sum [] = 0
byte_sum (b ∷ bs) = b + byte_sum bs

-- Whether the last byte read is a stuff byte.
unfoldable pub ends_in_stf : Bool → List ℕ → Bool
ends_in_stf last [] = last
ends_in_stf last (b ∷ bs) = ends_in_stf (b == pdi_stf) bs

-- What the receiver makes of `stuff bs`: a reserved byte right after a stuff byte of the data keeps
-- the stuff byte that was put before it.
unfoldable pub unstuffed : Bool → List ℕ → List ℕ
unstuffed last [] = []
unstuffed last (b ∷ bs) =
    let rest = unstuffed (b == pdi_stf) bs in
    if last && is_reserved b then pdi_stf ∷ b ∷ rest else b ∷ rest

abbrev after_send : Scan → List ℕ → Scan
after_send s bs = record {
  byte_stream = s.byte_stream ++ stuff bs;
  check_sum = s.check_sum + byte_sum (stuff bs);
  last_is_stf = ends_in_stf s.last_is_stf bs;
}

send_reserved :
    (b : ℕ) (s : Scan)
    → is_reserved b ≡ true
    → scan_byte true s b ≡ record {
      byte_stream = s.byte_stream ++ pdi_stf ∷ b ∷ [];
      check_sum = s.check_sum + b + pdi_stf;
      last_is_stf = b == pdi_stf;
    }
unfolding scan_byte
send_reserved b s e = rw e

plain_byte :
    (add_stf : Bool) (b : ℕ) (s : Scan)
    → is_reserved b ≡ false
    → scan_byte add_stf s b ≡ record {
      byte_stream = s.byte_stream ++ b ∷ [];
      check_sum = s.check_sum + b;
      last_is_stf = b == pdi_stf;
    }
unfolding scan_byte
plain_byte add_stf b s e = rw e

-- A stuff byte and the byte that it protects, as the receiver reads them.
receive_pair :
    (b : ℕ) (s : Scan)
    → is_reserved b ≡ true
    → scan_byte false (scan_byte false s pdi_stf) b ≡ record {
      byte_stream = s.byte_stream ++ (if s.last_is_stf then pdi_stf ∷ b ∷ [] else b ∷ []);
      check_sum = s.check_sum + pdi_stf + b;
      last_is_stf = b == pdi_stf;
    }
unfolding scan_byte is_reserved
receive_pair b s e = ground (arith, append_assoc s.byte_stream (pdi_stf ∷ []) (b ∷ []))

pub receive_stf :
    (s : Scan)
    → scan_byte false s pdi_stf ≡ record {
      byte_stream = s.byte_stream ++ (if s.last_is_stf then pdi_stf ∷ [] else []);
      check_sum = s.check_sum + pdi_stf;
      last_is_stf = true;
    }
unfolding scan_byte is_reserved
receive_stf s = ground (arith, append-nil s.byte_stream)

pub scan-send : (bs : List ℕ) (s : Scan) → foldl (scan_byte true) s bs ≡ after_send s bs
unfolding stuff byte_sum ends_in_stf
scan-send [] s = ground (arith, append-nil s.byte_stream)
scan-send (b ∷ bs) s = elim (Bool-cases (is_reserved b)) [
  | inl e ↦
      rw (send_reserved b s e, e)
        (ground (
          arith,
          scan-send bs (record {
            byte_stream = s.byte_stream ++ pdi_stf ∷ b ∷ [];
            check_sum = s.check_sum + b + pdi_stf;
            last_is_stf = b == pdi_stf;
          }),
          append_assoc s.byte_stream (pdi_stf ∷ b ∷ []) (stuff bs),
        ))
  | inr e ↦
      rw (plain_byte true b s e, e)
        (ground (
          arith,
          scan-send bs (record {
            byte_stream = s.byte_stream ++ b ∷ [];
            check_sum = s.check_sum + b;
            last_is_stf = b == pdi_stf;
          }),
          append_assoc s.byte_stream (b ∷ []) (stuff bs),
        ))
]

pub scan-receive :
    (bs : List ℕ) (s : Scan)
    → foldl (scan_byte false) s (stuff bs) ≡ record {
      byte_stream = s.byte_stream ++ unstuffed s.last_is_stf bs;
      check_sum = s.check_sum + byte_sum (stuff bs);
      last_is_stf = ends_in_stf s.last_is_stf bs;
    }
unfolding stuff byte_sum ends_in_stf unstuffed
scan-receive [] s = ground (arith, append-nil s.byte_stream)
scan-receive (b ∷ bs) s = elim (Bool-cases (is_reserved b)) [
  | inl e ↦
      let kept : List ℕ = if s.last_is_stf then pdi_stf ∷ b ∷ [] else b ∷ [] in
      let rest = unstuffed (b == pdi_stf) bs in
      rw (e, foldl)
        (rw (receive_pair b s e) (
          ground (
            arith,
            scan-receive bs (record {
              byte_stream = s.byte_stream ++ kept;
              check_sum = s.check_sum + pdi_stf + b;
              last_is_stf = b == pdi_stf;
            }),
            append_assoc s.byte_stream kept rest,
          )))
  | inr e ↦
      rw (e, foldl)
        (rw (plain_byte false b s e) (
          ground (
            arith,
            scan-receive bs (record {
              byte_stream = s.byte_stream ++ b ∷ [];
              check_sum = s.check_sum + b;
              last_is_stf = b == pdi_stf;
            }),
            append_assoc s.byte_stream (b ∷ []) (unstuffed (b == pdi_stf) bs),
          )))
]
