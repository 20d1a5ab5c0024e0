-- ===== src/Pdi/Lcs/Received.antt =====
-- What `LcsReq` reads of a frame that was sent (pdi/lcs_req.py).
use py_legacy.Common.{
  ℕ, ◌≤◌, ◌<◌, ◌≡◌, refl, ap, ◌∙◌, false, Option, none, some, List, [], ◌∷◌, ◌++◌, arith, ◌==◌, leb,
  if◌then◌else◌, Result, ok, raise, ◌>>◌,
}
use py_legacy.Pdi.Frame.{to_frame, is_reserved, pdi_sop, pdi_eop, pdi_stf}
use py_legacy.Pdi.Frame.Stuffing.{stuff, ends_in_stf}
use py_legacy.Pdi.Frame.RoundTrip.{
  IsSeparated, from_frame-to_frame_separated, calculate_checksum-send, sent_check, collides,
}
use py_legacy.Pdi.Lcs.{
  Direction, get, set, rx, direction_code, direction_of, one_byte, two_bytes, capped, lcs_info,
  lcs_req, common_action,
}

stuff_plain : (b : ℕ) (bs : List ℕ) → is_reserved b ≡ false → stuff (b ∷ bs) ≡ b ∷ stuff bs
unfolding stuff
stuff_plain b bs p = rw p refl

-- The start of a frame whose first three bytes are not reserved.
pub to_frame_start :
    (a b c : ℕ) (rest : List ℕ)
    → is_reserved a ≡ false
    → is_reserved b ≡ false
    → is_reserved c ≡ false
    → (more : List ℕ) × (to_frame (a ∷ b ∷ c ∷ rest) ≡ pdi_sop ∷ a ∷ b ∷ c ∷ more)
unfolding to_frame
to_frame_start a b c rest p q r =
    let bs = a ∷ b ∷ c ∷ rest in
    let guard : List ℕ = if collides bs then pdi_stf ∷ [] else [] in
    let tail = sent_check bs ∷ pdi_eop ∷ [] in
    let start : stuff bs ≡ a ∷ b ∷ c ∷ stuff rest =
      (stuff_plain a (b ∷ c ∷ rest) p
        ∙ (ap (λ xs. a ∷ xs) (stuff_plain b (c ∷ rest) q)
            ∙ ap (λ xs. a ∷ b ∷ xs) (stuff_plain c rest r))) in
    (
      (stuff rest ++ guard) ++ tail,
      ap (λ (x : List ℕ × ℕ). pdi_sop ∷ (x.0 ++ x.1 ∷ pdi_eop ∷ [])) (calculate_checksum-send bs)
          ∙ ap (λ xs. pdi_sop ∷ ((xs ++ guard) ++ tail)) start,
    )

not_stf : (b : ℕ) → is_reserved b ≡ false → (b == pdi_stf) ≡ false
unfolding is_reserved
not_stf b p = ground arith

head-IsSeparated :
    (a b c : ℕ) (rest : List ℕ)
    → is_reserved a ≡ false
    → is_reserved b ≡ false
    → is_reserved c ≡ false
    → IsSeparated false rest
    → IsSeparated false (a ∷ b ∷ c ∷ rest)
head-IsSeparated a b c rest p q r h =
    rw (not_stf a p) (refl, rw (not_stf b q) (refl, rw (not_stf c r) (refl, h)))

head_ends :
    (a b c : ℕ) (rest : List ℕ)
    → is_reserved c ≡ false
    → ends_in_stf false (a ∷ b ∷ c ∷ rest) ≡ ends_in_stf false rest
unfolding ends_in_stf
head_ends a b c rest r = rw (not_stf c r) refl

direction_of-code : (first : ℕ) (d : Direction) → direction_of first (direction_code first d) ≡ ok d
unfolding direction_of
direction_of-code first get = ground arith
direction_of-code first set = ground arith
direction_of-code first rx = ground arith

pub lcs_req-to_frame :
    (first : ℕ) (d : Direction) (id action : ℕ) (content : List ℕ)
    → is_reserved (direction_code first d) ≡ false
    → is_reserved id ≡ false
    → is_reserved action ≡ false
    → action < 128
    → IsSeparated false content
    → ends_in_stf false content ≡ false
    → lcs_req first (to_frame (direction_code first d ∷ id ∷ action ∷ content))
      ≡ ok (record {
        direction = d;
        tmcc_id = id;
        action_byte = action;
        error = false;
        error_code = none;
        info = lcs_info (common_action action) content;
        data_bytes = direction_code first d ∷ id ∷ action ∷ content;
      })
unfolding lcs_req
lcs_req-to_frame first d id action content p q r small h e =
    let code = direction_code first d in
    let bs = code ∷ id ∷ action ∷ content in
    let (more, start) = to_frame_start code id action content p q r in
    let back =
      from_frame-to_frame_separated bs (head-IsSeparated code id action content p q r h)
        (head_ends code id action content r ∙ e) in
    let plain : leb 128 action ≡ false = ground arith in
    rw back (rw start (rw (direction_of-code first d) (rw plain refl)))

pub id_plain : (n : ℕ) → n ≤ 99 → is_reserved n ≡ false
unfolding is_reserved
id_plain n h = ground arith

pub one_byte_lem : (n : ℕ) → n < 256 → one_byte n ≡ ok (n ∷ [])
unfolding one_byte
one_byte_lem n h = ground arith

pub two_bytes_lem : (a b : ℕ) → a < 256 → b < 256 → two_bytes a b ≡ ok (a ∷ b ∷ [])
unfolding two_bytes
two_bytes_lem a b p q = rw (one_byte_lem a p) (rw (one_byte_lem b q) refl)

pub capped_small : (top : ℕ) (t : Option ℕ) → top < 256 → capped top t < 256
capped_small top none h = ground arith
capped_small top (some n) h = ground arith

pub after_ok {ℓ} :
    {A : Type ℓ} (m : Result (Unit {0})) (k : Result A) (r : A) → (m >> k) ≡ ok r → k ≡ ok r
after_ok (ok tt) k r h = h
after_ok (raise e) k r h = absurd (cc h)
