-- ===== src/Db/CompData/Stored.antt =====
-- The values that a field of a record can hold, written to the field and read back (db/comp_data.py).
use py_legacy.Common.{
  ℕ, zero, suc, ◌≤◌, ◌<◌, ◌≡◌, refl, ◌⊎◌, inl, inr, Bool, true, false, ◌&&◌, Option, some, List,
  arith, ◌==◌, eq_of_==, length, All, all_below, all_below_sound, and_left, and_right, Result, ok,
  raise,
}
use py_legacy.Common.Int.{pos, eq_ℤ, eq_of_eq_ℤ}
use py_legacy.Protocol.Digits.{address_digits}
use py_legacy.Db.Text.{
  replicate, length-replicate, le_bytes_fits, byte_range, encode_text, encode_text_fits,
  decode_text-ff, decode_int, IsField,
}
use py_legacy.Db.Components.{ConsistComponent, RouteComponent}
use py_legacy.Db.Components.RoundTrip.{
  IsMember, IsD4Member, consist_from_bytes-to_bytes, consist_from_d4_bytes-to_d4_bytes,
}
use py_legacy.Db.Components.Routes.{IsRouteMember, IsAscending, routes_from_bytes-to_bytes}
use py_legacy.Db.CompData.{to_bytes, from_bytes}
use py_legacy.Db.CompData.Maps.{
  Value, nothing, int, str, consist, routes, Codec, number, text_field, digits, members, d4_members,
  route_members,
}

-- The bytes of a field.
abbrev pub width : Codec → ℕ
width (number n) = n
width (text_field n) = n
width digits = 4
width members = 32
width d4_members = 64
width route_members = 32

-- A number that fits, no text or text that fits, an address of four digits, up to 16 members.
abbrev pub IsStored : (ℕ → Option ℕ) → Codec → Value → Type 0
IsStored s (number n) v = (x : ℕ) × (v ≡ int (pos x)) × (x < byte_range n)
IsStored s (text_field n) v = ((v ≡ nothing) × (1 ≤ n)) ⊎ ((t : List ℕ) × (v ≡ str t) × IsField n t)
IsStored s digits v = (x : ℕ) × (v ≡ int (pos x)) × (x < 10000)
IsStored s members v =
    (cs : List ConsistComponent) × (v ≡ consist cs) × All IsMember cs × (length cs ≤ 16)
IsStored s d4_members v =
    (cs : List ConsistComponent) × (v ≡ consist cs) × All (IsD4Member s) cs × (length cs ≤ 16)
IsStored s route_members v =
    (cs : List RouteComponent) × (v ≡ routes cs)
    × All IsRouteMember cs
    × IsAscending cs
    × (length cs ≤ 16)

four_bytes_of : ℕ → Result (List ℕ) → Bool
four_bytes_of n (ok bs) = length bs == 4 && eq_ℤ (decode_int bs) (pos n)
four_bytes_of n (raise e) = false

four_bytes_of_lem :
    (n : ℕ) (r : Result (List ℕ))
    → four_bytes_of n r ≡ true
    → (bs : List ℕ) × (r ≡ ok bs) × (length bs ≡ 4) × (decode_int bs ≡ pos n)
unfolding four_bytes_of
four_bytes_of_lem n (ok bs) h =
    (bs, refl, eq_of_== _ _ (and_left _ _ h), eq_of_eq_ℤ _ _ (and_right _ _ h))
four_bytes_of_lem n (raise e) h = absurd (cc h)

digits_table :
    all_below 10000 (λ n. four_bytes_of n (encode_text (some (address_digits n)) 4)) ≡ true
unfolding all_below four_bytes_of encode_text address_digits decode_int
digits_table = refl

module _ (s : ℕ → Option ℕ) where
  abbrev pub IsKept : Codec → Value → Type 0
  IsKept c v =
      (bs : List ℕ) × (to_bytes c v ≡ ok bs) × (length bs ≡ width c) × (from_bytes s c bs ≡ ok v)

  pub IsStored-IsKept : (c : Codec) (v : Value) → IsStored s c v → IsKept c v
  unfolding to_bytes from_bytes
  IsStored-IsKept (number n) v (x, e, fits) =
      let (bs, w, l, r) = le_bytes_fits n x fits in (bs, rw (e, to_bytes) w, l, rw e (rw r refl))
  IsStored-IsKept (text_field zero) v (inl (e, one)) = absurd (omega arith)
  IsStored-IsKept (text_field (suc n)) v (inl (e, one)) = (
    replicate (suc n) 0xFF,
    rw (e, to_bytes) (unfold encode_text in refl),
    length-replicate (suc n) 0xFF,
    rw e (rw (decode_text-ff n) refl),
  )
  IsStored-IsKept (text_field n) v (inr (t, e, field)) =
      let (bs, w, l, r) = encode_text_fits t n field in
      (bs, rw (e, to_bytes) w, l, rw e (rw r refl))
  IsStored-IsKept digits v (x, e, few) =
      let (bs, w, l, r) =
        four_bytes_of_lem x (encode_text (some (address_digits x)) 4)
          (all_below_sound 10000 _ x digits_table few) in
      (bs, rw (e, to_bytes) w, l, rw e (rw r refl))
  IsStored-IsKept members v (cs, e, h, few) =
      let (bs, w, l, r) = consist_from_bytes-to_bytes cs h few in
      (bs, rw (e, to_bytes) w, l, rw e (rw r refl))
  IsStored-IsKept d4_members v (cs, e, h, few) =
      let (bs, w, l, r) = consist_from_d4_bytes-to_d4_bytes s cs h few in
      (bs, rw (e, to_bytes) w, l, rw e (rw r refl))
  IsStored-IsKept route_members v (cs, e, h, up, few) =
      let (bs, w, l, r) = routes_from_bytes-to_bytes cs h up few in
      (bs, rw (e, to_bytes) w, l, rw e (rw r refl))
